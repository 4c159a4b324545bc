-- ===== src/RegionMap.antt =====
-- Maps of disjoint regions: src/dependencies/linear-regions/IntrusiveLinearRegionMap.hpp and
-- IntrusiveLinearRegionMapImplementation.hpp. Here a map is the list of its nodes, in the order of their
-- keys, the start addresses; Tree relates the tree of boost to it. A processor gets a node and a state,
-- and says whether to go on.
pub mod Traversal
pub mod Gaps
pub mod Pieces
pub mod Placed
pub mod Fragmentation
pub mod Refinement
pub mod Insertion
pub mod Tree
pub mod Replacement
mod Examples
use nanos.Common.{
  ℕ, Bool, true, false, ◌||◌, Option, none, some, List, [], ◌∷◌, ◌++◌, ◌==◌, ltb, leb,
  if◌then◌else◌,
}
use nanos.Region.{DataAccessRegion, from_bounds, end_address, intersect, is_empty}
use nanos.Region.Fragments.{
  Fragment, Processor, this_only, intersecting, other_only, process_intersecting_fragments,
}

pub record Node {ℓ} (A : Type ℓ) : Type ℓ where
  pub region : DataAccessRegion
  pub contents : A

-- What a traversal with two processors calls them with.
pub data Visit {ℓ} (A : Type ℓ) : Type ℓ where
  present : Node A → Visit A
  missing : DataAccessRegion → Visit A

-- A processor gets what it is called with, until it returns false.
module _ {κ ι} {B : Type κ} {S : Type ι} where
  unfoldable pub process : (B → S → S × Bool) → List B → S → S × Bool
  process f [] s = (s, true)
  process f (b ∷ rest) s =
      let (s', cont) = f b s in let later = process f rest s' in if cont then later else (s', false)

module _ {ℓ} {A : Type ℓ} where
  abbrev pub start_of : Node A → ℕ
  start_of n = n.region.start_address

  -- What `insert` of the tree does to the list: it keeps a node that has the key already.
  unfoldable pub insert : Node A → List (Node A) → List (Node A)
  insert m [] = m ∷ []
  insert m (n ∷ rest) =
      let others = insert m rest in
      if ltb (start_of m) (start_of n)
      then m ∷ n ∷ rest
      else if start_of m == start_of n
      then n ∷ rest
      else n ∷ others

  unfoldable pub erase : ℕ → List (Node A) → List (Node A)
  erase key [] = []
  erase key (n ∷ rest) =
      let others = erase key rest in if key == start_of n then rest else n ∷ others

  -- `setAccessRegion` of the node with a key.
  unfoldable pub set_access_region : ℕ → DataAccessRegion → List (Node A) → List (Node A)
  set_access_region key region [] = []
  set_access_region key region (n ∷ rest) =
      let others = set_access_region key region rest in
      if key == start_of n then record n { region = region } ∷ rest else n ∷ others

  -- The nodes from `lower_bound` on.
  unfoldable pub lower_bound : ℕ → List (Node A) → List (Node A)
  lower_bound key [] = []
  lower_bound key (n ∷ rest) =
      let later = lower_bound key rest in if ltb (start_of n) key then later else n ∷ rest

  abbrev pub step_back : Option (Node A) → List (Node A) → List (Node A)
  step_back none nodes = nodes
  step_back (some n) nodes = n ∷ nodes

  -- The nodes from `lower_bound` on, with the one before them unless one starts at the key; the first
  -- argument is the node before those of the list.
  unfoldable pub seek : Option (Node A) → ℕ → List (Node A) → List (Node A)
  seek previous key [] = step_back previous []
  seek previous key (n ∷ rest) =
      let later = seek (some n) key rest in
      if ltb (start_of n) key
      then later
      else if ltb key (start_of n)
      then step_back previous (n ∷ rest)
      else n ∷ rest

  -- The loop of `processIntersecting`: the nodes that it gives to a processor that never stops.
  unfoldable pub scan : DataAccessRegion → List (Node A) → List (Node A)
  unfolding end_address intersect is_empty
  scan r [] = []
  scan r (n ∷ rest) =
      let later = scan r rest in
      if ltb (start_of n) (end_address r)
      then if is_empty (intersect r n.region) then later else n ∷ later
      else []

  unfoldable pub intersecting_nodes : DataAccessRegion → List (Node A) → List (Node A)
  unfolding scan seek
  intersecting_nodes r nodes = scan r (seek none r.start_address nodes)

  unfoldable pub process_intersecting {ι} :
      {S : Type ι} → (Node A → S → S × Bool) → DataAccessRegion → List (Node A) → S → S × Bool
  unfolding process intersecting_nodes
  process_intersecting f r nodes s = process f (intersecting_nodes r nodes) s

  abbrev pub any_of : (Node A → Bool) → List (Node A) → Bool
  any_of condition [] = false
  any_of condition (n ∷ rest) = condition n || any_of condition rest

  unfoldable pub exists : (Node A → Bool) → DataAccessRegion → List (Node A) → Bool
  unfolding intersecting_nodes
  exists condition r nodes = any_of condition (intersecting_nodes r nodes)

  -- `contains` of the map.
  unfoldable pub contains_any : DataAccessRegion → List (Node A) → Bool
  unfolding intersecting_nodes
  contains_any r nodes = any_of (λ n. true) (intersecting_nodes r nodes)

  abbrev pub gap : ℕ → ℕ → List (Visit A)
  gap from to = if ltb from to then missing (from_bounds from to) ∷ [] else []

  -- The loop of `processIntersectingAndMissing`, from the end of what it has handled on.
  unfoldable pub visits_from : DataAccessRegion → ℕ → List (Node A) → List (Visit A)
  unfolding end_address from_bounds
  visits_from r last_end [] = gap last_end (end_address r)
  visits_from r last_end (n ∷ rest) =
      let to = end_address n.region in
      let later = visits_from r (if leb to (end_address r) then to else end_address r) rest in
      if ltb (start_of n) (end_address r)
      then gap last_end (start_of n) ++ present n ∷ later
      else gap last_end (end_address r)

  -- The node before the region is passed over if it ends before it.
  abbrev pub pass_over : ℕ → List (Node A) → List (Node A) → List (Node A)
  pass_over from initial [] = initial
  pass_over from initial (n ∷ rest) = if leb (end_address n.region) from then initial else n ∷ rest

  unfoldable pub visits : DataAccessRegion → List (Node A) → List (Visit A)
  unfolding lower_bound seek visits_from
  visits r [] = missing r ∷ []
  visits r (n ∷ rest) = visits_from r r.start_address (
      pass_over r.start_address (lower_bound r.start_address (n ∷ rest))
        (seek none r.start_address (n ∷ rest)))

  unfoldable pub process_intersecting_and_missing {ι} :
      {S : Type ι} → (Visit A → S → S × Bool) → DataAccessRegion → List (Node A) → S → S × Bool
  unfolding process visits
  process_intersecting_and_missing f r nodes s = process f (visits r nodes) s

  abbrev pub duplicate : (A → A) → DataAccessRegion → Node A → Node A
  duplicate duplicator region n = record { region = region; contents = duplicator n.contents }

  -- The calls of the processors of `fragmentByIntersection`, on the map and whether the node has been shrunk (or erased).
  abbrev pub fragment_step :
      (A → A) → Bool → Node A → Fragment → List (Node A) × Bool → List (Node A) × Bool
  fragment_step duplicator remove n f (nodes, shrunk) =
      let copy = duplicate duplicator f.region n in
      elim f.processor [
        | this_only ↦
            if shrunk
            then (insert copy nodes, true)
            else (set_access_region (start_of n) f.region nodes, true)
        | intersecting ↦
            if remove
            then if shrunk then (nodes, true) else (erase (start_of n) nodes, true)
            else if shrunk
            then (insert copy nodes, true)
            else (set_access_region (start_of n) f.region nodes, true)
        | other_only ↦ (nodes, shrunk)
      ]

  abbrev pub fragment_steps :
      (A → A) → Bool → Node A → List Fragment → List (Node A) × Bool → List (Node A)
  fragment_steps duplicator remove n [] s = s.0
  fragment_steps duplicator remove n (f ∷ fs) s =
      fragment_steps duplicator remove n fs (fragment_step duplicator remove n f s)

  -- `fragmentByIntersection` of the node at a position of the map, which overlaps the fragmenter. The
  -- postprocessor changes neither the map nor the regions.
  unfoldable pub fragment_by_intersection :
      (A → A) → Bool → DataAccessRegion → Node A → List (Node A) → List (Node A)
  unfolding process_intersecting_fragments insert erase set_access_region
  fragment_by_intersection duplicator remove fragmenter n nodes =
      fragment_steps duplicator remove n (process_intersecting_fragments n.region fragmenter)
        (nodes, false)

  -- The traversal of `fragmentIntersecting` has passed a node before it is fragmented.
  abbrev pub fragment_each :
      (A → A) → DataAccessRegion → List (Node A) → List (Node A) → List (Node A)
  fragment_each duplicator r [] nodes = nodes
  fragment_each duplicator r (n ∷ rest) nodes =
      fragment_each duplicator r rest (fragment_by_intersection duplicator false r n nodes)

  unfoldable pub fragment_intersecting : (A → A) → DataAccessRegion → List (Node A) → List (Node A)
  unfolding fragment_by_intersection intersecting_nodes
  fragment_intersecting duplicator r nodes =
      fragment_each duplicator r (intersecting_nodes r nodes) nodes
