-- ===== src/RegionMap/Tree.antt =====
-- The fragmentation of IntrusiveLinearRegionMapImplementation.hpp on the tree that holds the nodes. The tree is
-- that of boost, of which only what it documents is used.
use nanos.Common.{
  ℕ, ◌<◌, ◌≡◌, refl, ◌∙◌, ap, Bool, true, false, List, [], ◌∷◌, if◌then◌else◌, arith,
}
use nanos.Region.{DataAccessRegion}
use nanos.Region.Bytes.{Fits}
use nanos.Region.Fragments.{
  Fragment, this_only, intersecting, other_only, process_intersecting_fragments,
}
use nanos.RegionMap.{
  Node, start_of, insert, erase, set_access_region, duplicate, process, intersecting_nodes,
  process_intersecting, fragment_step, fragment_steps, fragment_by_intersection, fragment_each,
  fragment_intersecting,
}
use nanos.RegionMap.Traversal.{Disjoint}
use nanos.RegionMap.Fragmentation.{IsCut}
use nanos.RegionMap.Refinement.{lookup, fragment_intersecting-refines}

-- The operations of `boost::intrusive::avl_set` that change a tree, and what they do to the nodes from
-- `begin` to `end`. A node is in the tree itself, so that its region can be set in place.
pub record AvlSet (A : Type 0) : Type 1 where
  pub Tree : Type 0
  pub in_order : Tree → List (Node A)
  pub insert_node : Node A → Tree → Tree
  pub erase_node : ℕ → Tree → Tree
  pub set_region : ℕ → DataAccessRegion → Tree → Tree
  pub in_order-insert_node :
      (n : Node A) (s : Tree) → in_order (insert_node n s) ≡ insert n (in_order s)
  pub in_order-erase_node :
      (key : ℕ) (s : Tree) → in_order (erase_node key s) ≡ erase key (in_order s)
  pub in_order-set_region :
      (key : ℕ) (region : DataAccessRegion) (s : Tree)
      → in_order (set_region key region s) ≡ set_access_region key region (in_order s)

module _ {A : Type 0} (t : AvlSet A) where
  -- The calls of the processors of `fragmentByIntersection`, on the tree and `alreadyShrinked`.
  abbrev pub fragment_step_in : (A → A) → Bool → Node A → Fragment → t.Tree × Bool → t.Tree × Bool
  fragment_step_in duplicator remove n f (s, shrunk) =
      let copy = duplicate duplicator f.region n in
      elim f.processor [
        | this_only ↦
            if shrunk
            then (t.insert_node copy s, true)
            else (t.set_region (start_of n) f.region s, true)
        | intersecting ↦
            if remove
            then if shrunk then (s, true) else (t.erase_node (start_of n) s, true)
            else if shrunk
            then (t.insert_node copy s, true)
            else (t.set_region (start_of n) f.region s, true)
        | other_only ↦ (s, shrunk)
      ]

  abbrev pub fragment_steps_in : (A → A) → Bool → Node A → List Fragment → t.Tree × Bool → t.Tree
  fragment_steps_in duplicator remove n [] s = s.0
  fragment_steps_in duplicator remove n (f ∷ fs) s =
      fragment_steps_in duplicator remove n fs (fragment_step_in duplicator remove n f s)

  -- `fragmentByIntersection` of a node of the tree.
  unfoldable pub fragment_by_intersection_in :
      (A → A) → Bool → DataAccessRegion → Node A → t.Tree → t.Tree
  unfolding process_intersecting_fragments
  fragment_by_intersection_in duplicator remove fragmenter n s =
      fragment_steps_in duplicator remove n (process_intersecting_fragments n.region fragmenter)
        (s, false)

  -- The processor that `fragmentIntersecting` hands to `processIntersecting`.
  abbrev pub fragmenter_of : (A → A) → DataAccessRegion → Node A → t.Tree → t.Tree × Bool
  fragmenter_of duplicator r n s = (fragment_by_intersection_in duplicator false r n s, true)

  unfoldable pub fragment_intersecting_in : (A → A) → DataAccessRegion → t.Tree → t.Tree
  unfolding fragment_by_intersection_in process_intersecting
  fragment_intersecting_in duplicator r s =
      (process_intersecting (fragmenter_of duplicator r) r (t.in_order s) s).0

module _ {A : Type 0} (t : AvlSet A) (d : A → A) where
  abbrev listed : t.Tree × Bool → List (Node A) × Bool
  listed (s, shrunk) = (t.in_order s, shrunk)

  marked :
      {nodes others : List (Node A)}
      → nodes ≡ others
      → ◌≡◌ {A = List (Node A) × Bool} (nodes, true) (others, true)
  marked e = ap {B = List (Node A) × Bool} (λ nodes. (nodes, true)) e

  listed-step :
      (remove : Bool) (n : Node A) (f : Fragment) (s : t.Tree) (shrunk : Bool)
      → listed (fragment_step_in t d remove n f (s, shrunk))
        ≡ fragment_step d remove n f (t.in_order s, shrunk)
  listed-step remove n f s shrunk =
      let inserted = marked (t.in_order-insert_node (duplicate d f.region n) s) in
      let erased = marked (t.in_order-erase_node (start_of n) s) in
      let set = marked (t.in_order-set_region (start_of n) f.region s) in
      ground (arith, inserted, erased, set)

  in_order-steps :
      (remove : Bool) (n : Node A) (fs : List Fragment) (s : t.Tree × Bool)
      → t.in_order (fragment_steps_in t d remove n fs s) ≡ fragment_steps d remove n fs (listed s)
  in_order-steps remove n [] s = refl
  in_order-steps remove n (f ∷ fs) (s, shrunk) =
      in_order-steps remove n fs (fragment_step_in t d remove n f (s, shrunk))
      ∙ ap (fragment_steps d remove n fs) (listed-step remove n f s shrunk)

  in_order-fragment_by_intersection :
      (remove : Bool) (r : DataAccessRegion) (n : Node A) (s : t.Tree)
      → t.in_order (fragment_by_intersection_in t d remove r n s)
        ≡ fragment_by_intersection d remove r n (t.in_order s)
  unfolding fragment_by_intersection fragment_by_intersection_in
  in_order-fragment_by_intersection remove r n s =
      in_order-steps remove n (process_intersecting_fragments n.region r) (s, false)

  in_order-process :
      (r : DataAccessRegion) (visited : List (Node A)) (s : t.Tree)
      → t.in_order (process (fragmenter_of t d r) visited s).0
        ≡ fragment_each d r visited (t.in_order s)
  unfolding process
  in_order-process r [] s = refl
  in_order-process r (n ∷ rest) s =
      in_order-process r rest (fragment_by_intersection_in t d false r n s)
      ∙ ap (fragment_each d r rest) (in_order-fragment_by_intersection false r n s)

  in_order-fragment_intersecting :
      (r : DataAccessRegion) (s : t.Tree)
      → t.in_order (fragment_intersecting_in t d r s) ≡ fragment_intersecting d r (t.in_order s)
  unfolding fragment_intersecting fragment_intersecting_in process_intersecting
  in_order-fragment_intersecting r s = in_order-process r (intersecting_nodes r (t.in_order s)) s

-- Fragmenting a tree of disjoint nodes by a region: every byte keeps what the tree says of it, if
-- a duplicate says what its original says; the nodes are disjoint and in order; and each of them lies
-- in the region or shares no byte with it.
pub lookup-fragment_intersecting_in :
    {A B : Type 0} (t : AvlSet A) (view : A → B) (d : A → A) (r : DataAccessRegion) (s : t.Tree)
    (a : ℕ)
    → ((c : A) → view (d c) ≡ view c)
    → 0 < r.length
    → Fits r
    → Disjoint 0 (t.in_order s)
    → (lookup view (t.in_order (fragment_intersecting_in t d r s)) a ≡ lookup view (t.in_order s) a)
      × Disjoint 0 (t.in_order (fragment_intersecting_in t d r s))
      × IsCut d r (t.in_order (fragment_intersecting_in t d r s))
lookup-fragment_intersecting_in t view d r s a v z g k =
    rw (in_order-fragment_intersecting t d r s)
      (fragment_intersecting-refines view d r (t.in_order s) a v z g k)
