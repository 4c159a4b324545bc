-- ===== src/RegionMap/Replacement.antt =====
-- `replace` of IntrusiveLinearRegionMap.hpp: a node that takes the place of another.
use nanos.Common.{
  ℕ, ◌≤◌, ◌<◌, ◌≡◌, refl, ◌∙◌, ap, none, some, List, [], ◌∷◌, ◌++◌, if◌then◌else◌, arith,
}
use nanos.Region.{DataAccessRegion, end_address}
use nanos.Region.Bytes.{Fits}
use nanos.Region.Fragments.{contains}
use nanos.RegionMap.{Node, start_of, insert, erase}
use nanos.RegionMap.Traversal.{Disjoint}
use nanos.RegionMap.Refinement.{lookup}
use nanos.RegionMap.Insertion.{AllApart, insert-Disjoint, lookup-insert_apart}
use nanos.RegionMap.Tree.{AvlSet}

-- `replace` of the node with a key.
unfoldable pub replace : {A : Type 0} (t : AvlSet A) → ℕ → Node A → t.Tree → t.Tree
replace t key replacement s = t.insert_node replacement (t.erase_node key s)

module _ {A : Type 0} where
  Disjoint-le :
      (from : ℕ) (before : List (Node A)) (n : Node A) (after : List (Node A))
      → Disjoint from (before ++ n ∷ after)
      → from ≤ start_of n
  unfolding end_address
  Disjoint-le from [] n after (b, l, f, k) = b
  Disjoint-le from (p ∷ before) n after (b, l, f, k) =
      omega (arith, b, Disjoint-le (end_address p.region) before n after k)

  erase-at :
      (from : ℕ) (before : List (Node A)) (n : Node A) (after : List (Node A))
      → Disjoint from (before ++ n ∷ after)
      → erase (start_of n) (before ++ n ∷ after) ≡ before ++ after
  unfolding erase end_address
  erase-at from [] n after (b, l, f, k) = ground arith
  erase-at from (p ∷ before) n after (b, l, f, k) =
      let same = erase-at (end_address p.region) before n after k in
      let past = Disjoint-le (end_address p.region) before n after k in
      ground (arith, l, past, same)

  Disjoint-lower :
      (from lower : ℕ) (nodes : List (Node A))
      → lower ≤ from
      → Disjoint from nodes
      → Disjoint lower nodes
  Disjoint-lower from lower [] h k = tt
  Disjoint-lower from lower (n ∷ rest) h (b, l, f, k) = (omega (arith, b, h), l, f, k)

  Disjoint-without :
      (from : ℕ) (before : List (Node A)) (n : Node A) (after : List (Node A))
      → Disjoint from (before ++ n ∷ after)
      → Disjoint from (before ++ after)
  unfolding end_address
  Disjoint-without from [] n after (b, l, f, k) =
      Disjoint-lower (end_address n.region) from after (omega (arith, b)) k
  Disjoint-without from (p ∷ before) n after (b, l, f, k) =
      (b, l, f, Disjoint-without (end_address p.region) before n after k)

  AllApart-behind :
      (r : DataAccessRegion) (from : ℕ) (nodes : List (Node A))
      → end_address r ≤ from
      → Disjoint from nodes
      → AllApart r nodes
  unfolding end_address
  AllApart-behind r from [] h k = tt
  AllApart-behind r from (n ∷ rest) h (b, l, f, k) =
      (ground (arith, h, b), AllApart-behind r (end_address n.region) rest (omega (arith, h, b)) k)

  AllApart-without :
      (r : DataAccessRegion) (from : ℕ) (before : List (Node A)) (n : Node A)
      (after : List (Node A))
      → start_of n ≤ r.start_address
      → end_address r ≤ end_address n.region
      → Disjoint from (before ++ n ∷ after)
      → AllApart r (before ++ after)
  unfolding end_address
  AllApart-without r from [] n after s e (b, l, f, k) =
      AllApart-behind r (end_address n.region) after e k
  AllApart-without r from (p ∷ before) n after s e (b, l, f, k) =
      let past = Disjoint-le (end_address p.region) before n after k in
      (ground (arith, past, s), AllApart-without r (end_address p.region) before n after s e k)

  in_order-replace :
      (t : AvlSet A) (m n : Node A) (before after : List (Node A)) (s : t.Tree)
      → Disjoint 0 (before ++ n ∷ after)
      → t.in_order s ≡ before ++ n ∷ after
      → t.in_order (replace t (start_of n) m s) ≡ insert m (before ++ after)
  unfolding replace
  in_order-replace t m n before after s k e =
      t.in_order-insert_node m (t.erase_node (start_of n) s)
      ∙ ap (insert m) (
          t.in_order-erase_node (start_of n) s
          ∙ ap (erase (start_of n)) e
          ∙ erase-at 0 before n after k)

module _ {A B : Type 0} (view : A → B) (a : ℕ) where
  lookup-behind :
      (from : ℕ) (nodes : List (Node A))
      → a < from
      → Disjoint from nodes
      → lookup view nodes a ≡ none
  unfolding end_address
  lookup-behind from [] h k = refl
  lookup-behind from (n ∷ rest) h (b, l, f, k) =
      let later = lookup-behind (end_address n.region) rest (omega (arith, h, b)) k in
      ground (arith, h, b, later)

  lookup-without :
      (from : ℕ) (before : List (Node A)) (n : Node A) (after : List (Node A))
      → Disjoint from (before ++ n ∷ after)
      → lookup view (before ++ after) a
        ≡ (if contains n.region a then none else lookup view (before ++ n ∷ after) a)
  unfolding end_address
  lookup-without from [] n after (b, l, f, k) =
      let none_left : a < end_address n.region → lookup view after a ≡ none =
        λ h. lookup-behind (end_address n.region) after h k in
      ground (arith, none_left)
  lookup-without from (p ∷ before) n after (b, l, f, k) =
      let past = Disjoint-le (end_address p.region) before n after k in
      let later = lookup-without (end_address p.region) before n after k in
      ground (arith, past, later)

-- A node that takes the place of one whose region contains its own is found at each of its bytes; the other bytes of the old node are in no node any more; what the tree says of all other bytes
-- stays; and the nodes stay disjoint and in order.
pub lookup-replace :
    {A B : Type 0} (t : AvlSet A) (view : A → B) (m n : Node A) (before after : List (Node A))
    (s : t.Tree) (a : ℕ)
    → 0 < m.region.length
    → Fits m.region
    → start_of n ≤ start_of m
    → end_address m.region ≤ end_address n.region
    → Disjoint 0 (before ++ n ∷ after)
    → t.in_order s ≡ before ++ n ∷ after
    → (lookup view (t.in_order (replace t (start_of n) m s)) a ≡ (
        if contains m.region a
        then some (view m.contents)
        else if contains n.region a
        then none
        else lookup view (t.in_order s) a))
      × Disjoint 0 (t.in_order (replace t (start_of n) m s))
lookup-replace t view m n before after s a z f h g k e =
    let apart = AllApart-without m.region 0 before n after h g k in
    let left = Disjoint-without 0 before n after k in
    rw (in_order-replace t m n before after s k e, e)
      (
        lookup-insert_apart view m (before ++ after) 0 a z apart left
            ∙ ap (λ later. if contains m.region a then some (view m.contents) else later)
                (lookup-without view a 0 before n after k),
        insert-Disjoint m 0 (before ++ after) (omega arith) z f apart left,
      )
