-- ===== src/RegionMap/Placed.antt =====
-- `fragmentByIntersection` puts the pieces of a node where the node was.
use mathlib.Core.List.{append_assoc, append-nil}
use nanos.Common.{
  ℕ, ◌<◌, ◌≡◌, refl, sym, ◌∙◌, ap, Bool, Bool-cases, true, false, List, [], ◌∷◌, ◌++◌, inl, inr,
  ltb, arith,
}
use nanos.Region.{DataAccessRegion, from_bounds, end_address}
use nanos.RegionMap.{Node, start_of, insert, duplicate, fragment_by_intersection}
use nanos.RegionMap.Traversal.{Disjoint, overlaps}
use nanos.RegionMap.Pieces.{
  AllBelow, AllAfter, AllBelow-weaken, insert-before, insert-behind, left_piece, middle_piece,
  right_piece, pieces, place, fragment_by_intersection-place,
}

module _ {A : Type 0} where
  pub Disjoint-AllAfter :
      (from key : ℕ) (nodes : List (Node A)) → key < from → Disjoint from nodes → AllAfter key nodes
  unfolding end_address
  Disjoint-AllAfter from key [] h d = tt
  Disjoint-AllAfter from key (n ∷ rest) h (b, l, f, d) = (
    omega (arith, h, b),
    Disjoint-AllAfter (end_address n.region) key rest (omega (arith, h, b)) d,
  )

  place-left :
      (d : A → A) (remove : Bool) (r : DataAccessRegion) (n : Node A) (before rest : List (Node A))
      → AllBelow (start_of n) before
      → AllAfter (start_of n) rest
      → place (left_piece d r n) (before ++ (middle_piece remove r n ++ rest))
        ≡ before ++ (left_piece d r n ++ (middle_piece remove r n ++ rest))
  unfolding from_bounds
  place-left d remove r n before rest b a = elim (Bool-cases (ltb (start_of n) r.start_address)) [
    | inr not_less ↦ rw not_less refl
    | inl less ↦ rw less (
        insert-behind (duplicate d (from_bounds (start_of n) r.start_address) n) before
          (middle_piece remove r n ++ rest) b
        ∙ ap (λ nodes. before ++ nodes)
            (insert-before (duplicate d (from_bounds (start_of n) r.start_address) n)
              (middle_piece remove r n ++ rest) (after remove (ground (arith, less)))))
  ]
    where
      after :
          (remove : Bool)
          → start_of n < r.start_address
          → AllAfter (start_of n) (middle_piece remove r n ++ rest)
      after true h = a
      after false h = (omega (arith, h), a)

  insert-inside :
      (p : Node A) (xs ys zs rest : List (Node A))
      → AllBelow (start_of p) xs
      → AllBelow (start_of p) ys
      → AllBelow (start_of p) zs
      → AllAfter (start_of p) rest
      → insert p (xs ++ (ys ++ (zs ++ rest))) ≡ xs ++ (ys ++ (zs ++ p ∷ rest))
  insert-inside p xs ys zs rest bx by bz a =
      insert-behind p xs (ys ++ (zs ++ rest)) bx
      ∙ ap (λ nodes. xs ++ nodes)
          (insert-behind p ys (zs ++ rest) by
            ∙ ap (λ nodes. ys ++ nodes)
                (insert-behind p zs rest bz ∙ ap (λ nodes. zs ++ nodes) (insert-before p rest a)))

  regroup :
      (xs ys zs rest : List (Node A)) → xs ++ (ys ++ (zs ++ rest)) ≡ (xs ++ (ys ++ zs)) ++ rest
  regroup xs ys zs rest = simp append_assoc

  place-right :
      (d : A → A) (remove : Bool) (r : DataAccessRegion) (n : Node A) (before rest : List (Node A))
      → overlaps r n ≡ true
      → 0 < r.length
      → 0 < n.region.length
      → AllBelow (start_of n) before
      → Disjoint (end_address n.region) rest
      → place
          (right_piece d r n)
          (before ++ (left_piece d r n ++ (middle_piece remove r n ++ rest)))
        ≡ before ++ (pieces d remove r n ++ rest)
  unfolding from_bounds end_address
  place-right d remove r n before rest o z l b k =
      elim (Bool-cases (ltb (end_address r) (end_address n.region))) [
        | inr not_more ↦
            rw (not_more, append-nil (middle_piece remove r n))
              (ap (λ nodes. before ++ nodes)
                (sym (append_assoc (left_piece d r n) (middle_piece remove r n) rest)))
        | inl more ↦ rw more (
            insert-inside last before (left_piece d r n) (middle_piece remove r n) rest
              (AllBelow-weaken (start_of n) (end_address r) before (ground (arith, o)) b) below_left
              (below_middle remove)
              (Disjoint-AllAfter (end_address n.region) (end_address r) rest (ground (arith, more))
                k)
            ∙ ap (λ nodes. before ++ nodes)
                (regroup (left_piece d r n) (middle_piece remove r n) (last ∷ []) rest))
      ]
    where
      last : Node A
      last = duplicate d (from_bounds (end_address r) (end_address n.region)) n

      below_left : AllBelow (end_address r) (left_piece d r n)
      below_left = elim (Bool-cases (ltb (start_of n) r.start_address)) [
        | inl less ↦ rw less (ground (arith, o), tt)
        | inr not_less ↦ rw not_less tt
      ]

      below_middle : (remove : Bool) → AllBelow (end_address r) (middle_piece remove r n)
      below_middle true = tt
      below_middle false = (ground (arith, o, z), tt)

  pub fragment_by_intersection-pieces :
      (d : A → A) (remove : Bool) (r : DataAccessRegion) (n : Node A) (before rest : List (Node A))
      → overlaps r n ≡ true
      → 0 < r.length
      → 0 < n.region.length
      → AllBelow (start_of n) before
      → Disjoint (end_address n.region) rest
      → fragment_by_intersection d remove r n (before ++ n ∷ rest)
        ≡ before ++ (pieces d remove r n ++ rest)
  unfolding end_address
  fragment_by_intersection-pieces d remove r n before rest o z l b k =
      fragment_by_intersection-place d remove r n before rest b
      ∙ ap (place (right_piece d r n)) (
          place-left d remove r n before rest b
            (Disjoint-AllAfter (end_address n.region) (start_of n) rest (omega (arith, l)) k))
      ∙ place-right d remove r n before rest o z l b k
