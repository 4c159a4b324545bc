-- ===== src/RegionMap/Fragmentation.antt =====
-- `fragmentIntersecting` cuts the nodes of a map at the borders of a region, and changes nothing else.
use mathlib.Core.List.{append_assoc}
use nanos.Common.{
  ℕ, ◌≤◌, ◌<◌, ◌≡◌, refl, sym, ◌∙◌, ap, Bool-cases, true, false, List, [], ◌∷◌, ◌++◌, inl, inr, ◌⊎◌,
  ltb, if◌then◌else◌, arith,
}
use nanos.Region.{DataAccessRegion, from_bounds, end_address}
use nanos.Region.Bytes.{Fits}
use nanos.RegionMap.{Node, start_of, fragment_each, fragment_intersecting}
use nanos.RegionMap.Traversal.{Disjoint, overlaps, overlapping, intersecting_nodes-overlapping}
use nanos.RegionMap.Pieces.{
  AllBelow, AllBelow-append, AllBelow-weaken, left_piece, middle_piece, right_piece, pieces,
}
use nanos.RegionMap.Placed.{fragment_by_intersection-pieces}

module _ {A : Type 0} (d : A → A) (r : DataAccessRegion) where
  -- The node in pieces if the region overlaps it.
  abbrev pub cut : Node A → List (Node A)
  cut n = if overlaps r n then pieces d false r n else n ∷ []

  abbrev pub cut_all : List (Node A) → List (Node A)
  cut_all [] = []
  cut_all (n ∷ rest) = cut n ++ cut_all rest

  AllBelow-cut :
      (n : Node A) → 0 < r.length → 0 < n.region.length → AllBelow (end_address n.region) (cut n)
  unfolding end_address from_bounds
  AllBelow-cut n z l = elim (Bool-cases (overlaps r n)) [
    | inr apart ↦ rw apart (omega (arith, l), tt)
    | inl shares ↦ rw shares (
        AllBelow-append (end_address n.region) (left_piece d r n)
          (middle_piece false r n ++ right_piece d r n) left ((ground (arith, shares, l), right)))
  ]
    where
      left : AllBelow (end_address n.region) (left_piece d r n)
      left = elim (Bool-cases (ltb (start_of n) r.start_address)) [
        | inl less ↦ rw less (omega (arith, l), tt)
        | inr not_less ↦ rw not_less tt
      ]

      right : AllBelow (end_address n.region) (right_piece d r n)
      right = elim (Bool-cases (ltb (end_address r) (end_address n.region))) [
        | inl more ↦ rw more (ground (arith, more), tt)
        | inr not_more ↦ rw not_more tt
      ]

  fragment_each-cut :
      (before : List (Node A)) (n : Node A) (rest : List (Node A))
      → 0 < r.length
      → 0 < n.region.length
      → AllBelow (start_of n) before
      → Disjoint (end_address n.region) rest
      → fragment_each d r (overlapping r (n ∷ rest)) (before ++ n ∷ rest)
        ≡ fragment_each d r (overlapping r rest) ((before ++ cut n) ++ rest)
  fragment_each-cut before n rest z l b k = elim (Bool-cases (overlaps r n)) [
    | inl shares ↦ rw shares (
        ap (fragment_each d r (overlapping r rest)) (
          fragment_by_intersection-pieces d false r n before rest shares z l b k
          ∙ sym (append_assoc before (pieces d false r n) rest)))
    | inr apart ↦
        rw apart
          (ap (fragment_each d r (overlapping r rest)) (sym (append_assoc before (n ∷ []) rest)))
  ]

  fragment_each-cut_all :
      (from : ℕ) (before nodes : List (Node A))
      → 0 < r.length
      → AllBelow from before
      → Disjoint from nodes
      → fragment_each d r (overlapping r nodes) (before ++ nodes) ≡ before ++ cut_all nodes
  unfolding end_address
  fragment_each-cut_all from before [] z b k = refl
  fragment_each-cut_all from before (n ∷ rest) z b (h, l, f, k) =
      let to = end_address n.region in
      fragment_each-cut before n rest z l (AllBelow-weaken from (start_of n) before h b) k
      ∙ fragment_each-cut_all to (before ++ cut n) rest z
          (AllBelow-append to before (cut n) (AllBelow-weaken from to before (later n h) b)
            (AllBelow-cut n z l))
          k
      ∙ append_assoc before (cut n) (cut_all rest)
    where
      later : {from : ℕ} (n : Node A) → from ≤ start_of n → from ≤ end_address n.region
      later n h = omega (arith, h)

  pub fragment_intersecting-cut_all :
      (nodes : List (Node A))
      → 0 < r.length
      → Fits r
      → Disjoint 0 nodes
      → fragment_intersecting d r nodes ≡ cut_all nodes
  unfolding fragment_intersecting
  fragment_intersecting-cut_all nodes z g k =
      ap (λ visited. fragment_each d r visited nodes) (intersecting_nodes-overlapping r nodes z g k)
      ∙ fragment_each-cut_all 0 [] nodes z tt k

  -- Every node lies in the region or shares no byte with it.
  abbrev pub IsCut : List (Node A) → Type 0
  IsCut [] = Unit
  IsCut (n ∷ rest) =
      ((overlaps r n ≡ false)
        ⊎ ((r.start_address ≤ start_of n) × (end_address n.region ≤ end_address r)))
      × IsCut rest

  IsCut-append : (xs ys : List (Node A)) → IsCut xs → IsCut ys → IsCut (xs ++ ys)
  IsCut-append [] ys c e = e
  IsCut-append (n ∷ xs) ys (h, c) e = (h, IsCut-append xs ys c e)

  IsCut-pieces :
      (n : Node A)
      → 0 < r.length
      → Fits r
      → Fits n.region
      → overlaps r n ≡ true
      → IsCut (pieces d false r n)
  unfolding end_address from_bounds
  IsCut-pieces n z g f o =
      IsCut-append (left_piece d r n) (middle_piece false r n ++ right_piece d r n) left
        (inr (ground arith, ground (arith, o, f, g)), right)
    where
      left : IsCut (left_piece d r n)
      left = elim (Bool-cases (ltb (start_of n) r.start_address)) [
        | inl less ↦ rw less (inl (ground (arith, less, f, g)), tt)
        | inr not_less ↦ rw not_less tt
      ]

      right : IsCut (right_piece d r n)
      right = elim (Bool-cases (ltb (end_address r) (end_address n.region))) [
        | inl more ↦ rw more (inl (ground (arith, more, f, g)), tt)
        | inr not_more ↦ rw not_more tt
      ]

  pub IsCut-cut_all :
      (from : ℕ) (nodes : List (Node A))
      → 0 < r.length
      → Fits r
      → Disjoint from nodes
      → IsCut (cut_all nodes)
  IsCut-cut_all from [] z g k = tt
  IsCut-cut_all from (n ∷ rest) z g (b, l, f, k) =
      IsCut-append (cut n) (cut_all rest)
        (elim (Bool-cases (overlaps r n)) [
          | inl shares ↦ rw shares (IsCut-pieces n z g f shares)
          | inr apart ↦ rw apart (inl apart, tt)
        ])
        (IsCut-cut_all (end_address n.region) rest z g k)
