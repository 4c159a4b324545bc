-- ===== src/RegionMap/Refinement.antt =====
-- Seen as a function of bytes, a map does not change when its nodes are fragmented.
use nanos.Common.{
  ℕ, ◌≤◌, ◌<◌, ◌≡◌, refl, ◌∙◌, ap, Bool-cases, Option, none, some, List, [], ◌∷◌, ◌++◌, inl, inr,
  ltb, min, if◌then◌else◌, arith,
}
use nanos.Region.{DataAccessRegion, from_bounds, end_address}
use nanos.Region.Bytes.{Fits}
use nanos.Region.Fragments.{contains}
use nanos.RegionMap.{Node, start_of, fragment_intersecting}
use nanos.RegionMap.Traversal.{Disjoint, overlaps}
use nanos.RegionMap.Pieces.{right_piece}
use nanos.RegionMap.Fragmentation.{
  cut, cut_all, IsCut, IsCut-cut_all, fragment_intersecting-cut_all,
}

module _ {A : Type 0} where
  Disjoint-weaken :
      (from lower : ℕ) (nodes : List (Node A))
      → lower ≤ from
      → Disjoint from nodes
      → Disjoint lower nodes
  Disjoint-weaken from lower [] h k = tt
  Disjoint-weaken from lower (n ∷ rest) h (b, l, f, k) = (omega (arith, b, h), l, f, k)

module _ {A : Type 0} (d : A → A) (r : DataAccessRegion) where
  Disjoint-right :
      (n : Node A) (rest : List (Node A))
      → Fits n.region
      → Disjoint (end_address n.region) rest
      → Disjoint (min (end_address n.region) (end_address r)) (right_piece d r n ++ rest)
  unfolding end_address from_bounds
  Disjoint-right n rest f k = elim (Bool-cases (ltb (end_address r) (end_address n.region))) [
    | inl more ↦ rw more (
      omega arith,
      ground (arith, more, f),
      ground (arith, more, f),
      Disjoint-weaken (end_address n.region) _ rest (ground (arith, more, f)) k,
    )
    | inr not_more ↦ rw not_more (Disjoint-weaken (end_address n.region) _ rest (omega arith) k)
  ]

  Disjoint-cut :
      (from : ℕ) (n : Node A) (rest : List (Node A))
      → 0 < r.length
      → Fits r
      → from ≤ start_of n
      → 0 < n.region.length
      → Fits n.region
      → Disjoint (end_address n.region) rest
      → Disjoint from (cut d r n ++ rest)
  unfolding end_address from_bounds
  Disjoint-cut from n rest z g b l f k = elim (Bool-cases (overlaps r n)) [
    | inr apart ↦ rw apart (b, l, f, k)
    | inl shares ↦ rw shares (
        let right = Disjoint-right n rest f k in
        elim (Bool-cases (ltb (start_of n) r.start_address)) [
          | inl less ↦ rw less (
            b,
            ground (arith, less, f, g, shares),
            ground (arith, less, f, g, shares),
            (
              ground (arith, less, f, g, shares),
              ground (arith, shares, f, g, z, l),
              ground (arith, shares, f, g, z, l),
              Disjoint-weaken (min (end_address n.region) (end_address r)) _
                  (right_piece d r n ++ rest) (ground (arith, shares, f, g, z, l)) right,
            ),
          )
          | inr not_less ↦ rw not_less (
            ground (arith, not_less, b),
            ground (arith, shares, f, g, z, l),
            ground (arith, shares, f, g, z, l),
            Disjoint-weaken (min (end_address n.region) (end_address r)) _
                (right_piece d r n ++ rest) (ground (arith, shares, f, g, z, l)) right,
          )
        ])
  ]

module _ {A B : Type 0} (view : A → B) where
  -- What a map says of a byte.
  abbrev pub lookup : List (Node A) → ℕ → Option B
  lookup [] a = none
  lookup (n ∷ rest) a =
      let later = lookup rest a in if contains n.region a then some (view n.contents) else later

  lookup-cut :
      (d : A → A) (r : DataAccessRegion) (n : Node A) (rest : List (Node A)) (a : ℕ)
      → ((c : A) → view (d c) ≡ view c)
      → 0 < r.length
      → Fits r
      → 0 < n.region.length
      → Fits n.region
      → lookup (cut d r n ++ rest) a ≡ lookup (n ∷ rest) a
  unfolding end_address from_bounds
  lookup-cut d r n rest a v z g l f = elim (Bool-cases (overlaps r n)) [
    | inr apart ↦ rw apart refl
    | inl shares ↦ rw shares (elim (Bool-cases (ltb (start_of n) r.start_address)) [
      | inl less ↦ elim (Bool-cases (ltb (end_address r) (end_address n.region))) [
        | inl more ↦ rw (less, more) (ground (arith, v n.contents, less, more, f, g, z, l))
        | inr not_more ↦
            rw (less, not_more) (ground (arith, v n.contents, less, not_more, shares, f, g, z, l))
      ]
      | inr not_less ↦ elim (Bool-cases (ltb (end_address r) (end_address n.region))) [
        | inl more ↦
            rw (not_less, more) (ground (arith, v n.contents, not_less, more, shares, f, g, z, l))
        | inr not_more ↦
            rw (not_less, not_more)
              (ground (arith, v n.contents, not_less, not_more, shares, f, g, z, l))
      ]
    ])
  ]

  lookup-cut_all :
      (d : A → A) (r : DataAccessRegion) (from : ℕ) (nodes : List (Node A)) (a : ℕ)
      → ((c : A) → view (d c) ≡ view c)
      → 0 < r.length
      → Fits r
      → Disjoint from nodes
      → lookup (cut_all d r nodes) a ≡ lookup nodes a
  lookup-cut_all d r from [] a v z g k = refl
  lookup-cut_all d r from (n ∷ rest) a v z g (b, l, f, k) =
      lookup-cut d r n (cut_all d r rest) a v z g l f
      ∙ ap (λ o. if contains n.region a then some (view n.contents) else o)
          (lookup-cut_all d r (end_address n.region) rest a v z g k)

Disjoint-cut_all :
    {A : Type 0} (d : A → A) (r : DataAccessRegion) (from : ℕ) (nodes : List (Node A))
    → 0 < r.length
    → Fits r
    → Disjoint from nodes
    → Disjoint from (cut_all d r nodes)
Disjoint-cut_all d r from [] z g k = tt
Disjoint-cut_all d r from (n ∷ rest) z g (b, l, f, k) =
    Disjoint-cut d r from n (cut_all d r rest) z g b l f
      (Disjoint-cut_all d r (end_address n.region) rest z g k)

-- Fragmenting a map of disjoint nodes by a region: every byte keeps what the map says of it, if
-- a duplicate says what its original says; the nodes are disjoint and in order; and each of them lies
-- in the region or shares no byte with it.
pub fragment_intersecting-refines :
    {A B : Type 0} (view : A → B) (d : A → A) (r : DataAccessRegion) (nodes : List (Node A)) (a : ℕ)
    → ((c : A) → view (d c) ≡ view c)
    → 0 < r.length
    → Fits r
    → Disjoint 0 nodes
    → (lookup view (fragment_intersecting d r nodes) a ≡ lookup view nodes a)
      × Disjoint 0 (fragment_intersecting d r nodes)
      × IsCut d r (fragment_intersecting d r nodes)
fragment_intersecting-refines view d r nodes a v z g k =
    rw (fragment_intersecting-cut_all d r nodes z g k) (
      lookup-cut_all view d r 0 nodes a v z g k,
      Disjoint-cut_all d r 0 nodes z g k,
      IsCut-cut_all d r 0 nodes z g k,
    )
