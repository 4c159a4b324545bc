-- ===== src/RegionMap/Traversal.antt =====
-- What the traversals of a map call their processors with.
use nanos.Common.{
  ℕ, ◌≤◌, ◌<◌, ◌≡◌, refl, sym, ◌∙◌, ap, Bool, Bool-cases, false, ◌&&◌, not, Option, none, some,
  List, [], ◌∷◌, inl, inr, ltb, if◌then◌else◌, arith,
}
use nanos.Region.{DataAccessRegion, end_address, intersect, is_empty}
use nanos.Region.Bytes.{Fits}
use nanos.RegionMap.{Node, start_of, step_back, seek, scan, intersecting_nodes}

module _ {A : Type 0} where
  -- The nodes have bytes, follow one another from an address on, and end below 2 ^ 64.
  abbrev pub Disjoint : ℕ → List (Node A) → Type 0
  Disjoint from [] = Unit
  Disjoint from (n ∷ rest) =
      (from ≤ start_of n)
      × (0 < n.region.length)
      × Fits n.region
      × Disjoint (end_address n.region) rest

  abbrev pub overlaps : DataAccessRegion → Node A → Bool
  overlaps r n = ltb (start_of n) (end_address r) && ltb r.start_address (end_address n.region)

  -- The nodes that share a byte with a region, in their order.
  abbrev pub overlapping : DataAccessRegion → List (Node A) → List (Node A)
  overlapping r [] = []
  overlapping r (n ∷ rest) =
      let later = overlapping r rest in if overlaps r n then n ∷ later else later

  -- Behind a region no node overlaps it.
  pub overlapping-behind :
      (r : DataAccessRegion) (from : ℕ) (nodes : List (Node A))
      → end_address r ≤ from
      → Disjoint from nodes
      → overlapping r nodes ≡ []
  unfolding end_address
  overlapping-behind r from [] h d = refl
  overlapping-behind r from (n ∷ rest) h (b, l, f, d) =
      rw (behind n (omega (arith, h, b)))
        (overlapping-behind r (end_address n.region) rest (omega (arith, h, b)) d)
    where
      behind : (n : Node A) → end_address r ≤ start_of n → overlaps r n ≡ false
      behind n h = ground arith

  -- The test of the code for an overlap.
  is_empty-intersect :
      (r : DataAccessRegion) (n : Node A)
      → 0 < r.length
      → 0 < n.region.length
      → Fits r
      → Fits n.region
      → is_empty (intersect r n.region) ≡ not (overlaps r n)
  unfolding is_empty intersect
  is_empty-intersect r n z l g f = ground arith

  scan-overlapping :
      (r : DataAccessRegion) (from : ℕ) (nodes : List (Node A))
      → 0 < r.length
      → Fits r
      → Disjoint from nodes
      → scan r nodes ≡ overlapping r nodes
  unfolding scan end_address
  scan-overlapping r from [] z g d = refl
  scan-overlapping r from (n ∷ rest) z g (b, l, f, d) =
      let same = scan-overlapping r (end_address n.region) rest z g d in
      let behind : end_address r ≤ end_address n.region → overlapping r rest ≡ [] =
        λ h. overlapping-behind r (end_address n.region) rest h d in
      ground (arith, is_empty-intersect r n z l g f, same, behind)

  -- The node before a position neither overlaps a region that starts there or later, nor matters.
  overlapping-step_back :
      (r : DataAccessRegion) (previous : Option (Node A)) (from : ℕ) (n : Node A)
      (rest : List (Node A))
      → start_of n ≤ r.start_address
      → Disjoint from (step_back previous (n ∷ rest))
      → overlapping r (step_back previous (n ∷ rest)) ≡ overlapping r (n ∷ rest)
  overlapping-step_back r none from n rest h d = refl
  overlapping-step_back r (some p) from n rest h (b, l, f, (b', l', f', d)) =
      ap (λ o. if o then p ∷ overlapping r (n ∷ rest) else overlapping r (n ∷ rest)) apart
    where
      apart : overlaps r p ≡ false
      apart = ground (arith, b', h)

  pub Disjoint-step_back :
      (previous : Option (Node A)) (from : ℕ) (n : Node A) (rest : List (Node A))
      → Disjoint from (step_back previous (n ∷ rest))
      → (lower : ℕ) × Disjoint lower (n ∷ rest)
  Disjoint-step_back none from n rest d = (from, d)
  Disjoint-step_back (some p) from n rest (b, l, f, d) = (end_address p.region, d)

  scan-seek :
      (r : DataAccessRegion) (previous : Option (Node A)) (from : ℕ) (nodes : List (Node A))
      → 0 < r.length
      → Fits r
      → Disjoint from (step_back previous nodes)
      → scan r (seek previous r.start_address nodes) ≡ overlapping r (step_back previous nodes)
  unfolding seek
  scan-seek r previous from [] z g d = scan-overlapping r from (step_back previous []) z g d
  scan-seek r previous from (n ∷ rest) z g d =
      let (lower, d') = Disjoint-step_back previous from n rest d in
      elim (Bool-cases (ltb (start_of n) r.start_address)) [
        | inl less ↦ rw less (
            scan-seek r (some n) lower rest z g d'
            ∙ sym (overlapping-step_back r previous from n rest (ground (arith, less)) d))
        | inr not_less ↦ elim (Bool-cases (ltb r.start_address (start_of n))) [
          | inl more ↦
              rw (not_less, more) (scan-overlapping r from (step_back previous (n ∷ rest)) z g d)
          | inr not_more ↦
              rw (not_less, not_more)
                (scan-overlapping r lower (n ∷ rest) z g d'
                  ∙ sym (overlapping-step_back r previous from n rest (ground (arith, not_more)) d))
        ]
      ]

-- `processIntersecting` calls its processor with exactly the nodes that share a byte with the region,
-- each once and in order.
pub intersecting_nodes-overlapping :
    {A : Type 0} (r : DataAccessRegion) (nodes : List (Node A))
    → 0 < r.length
    → Fits r
    → Disjoint 0 nodes
    → intersecting_nodes r nodes ≡ overlapping r nodes
unfolding intersecting_nodes
intersecting_nodes-overlapping r nodes z g d = scan-seek r none 0 nodes z g d
