-- ===== src/RegionMap/Insertion.antt =====
-- What is inserted into a map is found there, and nothing else changes.
use nanos.Common.{
  ℕ, ◌≤◌, ◌<◌, ◌≡◌, refl, sym, ◌∙◌, ap, Bool-cases, true, false, some, List, [], ◌∷◌, ◌==◌, inl,
  inr, ltb, if◌then◌else◌, arith,
}
use nanos.Region.{DataAccessRegion, end_address}
use nanos.Region.Bytes.{Fits}
use nanos.Region.Fragments.{contains}
use nanos.RegionMap.{Node, start_of, insert, contains_any, any_of}
use nanos.RegionMap.Traversal.{Disjoint, overlaps, overlapping, intersecting_nodes-overlapping}
use nanos.RegionMap.Refinement.{lookup}

module _ {A : Type 0} where
  -- No node overlaps the region.
  abbrev pub AllApart : DataAccessRegion → List (Node A) → Type 0
  AllApart r [] = Unit
  AllApart r (n ∷ rest) = (overlaps r n ≡ false) × AllApart r rest

  AllApart-overlapping :
      (r : DataAccessRegion) (nodes : List (Node A))
      → any_of (λ n. true) (overlapping r nodes) ≡ false
      → AllApart r nodes
  AllApart-overlapping r [] = λ e. tt
  AllApart-overlapping r (n ∷ rest) = elim (Bool-cases (overlaps r n)) [
    | inl overlap ↦ rw overlap (λ e. ground (arith, e))
    | inr apart ↦ rw apart (λ e. (refl, AllApart-overlapping r rest e))
  ]

  pub insert-Disjoint :
      (m : Node A) (from : ℕ) (nodes : List (Node A))
      → from ≤ start_of m
      → 0 < m.region.length
      → Fits m.region
      → AllApart m.region nodes
      → Disjoint from nodes
      → Disjoint from (insert m nodes)
  unfolding insert end_address
  insert-Disjoint m from [] h z g p k = (h, z, g, tt)
  insert-Disjoint m from (n ∷ rest) h z g (o, p) (b, l, f, k) =
      elim (Bool-cases (ltb (start_of m) (start_of n))) [
        | inl less ↦ rw less (h, z, g, (ground (arith, o, less, l), l, f, k))
        | inr not_less ↦
            rw (not_less, other not_less)
              (
                b,
                l,
                f,
                insert-Disjoint m (end_address n.region) rest (ground (arith, o, not_less, z)) z g p
                    k,
              )
      ]
    where
      other : ltb (start_of m) (start_of n) ≡ false → (start_of m == start_of n) ≡ false
      other not_less = ground (arith, o, z, l)

module _ {A B : Type 0} (view : A → B) where
  pub lookup-insert_apart :
      (m : Node A) (nodes : List (Node A)) (from a : ℕ)
      → 0 < m.region.length
      → AllApart m.region nodes
      → Disjoint from nodes
      → lookup view (insert m nodes) a
        ≡ (if contains m.region a then some (view m.contents) else lookup view nodes a)
  unfolding insert end_address
  lookup-insert_apart m [] from a z p k = refl
  lookup-insert_apart m (n ∷ rest) from a z (o, p) (b, l, f, k) =
      elim (Bool-cases (ltb (start_of m) (start_of n))) [
        | inl less ↦ rw less refl
        | inr not_less ↦
            rw (not_less, other not_less)
              (ap (λ later. if contains n.region a then some (view n.contents) else later)
                  (lookup-insert_apart m rest (end_address n.region) a z p k)
                ∙ ground (arith, o))
      ]
    where
      other : ltb (start_of m) (start_of n) ≡ false → (start_of m == start_of n) ≡ false
      other not_less = ground (arith, o, z, l)

-- A node whose region the map does not contain any part of is found, after its insertion, at each of its
-- bytes; the other bytes keep what the map says of them; and the nodes stay disjoint and in order.
pub lookup-insert :
    {A B : Type 0} (view : A → B) (m : Node A) (nodes : List (Node A)) (a : ℕ)
    → 0 < m.region.length
    → Fits m.region
    → Disjoint 0 nodes
    → contains_any m.region nodes ≡ false
    → (lookup view (insert m nodes) a
        ≡ (if contains m.region a then some (view m.contents) else lookup view nodes a))
      × Disjoint 0 (insert m nodes)
unfolding contains_any
lookup-insert view m nodes a z g k e =
    let apart =
      AllApart-overlapping m.region nodes
        (ap (any_of (λ n. true)) (sym (intersecting_nodes-overlapping m.region nodes z g k)) ∙ e) in
    (
      lookup-insert_apart view m nodes 0 a z apart k,
      insert-Disjoint m 0 nodes (omega arith) z g apart k,
    )
