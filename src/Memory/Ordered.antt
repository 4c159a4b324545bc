-- ===== src/Memory/Ordered.antt =====
-- The areas of the NUMA nodes lie one after the other, whatever has been allocated from them.
use native.Mathlib.Nat.{mul-mod_left, mod_self}
use nanos.Common.{
  ℕ, zero, suc, ◌+◌, ◌-◌, ◌*◌, ◌%◌, ◌^◌, ◌≤◌, ◌<◌, ◌≡◌, refl, sym, ◌∙◌, ap, subst, inl, inr, Option,
  Option-cases, none, some, List, [], ◌∷◌, length, arith, if◌then◌else◌, ltb,
}
use nanos.Memory.{VirtualMemoryArea, new_area, alloc_block, includes_address}
use nanos.Memory.Rounding.{multiple_add}
use nanos.Memory.Blocks.{Sound, alloc_block-Sound, alloc_block-some, alloc_block-kept}
use nanos.Memory.Cluster.{layout_areas, alloc_at, keep_first, find_in}
use nanos.Memory.Tiles.{Tiles}

abbrev pub Ordered : (page from to : ℕ) → List VirtualMemoryArea → Type 0
Ordered page from to [] = from ≤ to
Ordered page from to (area ∷ areas) =
    (from ≤ area.start) × Sound page area × Ordered page area.end to areas

-- Nothing has been allocated from an area.
abbrev pub IsFresh : List VirtualMemoryArea → Type 0
IsFresh [] = Unit
IsFresh (area ∷ areas) =
    (area.next_free ≡ area.start) × (area.available ≡ area.size) × IsFresh areas

layout_areas-IsFresh :
    (page pages nodes extra address : ℕ) → IsFresh (layout_areas page pages nodes extra address)
unfolding layout_areas new_area
layout_areas-IsFresh page pages zero extra address = tt
layout_areas-IsFresh page pages (suc nodes) extra address = (
  refl,
  refl,
  layout_areas-IsFresh page pages nodes (extra - 1)
      (address + (if ltb 0 extra then pages * page + page else pages * page)),
)

Tiles-Ordered :
    (page pages from to : ℕ) (areas : List VirtualMemoryArea)
    → 0 < page
    → from % page ≡ 0
    → Tiles page pages from to areas
    → IsFresh areas
    → Ordered page from to areas
Tiles-Ordered page pages from to [] p m t f = omega (arith, t)
Tiles-Ordered page pages from to (area ∷ areas) p m (s, e, z, t) (n, a, f) = (
  omega (arith, s),
  record {
    accounted = omega (arith, n, a, s, e);
    aligned = subst (λ k. k % page ≡ 0) (sym (n ∙ s)) m;
    after_start = omega (arith, n);
  },
  Tiles-Ordered page pages area.end to areas p ending t f,
)
  where
    whole : area.size % page ≡ 0
    whole = elim z [
      | inl one ↦ rw one (mul-mod_left pages page)
      | inr more ↦
          rw more
            (multiple_add (pages * page) page page p (mul-mod_left pages page) (mod_self page))
    ]

    ending : area.end % page ≡ 0
    ending = subst (λ k. k % page ≡ 0) (sym e) (multiple_add from area.size page p m whole)

pub layout_areas-Ordered :
    (page pages nodes extra address to : ℕ)
    → 0 < page
    → address % page ≡ 0
    → Tiles page pages address to (layout_areas page pages nodes extra address)
    → Ordered page address to (layout_areas page pages nodes extra address)
layout_areas-Ordered page pages nodes extra address to p m t =
    Tiles-Ordered page pages address to (layout_areas page pages nodes extra address) p m t
      (layout_areas-IsFresh page pages nodes extra address)

-- A predicate of what a call gives, if it does not fail.
abbrev pub Holds {ℓ} : {A : Type ℓ} → (A → Type 0) → Option A → Type 0
Holds P none = Unit
Holds P (some a) = P a

Holds-keep_first :
    (P Q : List VirtualMemoryArea × Option ℕ → Type 0) (area : VirtualMemoryArea)
    (o : Option (List VirtualMemoryArea × Option ℕ))
    → ((r : List VirtualMemoryArea × Option ℕ) → P r → Q (area ∷ r.0, r.1))
    → Holds P o
    → Holds Q (keep_first area o)
Holds-keep_first P Q area none f h = tt
Holds-keep_first P Q area (some r) f h = f r h

module _ (page : ℕ) (positive : 0 < page) (size : ℕ) where
  pub alloc_at-Ordered :
      (i from to : ℕ) (areas : List VirtualMemoryArea)
      → Ordered page from to areas
      → Holds (λ r. Ordered page from to r.0) (alloc_at page size i areas)
  unfolding alloc_at
  alloc_at-Ordered i from to [] o = tt
  alloc_at-Ordered zero from to (area ∷ areas) (b, s, o) =
      let (end, start, later) = alloc_block-kept page size area in
      (
        omega (arith, b, start),
        alloc_block-Sound page positive size area s,
        subst (λ e. Ordered page e to areas) (sym end) o,
      )
  alloc_at-Ordered (suc i) from to (area ∷ areas) (b, s, o) =
      Holds-keep_first (λ r. Ordered page area.end to r.0) (λ r. Ordered page from to r.0) area
        (alloc_at page size i areas) (λ r k. (b, s, k)) (alloc_at-Ordered i area.end to areas o)

  pub length-alloc_at :
      (i : ℕ) (areas : List VirtualMemoryArea)
      → Holds (λ r. length r.0 ≡ length areas) (alloc_at page size i areas)
  unfolding alloc_at
  length-alloc_at i [] = tt
  length-alloc_at zero (area ∷ areas) = refl
  length-alloc_at (suc i) (area ∷ areas) =
      Holds-keep_first (λ r. length r.0 ≡ length areas) (λ r. length r.0 ≡ length (area ∷ areas))
        area (alloc_at page size i areas) (λ r. ap suc) (length-alloc_at i areas)

  -- The block lies in the areas, and the area that includes it is the one that it comes from.
  abbrev pub Found : ℕ → ℕ → ℕ → List VirtualMemoryArea × Option ℕ → Type 0
  Found i from to (areas, none) = Unit
  Found i from to (areas, some address) =
      (from ≤ address) × (address + size ≤ to) × (find_in address areas ≡ i)

  pub Ordered-le :
      (from to : ℕ) (areas : List VirtualMemoryArea) → Ordered page from to areas → from ≤ to
  Ordered-le from to [] o = o
  Ordered-le from to (area ∷ areas) (b, s, o) =
      omega (arith, b, s.after_start, s.accounted, Ordered-le area.end to areas o)

  included :
      (address : ℕ) (area : VirtualMemoryArea) (areas : List VirtualMemoryArea)
      → area.start ≤ address
      → address < area.end
      → find_in address (area ∷ areas) ≡ 0
  unfolding find_in includes_address
  included address area areas h k = ground arith

  pub not_included :
      (address : ℕ) (area : VirtualMemoryArea) (areas : List VirtualMemoryArea)
      → area.end ≤ address
      → find_in address (area ∷ areas) ≡ suc (find_in address areas)
  unfolding find_in includes_address
  not_included address area areas h = ground arith

  pub alloc_at-Found :
      (i from to : ℕ) (areas : List VirtualMemoryArea)
      → 0 < size
      → size + page ≤ 2 ^ 64
      → Ordered page from to areas
      → Holds (Found i from to) (alloc_at page size i areas)
  unfolding alloc_at
  alloc_at-Found i from to [] z f o = tt
  alloc_at-Found zero from to (area ∷ areas) z f (b, s, o) =
      elim (Option-cases (alloc_block page size area).1) [
        | inl full ↦ rw full tt
        | inr (address, e) ↦
            let (at, upto, below) = alloc_block-some page positive size area address f s e in
            let (end, start, later) = alloc_block-kept page size area in
            rw e (
              omega (arith, at, b, s.after_start),
              omega (arith, below, Ordered-le area.end to areas o),
              included address (alloc_block page size area).0 areas
                  (omega (arith, at, start, s.after_start)) (omega (arith, below, end, z)),
            )
      ]
  alloc_at-Found (suc i) from to (area ∷ areas) z f (b, s, o) =
      Holds-keep_first (Found i area.end to) (Found (suc i) from to) area
        (alloc_at page size i areas)
        (λ r. further i from to area r (omega (arith, b, s.after_start, s.accounted)))
        (alloc_at-Found i area.end to areas z f o)
    where
      further :
          (i from to : ℕ) (area : VirtualMemoryArea) (r : List VirtualMemoryArea × Option ℕ)
          → from ≤ area.end
          → Found i area.end to r
          → Found (suc i) from to (area ∷ r.0, r.1)
      further i from to area (areas, none) h k = tt
      further i from to area (areas, some address) h (l, u, e) =
          (omega (arith, h, l), u, not_included address area areas l ∙ ap suc e)
