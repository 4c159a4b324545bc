-- ===== src/Region/Bytes.antt =====
-- The operations on regions as operations on sets of bytes.
use nanos.Common.{ℕ, ◌+◌, ◌-◌, max, ◌^◌, ◌≤◌, ◌<◌, ◌≡◌, ◌↔◌, ◌⊎◌, true, arith}
use nanos.Region.{
  DataAccessRegion, is_empty, intersect, contiguous, contiguous_union, fully_contained_in,
}

-- The byte at `a` belongs to the region.
abbrev pub Contains : DataAccessRegion → ℕ → Type 0
Contains r a = (r.start_address ≤ a) × (a < r.start_address + r.length)

-- The region lies in the address space.
abbrev pub Fits : DataAccessRegion → Type 0
Fits r = r.start_address + r.length < 2 ^ 64

-- The intersection has the bytes that both regions have, and it is the empty region exactly if there
-- are none.
pub Contains-intersect :
    (r s : DataAccessRegion)
    → Fits r
    → Fits s
    → ((a : ℕ) → Contains (intersect r s) a ↔ (Contains r a × Contains s a))
      × ((is_empty (intersect r s) ≡ true) ↔ ((a : ℕ) → Contains r a → Contains s a → ⊥))
unfolding intersect is_empty
Contains-intersect r s f g = (
  λ a. (λ h. ground arith, λ h. ground arith),
  (λ e a h k. ground arith, λ h. ground (arith, h (max r.start_address s.start_address))),
)

-- Two contiguous regions that do not overlap have the bytes of their union between them.
pub Contains-contiguous_union :
    (r s : DataAccessRegion)
    → Fits r
    → Fits s
    → contiguous r s ≡ true
    → (a : ℕ) → Contains (contiguous_union r s) a ↔ (Contains r a ⊎ Contains s a)
unfolding contiguous contiguous_union
Contains-contiguous_union r s f g c a = (λ h. ground arith, λ h. ground arith)

-- The test for containment decides it for a region that has a byte.
pub Contains-fully_contained_in :
    (r s : DataAccessRegion)
    → Fits r
    → Fits s
    → 0 < r.length
    → (fully_contained_in r s ≡ true) ↔ ((a : ℕ) → Contains r a → Contains s a)
unfolding fully_contained_in
Contains-fully_contained_in r s f g p = (
  λ e a h. ground arith,
  λ h. ground (arith, h r.start_address, h (r.start_address + r.length - 1)),
)
