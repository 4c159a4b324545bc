-- ===== src/Region.antt =====
-- Regions of memory: src/dependencies/linear-regions/DataAccessRegion.hpp. An address is a number; a
-- difference of addresses is cast to a 64-bit `size_t`.
pub mod Bytes
pub mod Fragments
mod Examples
use nanos.Common.{
  ℕ, ◌+◌, ◌-◌, ◌%◌, ◌^◌, min, max, Bool, true, false, ◌&&◌, ◌||◌, not, ◌==◌, ltb, if◌then◌else◌,
}

pub record DataAccessRegion : Type 0 where
  pub start_address : ℕ
  pub length : ℕ

-- The constructor from two addresses.
unfoldable pub from_bounds : ℕ → ℕ → DataAccessRegion
from_bounds start end = record { start_address = start; length = (end + 2 ^ 64 - start) % 2 ^ 64 }

-- The constructor with no argument.
abbrev pub empty_region : DataAccessRegion
empty_region = record { start_address = 0; length = 0 }

unfoldable pub is_empty : DataAccessRegion → Bool
is_empty r = r.start_address == 0 && r.length == 0

unfoldable pub region_eq : DataAccessRegion → DataAccessRegion → Bool
region_eq r s = r.start_address == s.start_address && r.length == s.length

unfoldable pub end_address : DataAccessRegion → ℕ
end_address r = r.start_address + r.length

unfoldable pub intersect : DataAccessRegion → DataAccessRegion → DataAccessRegion
unfolding end_address from_bounds
intersect r s =
    let start = max r.start_address s.start_address in
    let end = min (end_address r) (end_address s) in
    if ltb start end then from_bounds start end else empty_region

unfoldable pub contiguous : DataAccessRegion → DataAccessRegion → Bool
unfolding end_address
contiguous r s = r.start_address == end_address s || end_address r == s.start_address

unfoldable pub contiguous_union : DataAccessRegion → DataAccessRegion → DataAccessRegion
unfolding end_address from_bounds
contiguous_union r s =
    from_bounds (min r.start_address s.start_address) (max (end_address r) (end_address s))

unfoldable pub fully_contained_in : DataAccessRegion → DataAccessRegion → Bool
unfolding intersect region_eq
fully_contained_in r s = region_eq (intersect r s) r
