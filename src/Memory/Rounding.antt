-- ===== src/Memory/Rounding.antt =====
-- What rounding up to the page size gives.
use nanos.Common.{ℕ, ◌+◌, ◌%◌, ◌^◌, ◌≤◌, ◌<◌, ◌≡◌, arith}
use native.Mathlib.Nat.{add-mod}
use nanos.Memory.{round_up}

-- Without overflow, the least multiple of the page size that is not below the size.
pub round_up_bounds :
    (size page : ℕ)
    → 0 < page
    → size + page ≤ 2 ^ 64
    → (size ≤ round_up size page) × (round_up size page < size + page)
unfolding round_up
round_up_bounds size page p h = grind arith

pub round_up_multiple : (size page : ℕ) → 0 < page → round_up size page % page ≡ 0
unfolding round_up
round_up_multiple size page p = grind arith

pub multiple_add : (a b page : ℕ) → 0 < page → a % page ≡ 0 → b % page ≡ 0 → (a + b) % page ≡ 0
multiple_add a b page p ha hb = rw (add-mod a b page, ha, hb) (grind arith)

-- A size within one page of 2 ^ 64 is rounded to nothing.
pub round_up_overflow :
    (size page : ℕ) → size < 2 ^ 64 → 2 ^ 64 < size + page → page ≤ 2 ^ 64 → round_up size page ≡ 0
unfolding round_up
round_up_overflow size page h k l = grind arith
