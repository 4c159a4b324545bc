-- ===== src/Memory/Blocks.antt =====
-- The blocks of one area.
use nanos.Common.{
  ℕ, ◌+◌, ◌%◌, ◌^◌, ◌≤◌, ◌<◌, ◌≡◌, Option, none, some, List, [], ◌∷◌, arith, refl, sym, subst,
  Option-cases, inl, inr, true, false, ◌-◌,
}
use nanos.Memory.{
  VirtualMemoryArea, new_area, alloc_block, round_up, includes_range, includes_address,
}
use nanos.Memory.Rounding.{round_up_bounds, round_up_multiple, multiple_add, round_up_overflow}

-- A block that has been returned, with the size that was asked for.
abbrev pub add_block : Option ℕ → ℕ → List (ℕ × ℕ) → List (ℕ × ℕ)
add_block none size blocks = blocks
add_block (some address) size blocks = (address, size) ∷ blocks

-- One call of `allocBlock` for each size, and the blocks that they return.
abbrev pub alloc_all : ℕ → List ℕ → VirtualMemoryArea → VirtualMemoryArea × List (ℕ × ℕ)
alloc_all page [] area = (area, [])
alloc_all page (size ∷ sizes) area =
    let (area', address) = alloc_block page size area in
    let (area'', blocks) = alloc_all page sizes area' in (area'', add_block address size blocks)

-- No rounding overflows.
abbrev pub AllFit : ℕ → List ℕ → Type 0
AllFit page [] = Unit
AllFit page (size ∷ sizes) = (size + page ≤ 2 ^ 64) × AllFit page sizes

-- The blocks start at pages, one after the other, from an address on and up to another.
abbrev pub Packed : ℕ → ℕ → ℕ → List (ℕ × ℕ) → Type 0
Packed page from to [] = from ≤ to
Packed page from to ((address, size) ∷ blocks) =
    (from ≤ address) × (address % page ≡ 0) × Packed page (address + size) to blocks

pub record Sound (page : ℕ) (area : VirtualMemoryArea) : Type 0 where
  pub accounted : area.next_free + area.available ≡ area.end
  pub aligned : area.next_free % page ≡ 0
  pub after_start : area.start ≤ area.next_free

Packed-weaken :
    (page from lower to : ℕ) (blocks : List (ℕ × ℕ))
    → lower ≤ from
    → Packed page from to blocks
    → Packed page lower to blocks
Packed-weaken page from lower to [] h p = omega (arith, h, p)
Packed-weaken page from lower to ((address, size) ∷ blocks) h (a, m, p) =
    (omega (arith, a, h), m, p)

module _ (page : ℕ) (positive : 0 < page) (size : ℕ) where
  pub alloc_block-Sound :
      (area : VirtualMemoryArea) → Sound page area → Sound page (alloc_block page size area).0
  unfolding alloc_block
  alloc_block-Sound area s = ground (
    arith,
    s.accounted,
    s.aligned,
    s.after_start,
    multiple_add area.next_free (round_up size page) page positive s.aligned
        (round_up_multiple size page positive),
  )

  -- What a call that succeeds returns, and what it leaves alone.
  pub alloc_block-some :
      (area : VirtualMemoryArea) (address : ℕ)
      → size + page ≤ 2 ^ 64
      → Sound page area
      → (alloc_block page size area).1 ≡ some address
      → (address ≡ area.next_free)
        × (address + size ≤ (alloc_block page size area).0.next_free)
        × (address + size ≤ area.end)
  unfolding alloc_block
  alloc_block-some area address f s e =
      ground (arith, s.accounted, round_up_bounds size page positive f)

pub alloc_block-kept :
    (page size : ℕ) (area : VirtualMemoryArea)
    → ((alloc_block page size area).0.end ≡ area.end)
      × ((alloc_block page size area).0.start ≡ area.start)
      × (area.next_free ≤ (alloc_block page size area).0.next_free)
unfolding alloc_block
alloc_block-kept page size area = ground arith

alloc_all-Packed :
    (page : ℕ) (sizes : List ℕ) (area : VirtualMemoryArea)
    → 0 < page
    → AllFit page sizes
    → Sound page area
    → Packed page area.next_free area.end (alloc_all page sizes area).1
alloc_all-Packed page [] area p f s = omega (arith, s.accounted)
alloc_all-Packed page (size ∷ sizes) area p (f, fs) s =
    let area' = (alloc_block page size area).0 in
    let (end, start, later) = alloc_block-kept page size area in
    let packed =
      subst (λ to. Packed page area'.next_free to (alloc_all page sizes area').1) end
        (alloc_all-Packed page sizes area' p fs (alloc_block-Sound page p size area s)) in
    elim (Option-cases (alloc_block page size area).1) [
      | inl full ↦ rw full (
          Packed-weaken page area'.next_free area.next_free area.end (alloc_all page sizes area').1
            later packed)
      | inr (address, e) ↦
          let (at, upto, below) = alloc_block-some page p size area address f s e in
          rw e (
            omega (arith, at),
            subst (λ a. a % page ≡ 0) (sym at) s.aligned,
            Packed-weaken page area'.next_free (address + size) area.end
                (alloc_all page sizes area').1 upto packed,
          )
    ]

-- The blocks that an area returns, whatever sizes are asked for: each starts at a page, no two
-- overlap, and all lie in the area, if the area starts at a page and no rounding overflows.
pub alloc_all-new_area :
    (page address size : ℕ) (sizes : List ℕ)
    → 0 < page
    → address % page ≡ 0
    → AllFit page sizes
    → Packed page address (address + size) (alloc_all page sizes (new_area address size)).1
unfolding new_area
alloc_all-new_area page address size sizes p m f =
    alloc_all-Packed page sizes (new_area address size) p f
      (record { accounted = refl; aligned = m; after_start = omega arith })

-- A size within one page of 2 ^ 64 is rounded to 0 bytes: `allocBlock` returns an address, although it
-- sets nothing aside, and returns the same address to the next caller.
pub alloc_block-overflow :
    (page size : ℕ) (area : VirtualMemoryArea)
    → page ≤ 2 ^ 64
    → size < 2 ^ 64
    → 2 ^ 64 < size + page
    → ((alloc_block page size area).1 ≡ some area.next_free)
      × ((alloc_block page size area).0.next_free ≡ area.next_free)
      × ((alloc_block page size area).0.available ≡ area.available)
unfolding alloc_block
alloc_block-overflow page size area l h k = ground (arith, round_up_overflow size page h k l)

-- A range that ends where the area ends is not included, although all its bytes are.
pub includes_range_end :
    (address size : ℕ) (area : VirtualMemoryArea)
    → area.start ≤ address
    → address + size ≡ area.end
    → 0 < size
    → (includes_range address size area ≡ false)
      × (includes_address address area ≡ true)
      × (includes_address (address + size - 1) area ≡ true)
unfolding includes_range includes_address
includes_range_end address size area h e p = ground arith
