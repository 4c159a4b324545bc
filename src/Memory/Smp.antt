-- ===== src/Memory/Smp.antt =====
-- src/memory/vmm/smp/VirtualMemoryManagement.hpp: without a cluster, a NUMA node whose latest area is
-- full gets a new one.
use native.Mathlib.Nat.{le-div_iff_mul-le, div-mul-le_self}
use nanos.Common.{
  ℕ, ◌+◌, ◌-◌, ◌/◌, ◌*◌, ◌%◌, ◌^◌, ◌≤◌, ◌<◌, ◌≡◌, refl, Option, Option-cases, none, some, List, ◌∷◌,
  ltb, inl, inr, if◌then◌else◌, arith,
}
use nanos.Memory.{VirtualMemoryArea, new_area, alloc_block, round_up}

-- The areas of a NUMA node: the last of the vector, and the others.
pub record NodeAllocations : Type 0 where
  pub latest : VirtualMemoryArea
  pub others : List VirtualMemoryArea

-- The size of a new mapping.
unfoldable pub allocation_size : (page minimum size : ℕ) → ℕ
unfolding round_up
allocation_size page minimum size =
    round_up (if ltb size minimum then minimum else 2 * size % 2 ^ 64) page

-- `allocLocalNUMA` on the areas of a node; `mapped` is the address at which the system would map a new
-- allocation.
unfoldable pub alloc_local :
    (page minimum size mapped : ℕ) → NodeAllocations → NodeAllocations × Option ℕ
unfolding alloc_block new_area allocation_size
alloc_local page minimum size mapped n =
    let (area, address) = alloc_block page size n.latest in
    elim address [
      | some a ↦ (record n { latest = area }, some a)
      | none ↦
          let (fresh, again) =
            alloc_block page size (new_area mapped (allocation_size page minimum size)) in
          (record { latest = fresh; others = area ∷ n.others }, again)
    ]

rows_mono : (w h m : ℕ) → w ≤ m → w * h ≤ m * h
rows_mono w h m p = grind arith

div_mono : (a b page : ℕ) → 0 < page → a ≤ b → a / page * page ≤ b / page * page
div_mono a b page p h =
    rows_mono (a / page) page (b / page)
      ((le-div_iff_mul-le p).1 (omega (arith, h, div-mul-le_self a page)))

round_up_mono :
    (a b page : ℕ) → 0 < page → a ≤ b → b + page ≤ 2 ^ 64 → round_up a page ≤ round_up b page
unfolding round_up
round_up_mono a b page p h f =
    div_mono ((a + page + 2 ^ 64 - 1) % 2 ^ 64) ((b + page + 2 ^ 64 - 1) % 2 ^ 64) page p
      (omega (arith, p, h, f))

-- A new mapping is large enough for the block that it is made for.
fits_mapping :
    (page minimum size : ℕ)
    → 0 < page
    → minimum + page ≤ 2 ^ 64
    → 2 * size + page ≤ 2 ^ 64
    → round_up size page ≤ allocation_size page minimum size
unfolding allocation_size
fits_mapping page minimum size p f g =
    ground (arith, round_up_mono size minimum page p, round_up_mono size (2 * size) page p)

-- An allocation on a NUMA node always succeeds, if neither the block nor a new mapping is within
-- a page of 2 ^ 64 bytes.
pub alloc_local-succeeds :
    (page minimum size mapped : ℕ) (n : NodeAllocations)
    → 0 < page
    → minimum + page ≤ 2 ^ 64
    → 2 * size + page ≤ 2 ^ 64
    → (address : ℕ) × ((alloc_local page minimum size mapped n).1 ≡ some address)
unfolding alloc_local
alloc_local-succeeds page minimum size mapped n p f g =
    elim (Option-cases (alloc_block page size n.latest).1) [
      | inr (a, e) ↦ (a, rw (alloc_local, e) refl)
      | inl full ↦ (
        mapped,
        rw (alloc_local, full)
            (alloc_block-fresh page size mapped (allocation_size page minimum size)
              (fits_mapping page minimum size p f g)),
      )
    ]
  where
    alloc_block-fresh :
        (page size mapped room : ℕ)
        → round_up size page ≤ room
        → (alloc_block page size (new_area mapped room)).1 ≡ some mapped
    alloc_block-fresh page size mapped room h = ground (arith, h)
