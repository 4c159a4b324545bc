-- ===== src/Memory.antt =====
-- Areas of virtual memory: src/memory/vmm/VirtualMemoryArea.hpp. An address is a number, and a size_t is
-- a number below 2 ^ 64. The page size is that of the machine.
pub mod Rounding
pub mod Blocks
pub mod Cluster
pub mod Tiles
pub mod Ordered
pub mod Numa
pub mod Smp
mod Examples
use nanos.Common.{
  ℕ, ◌+◌, ◌-◌, ◌*◌, ◌/◌, ◌%◌, ◌^◌, Bool, ◌&&◌, Option, none, some, ltb, leb, if◌then◌else◌,
}

-- The macro ROUND_UP of two values of type size_t.
unfoldable pub round_up : ℕ → ℕ → ℕ
round_up size page = (size + page + 2 ^ 64 - 1) % 2 ^ 64 / page * page

pub record VirtualMemoryArea : Type 0 where
  pub start : ℕ
  pub size : ℕ
  pub end : ℕ
  pub next_free : ℕ
  pub available : ℕ

-- The constructor.
unfoldable pub new_area : ℕ → ℕ → VirtualMemoryArea
new_area address size = record {
  start = address;
  size = size;
  end = address + size;
  next_free = address;
  available = size;
}

unfoldable pub alloc_block : ℕ → ℕ → VirtualMemoryArea → VirtualMemoryArea × Option ℕ
unfolding round_up
alloc_block page size area =
    let rounded = round_up size page in
    if ltb area.available rounded then (area, none) else (
      record area { available = area.available - rounded; next_free = area.next_free + rounded },
      some area.next_free,
    )

unfoldable pub includes_range : ℕ → ℕ → VirtualMemoryArea → Bool
includes_range address size area = leb area.start address && ltb (address + size) area.end

unfoldable pub includes_address : ℕ → VirtualMemoryArea → Bool
includes_address address area = leb area.start address && ltb address area.end
