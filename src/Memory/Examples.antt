-- ===== src/Memory/Examples.antt =====
-- Witnesses: pages of 4096 bytes, a cluster of two nodes, and two NUMA nodes with three pages in all.
use nanos.Common.{◌+◌, ◌≡◌, refl, arith, some, [], ◌∷◌}
use nanos.Memory.{VirtualMemoryArea, new_area, alloc_block, round_up}
use nanos.Memory.Blocks.{Packed, alloc_all, alloc_all-new_area, alloc_block-overflow}
use nanos.Memory.Cluster.{
  VirtualMemoryManagement, setup_memory_layout, layout_areas, alloc_at, alloc_local_numa,
  alloc_distrib, find_numa,
}
use nanos.Memory.Numa.{Setup, IsValid, local, distrib, calls, set_up, answer, find_numa-answer}

abbrev three_pages : VirtualMemoryArea
three_pages = record {
  start = 0x10000;
  size = 12288;
  end = 0x13000;
  next_free = 0x11000;
  available = 8192;
}

alloc_all-new_area_example :
    Packed 4096 0x10000
      (0x10000 + 12288)
      (alloc_all 4096 (100 ∷ 4097 ∷ 1 ∷ []) (new_area 0x10000 12288)).1
alloc_all-new_area_example =
    alloc_all-new_area 4096 0x10000 12288 (100 ∷ 4097 ∷ 1 ∷ []) (omega arith) refl
      (omega arith, (omega arith, (omega arith, tt)))

alloc_block-overflow_example :
    ((alloc_block 4096 18446744073709551615 three_pages).1 ≡ some 0x11000)
    × ((alloc_block 4096 18446744073709551615 three_pages).0.next_free ≡ 0x11000)
    × ((alloc_block 4096 18446744073709551615 three_pages).0.available ≡ 8192)
alloc_block-overflow_example =
    alloc_block-overflow 4096 18446744073709551615 three_pages (omega arith) (omega arith)
      (omega arith)

abbrev two_nodes : Setup
two_nodes = record {
  page = 4096;
  cluster_size = 2;
  node_index = 1;
  numa_nodes = 2;
  address = 0x10000000;
  distrib_size = 8192;
  local_size = 12288;
}

two_nodes-IsValid : IsValid two_nodes
two_nodes-IsValid = record {
  has_page = omega arith;
  has_numa_node = omega arith;
  in_cluster = omega arith;
  at_page = refl;
  whole_pages = refl;
}

-- NUMA node 0 has two pages, and node 1 has one, which begins at 0x10005000.
abbrev after : VirtualMemoryManagement
after = calls 4096 (local 10 1 ∷ local 4097 0 ∷ distrib 1 ∷ []) (set_up two_nodes)

last_call :
    answer 4096 (local 10 1) (calls 4096 (local 4097 0 ∷ distrib 1 ∷ []) (set_up two_nodes))
    ≡ some (after, some 0x10005000)
unfolding alloc_local_numa alloc_at alloc_block round_up setup_memory_layout layout_areas new_area
    alloc_distrib
last_call = refl

find_numa-answer_example : find_numa 0x10005000 after ≡ 1
find_numa-answer_example =
    find_numa-answer two_nodes (local 4097 0 ∷ distrib 1 ∷ []) (local 10 1) after 0x10005000
      two_nodes-IsValid (omega arith) (omega arith) last_call
