-- ===== src/Memory/Cluster.antt =====
-- src/memory/vmm/cluster/VirtualMemoryManagement.cpp and VirtualMemoryManagement.hpp: one area for each
-- NUMA node, cut out of the local memory of a cluster node, and one for distributed allocations.
use nanos.Common.{
  ℕ, zero, suc, ◌+◌, ◌-◌, ◌*◌, ◌/◌, ◌%◌, Option, none, some, List, [], ◌∷◌, ltb, if◌then◌else◌,
}
use nanos.Memory.{VirtualMemoryArea, new_area, alloc_block, includes_address}

pub record VirtualMemoryManagement : Type 0 where
  pub local_areas : List VirtualMemoryArea
  pub generic_area : VirtualMemoryArea

-- The loop of `setupMemoryLayout`: areas for the nodes left, of so many pages each, and one more for
-- each of the extra pages left.
unfoldable pub layout_areas :
    (page pages_per_numa nodes extra_pages address : ℕ) → List VirtualMemoryArea
unfolding new_area
layout_areas page pages zero extra address = []
layout_areas page pages (suc nodes) extra address =
    let size = if ltb 0 extra then pages * page + page else pages * page in
    new_area address size ∷ layout_areas page pages nodes (extra - 1) (address + size)

unfoldable pub setup_memory_layout :
    (page cluster_size node_index numa_nodes address distrib_size local_size : ℕ)
    → VirtualMemoryManagement
unfolding layout_areas new_area
setup_memory_layout page cluster_size node_index numa_nodes address distrib_size local_size =
    let local_pages = local_size / page in
    record {
      local_areas =
          layout_areas page (local_pages / numa_nodes) numa_nodes (local_pages % numa_nodes)
            (address + node_index * local_size);
      generic_area = new_area (address + cluster_size * local_size) distrib_size;
    }

unfoldable pub alloc_distrib : ℕ → ℕ → VirtualMemoryManagement → VirtualMemoryManagement × Option ℕ
unfolding alloc_block
alloc_distrib page size m =
    let (area, address) = alloc_block page size m.generic_area in
    (record m { generic_area = area }, address)

abbrev pub keep_first :
    VirtualMemoryArea
    → Option (List VirtualMemoryArea × Option ℕ)
    → Option (List VirtualMemoryArea × Option ℕ)
keep_first area none = none
keep_first area (some r) = some (area ∷ r.0, r.1)

-- A block of the area with an index; nothing where `at` throws.
unfoldable pub alloc_at :
    ℕ → ℕ → ℕ → List VirtualMemoryArea → Option (List VirtualMemoryArea × Option ℕ)
unfolding alloc_block
alloc_at page size i [] = none
alloc_at page size zero (area ∷ areas) =
    let (area', address) = alloc_block page size area in some (area' ∷ areas, address)
alloc_at page size (suc i) (area ∷ areas) = keep_first area (alloc_at page size i areas)

abbrev pub with_local :
    VirtualMemoryManagement
    → Option (List VirtualMemoryArea × Option ℕ)
    → Option (VirtualMemoryManagement × Option ℕ)
with_local m none = none
with_local m (some r) = some (record m { local_areas = r.0 }, r.1)

unfoldable pub alloc_local_numa :
    ℕ → ℕ → ℕ → VirtualMemoryManagement → Option (VirtualMemoryManagement × Option ℕ)
unfolding alloc_at
alloc_local_numa page size numa_id m = with_local m (alloc_at page size numa_id m.local_areas)

-- The index of the first area that includes an address, or the number of areas.
unfoldable pub find_in : ℕ → List VirtualMemoryArea → ℕ
unfolding includes_address
find_in address [] = 0
find_in address (area ∷ areas) =
    let i = find_in address areas in if includes_address address area then 0 else suc i

unfoldable pub find_numa : ℕ → VirtualMemoryManagement → ℕ
unfolding find_in
find_numa address m = find_in address m.local_areas
