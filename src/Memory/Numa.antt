-- ===== src/Memory/Numa.antt =====
-- Any sequence of allocations of a cluster node, and the NUMA node that an address is found on.
use native.Mathlib.Nat.{suc-mul}
use nanos.Common.{
  ℕ, zero, suc, ◌+◌, ◌*◌, ◌/◌, ◌%◌, ◌^◌, ◌≤◌, ◌<◌, ◌≡◌, refl, ◌∙◌, ap, subst, Option, none, some,
  List, [], ◌∷◌, length, arith,
}
use nanos.Memory.{VirtualMemoryArea, new_area}
use nanos.Memory.Rounding.{multiple_add}
use nanos.Memory.Blocks.{Sound, alloc_block-Sound, alloc_block-some, alloc_block-kept}
use nanos.Memory.Cluster.{
  VirtualMemoryManagement, setup_memory_layout, alloc_at, alloc_local_numa, with_local,
  alloc_distrib, find_in, find_numa,
}
use nanos.Memory.Tiles.{setup_memory_layout-Tiles}
use nanos.Memory.Ordered.{
  Ordered, Holds, Found, layout_areas-Ordered, alloc_at-Ordered, alloc_at-Found, length-alloc_at,
  not_included, Ordered-le,
}

pub data Call : Type 0 where
  local : (size numa_id : ℕ) → Call
  distrib : (size : ℕ) → Call

-- A call that throws changes nothing.
abbrev pub unless_thrown :
    VirtualMemoryManagement → Option (VirtualMemoryManagement × Option ℕ) → VirtualMemoryManagement
unless_thrown m none = m
unless_thrown m (some r) = r.0

abbrev pub call : ℕ → Call → VirtualMemoryManagement → VirtualMemoryManagement
call page (local size numa_id) m = unless_thrown m (alloc_local_numa page size numa_id m)
call page (distrib size) m = (alloc_distrib page size m).0

-- The calls one after the other, the latest first.
abbrev pub calls : ℕ → List Call → VirtualMemoryManagement → VirtualMemoryManagement
calls page [] m = m
calls page (c ∷ earlier) m = call page c (calls page earlier m)

-- There are so many local areas, which lie between two addresses, and the generic area behind them.
pub record Laid (page nodes from to : ℕ) (m : VirtualMemoryManagement) : Type 0 where
  pub count : length m.local_areas ≡ nodes
  pub ordered : Ordered page from to m.local_areas
  pub generic : Sound page m.generic_area
  pub behind : to ≤ m.generic_area.start

module _ (page : ℕ) (positive : 0 < page) (nodes from to : ℕ) where
  with_local-Laid :
      (m : VirtualMemoryManagement) (o : Option (List VirtualMemoryArea × Option ℕ))
      → Laid page nodes from to m
      → Holds (λ r. Ordered page from to r.0) o
      → Holds (λ r. length r.0 ≡ length m.local_areas) o
      → Laid page nodes from to (unless_thrown m (with_local m o))
  with_local-Laid m none l h n = l
  with_local-Laid m (some r) l h n = record {
    count = n ∙ l.count;
    ordered = h;
    generic = l.generic;
    behind = l.behind;
  }

  call-Laid :
      (c : Call) (m : VirtualMemoryManagement)
      → Laid page nodes from to m
      → Laid page nodes from to (call page c m)
  unfolding alloc_local_numa alloc_distrib
  call-Laid (local size i) m l =
      with_local-Laid m (alloc_at page size i m.local_areas) l
        (alloc_at-Ordered page positive size i from to m.local_areas l.ordered)
        (length-alloc_at page positive size i m.local_areas)
  call-Laid (distrib size) m l =
      let (end, start, later) = alloc_block-kept page size m.generic_area in
      record {
        count = l.count;
        ordered = l.ordered;
        generic = alloc_block-Sound page positive size m.generic_area l.generic;
        behind = omega (arith, l.behind, start);
      }

  calls-Laid :
      (cs : List Call) (m : VirtualMemoryManagement)
      → Laid page nodes from to m
      → Laid page nodes from to (calls page cs m)
  calls-Laid [] m l = l
  calls-Laid (c ∷ earlier) m l = call-Laid c (calls page earlier m) (calls-Laid earlier m l)

  -- An address behind the areas is in none of them.
  find_in-behind :
      (from : ℕ) (areas : List VirtualMemoryArea) (address : ℕ)
      → Ordered page from to areas
      → to ≤ address
      → find_in address areas ≡ length areas
  unfolding find_in
  find_in-behind from [] address o h = refl
  find_in-behind from (area ∷ areas) address (b, s, o) h =
      not_included page positive 0 address area areas
        (omega (arith, h, Ordered-le page positive 0 area.end to areas o))
      ∙ ap suc (find_in-behind area.end areas address o h)

-- What a cluster node is set up with.
pub record Setup : Type 0 where
  pub page : ℕ
  pub cluster_size : ℕ
  pub node_index : ℕ
  pub numa_nodes : ℕ
  pub address : ℕ
  pub distrib_size : ℕ
  pub local_size : ℕ

-- The node is one of the cluster and has a NUMA node, and the memory is a number of pages.
pub record IsValid (c : Setup) : Type 0 where
  pub has_page : 0 < c.page
  pub has_numa_node : 0 < c.numa_nodes
  pub in_cluster : c.node_index < c.cluster_size
  pub at_page : c.address % c.page ≡ 0
  pub whole_pages : c.local_size % c.page ≡ 0

abbrev pub set_up : Setup → VirtualMemoryManagement
set_up c =
    setup_memory_layout c.page c.cluster_size c.node_index c.numa_nodes c.address c.distrib_size
      c.local_size

multiple_mul : (n a page : ℕ) → 0 < page → a % page ≡ 0 → n * a % page ≡ 0
multiple_mul zero a page p h = grind arith
multiple_mul (suc n) a page p h =
    rw suc-mul (multiple_add (n * a) a page p (multiple_mul n a page p h) h)

room : (i n size : ℕ) → i < n → i * size + size ≤ n * size
room i n size h = grind arith

set_up-Laid :
    (c : Setup)
    → IsValid c
    → let from = c.address + c.node_index * c.local_size in
      Laid c.page c.numa_nodes from (from + c.local_size) (set_up c)
unfolding setup_memory_layout new_area
set_up-Laid c v =
    let from = c.address + c.node_index * c.local_size in
    let pages = c.local_size / c.page in
    let tiles =
      setup_memory_layout-Tiles c.page c.cluster_size c.node_index c.numa_nodes c.address
        c.distrib_size c.local_size v.has_page v.has_numa_node v.whole_pages in
    record {
      count = tiles.1;
      ordered =
          layout_areas-Ordered c.page (pages / c.numa_nodes) c.numa_nodes (pages % c.numa_nodes)
            from (from + c.local_size) v.has_page
            (multiple_add c.address (c.node_index * c.local_size) c.page v.has_page v.at_page
              (multiple_mul c.node_index c.local_size c.page v.has_page v.whole_pages))
            tiles.0;
      generic = record {
        accounted = refl;
        aligned =
            multiple_add c.address (c.cluster_size * c.local_size) c.page v.has_page v.at_page
              (multiple_mul c.cluster_size c.local_size c.page v.has_page v.whole_pages);
        after_start = omega arith;
      };
      behind = omega (arith, room c.node_index c.cluster_size c.local_size v.in_cluster);
    }

calls-set_up :
    (c : Setup) (cs : List Call)
    → IsValid c
    → let from = c.address + c.node_index * c.local_size in
      Laid c.page c.numa_nodes from (from + c.local_size) (calls c.page cs (set_up c))
calls-set_up c cs v =
    let from = c.address + c.node_index * c.local_size in
    calls-Laid c.page v.has_page c.numa_nodes from (from + c.local_size) cs (set_up c)
      (set_up-Laid c v)

-- A call with what it returns, and nothing where it throws.
abbrev pub answer : ℕ → Call → VirtualMemoryManagement → Option (VirtualMemoryManagement × Option ℕ)
answer page (local size numa_id) m = alloc_local_numa page size numa_id m
answer page (distrib size) m = some (alloc_distrib page size m)

abbrev pub size_of : Call → ℕ
size_of (local size numa_id) = size
size_of (distrib size) = size

-- The NUMA node that a block belongs to, or the number of nodes for a distributed one.
abbrev pub home : Setup → Call → ℕ
home c (local size numa_id) = numa_id
home c (distrib size) = c.numa_nodes

local_part :
    Option (VirtualMemoryManagement × Option ℕ) → Option (List VirtualMemoryArea × Option ℕ)
local_part none = none
local_part (some r) = some (r.0.local_areas, r.1)

with_local-some :
    (m m' : VirtualMemoryManagement) (address : Option ℕ)
    (o : Option (List VirtualMemoryArea × Option ℕ))
    → with_local m o ≡ some (m', address)
    → o ≡ some (m'.local_areas, address)
unfolding local_part
with_local-some m m' address none e = ap local_part e
with_local-some m m' address (some r) e = ap local_part e

areas_of : Option (VirtualMemoryManagement × Option ℕ) → List VirtualMemoryArea
areas_of none = []
areas_of (some r) = r.0.local_areas

address_of : Option (VirtualMemoryManagement × Option ℕ) → Option ℕ
address_of none = none
address_of (some r) = r.1

alloc_distrib-found :
    (page nodes from to size : ℕ) (m m' : VirtualMemoryManagement) (address : ℕ)
    → 0 < page
    → size + page ≤ 2 ^ 64
    → Laid page nodes from to m
    → some (alloc_distrib page size m) ≡ some (m', some address)
    → find_in address m'.local_areas ≡ nodes
unfolding alloc_distrib areas_of address_of
alloc_distrib-found page nodes from to size m m' address p f l e =
    let (at, upto, below) =
      alloc_block-some page p size m.generic_area address f l.generic (ap address_of e) in
    subst (λ areas. find_in address areas ≡ nodes) (ap areas_of e)
      (find_in-behind page p nodes from to from m.local_areas address l.ordered
          (omega (arith, at, l.behind, l.generic.after_start))
        ∙ l.count)

-- After any calls of a cluster node: `findNUMA` gives back, for the address of a block of at least one
-- byte that is allocated without overflow, the NUMA node that it was allocated on, or the number
-- of NUMA nodes if it was allocated for distribution.
pub find_numa-answer :
    (c : Setup) (earlier : List Call) (request : Call) (m : VirtualMemoryManagement) (address : ℕ)
    → IsValid c
    → 0 < size_of request
    → size_of request + c.page ≤ 2 ^ 64
    → answer c.page request (calls c.page earlier (set_up c)) ≡ some (m, some address)
    → find_numa address m ≡ home c request
unfolding alloc_local_numa find_numa alloc_distrib
find_numa-answer c earlier (local size i) m address v z f e =
    let from = c.address + c.node_index * c.local_size in
    let l = calls-set_up c earlier v in
    let before = calls c.page earlier (set_up c) in
    (subst (Holds (Found c.page v.has_page size i from (from + c.local_size)))
      (with_local-some before m (some address) (alloc_at c.page size i before.local_areas) e)
      (alloc_at-Found c.page v.has_page size i from (from + c.local_size) before.local_areas z f
        l.ordered)).2
find_numa-answer c earlier (distrib size) m address v z f e =
    let from = c.address + c.node_index * c.local_size in
    alloc_distrib-found c.page c.numa_nodes from (from + c.local_size) size
      (calls c.page earlier (set_up c)) m address v.has_page f (calls-set_up c earlier v) e
