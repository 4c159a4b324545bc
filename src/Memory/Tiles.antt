-- ===== src/Memory/Tiles.antt =====
-- The areas of the NUMA nodes cover the local memory.
use nanos.Common.{
  ℕ, zero, suc, ◌+◌, ◌-◌, ◌*◌, ◌/◌, ◌%◌, ◌≤◌, ◌<◌, ◌≡◌, refl, ap, subst, List, [], ◌∷◌, length,
  arith, ◌⊎◌, inl, inr, if◌then◌else◌, ltb, Bool-cases, true, false,
}
use native.Mathlib.Nat.{suc-mul, mod-lt, mod-add-div'}
use nanos.Memory.{VirtualMemoryArea, new_area}
use nanos.Memory.Cluster.{layout_areas, setup_memory_layout}

-- The areas follow one another from an address on up to another, with so many pages each or one more.
abbrev pub Tiles : (page pages from to : ℕ) → List VirtualMemoryArea → Type 0
Tiles page pages from to [] = from ≡ to
Tiles page pages from to (area ∷ areas) =
    (area.start ≡ from)
    × (area.end ≡ from + area.size)
    × ((area.size ≡ pages * page) ⊎ (area.size ≡ pages * page + page))
    × Tiles page pages area.end to areas

pred_mul : (e page : ℕ) → 0 < e → (e - 1) * page + page ≡ e * page
pred_mul zero page h = grind arith
pred_mul (suc e) page h = rw suc-mul (omega (arith, pred))
  where
    pred : (suc e - 1) * page ≡ e * page
    pred = ap (λ n. n * page) (omega arith)

add_rows : (n q r page : ℕ) → n * (q * page) + r * page ≡ (r + q * n) * page
add_rows n q r page = grind arith

layout_areas-Tiles :
    (page pages nodes extra address : ℕ)
    → extra ≤ nodes
    → Tiles page pages address
        (address + nodes * (pages * page) + extra * page)
        (layout_areas page pages nodes extra address)
unfolding layout_areas new_area
layout_areas-Tiles page pages zero extra address h = grind arith
layout_areas-Tiles page pages (suc nodes) extra address h = elim (Bool-cases (ltb 0 extra)) [
  | inl more ↦ rw more (
    refl,
    refl,
    inr refl,
    subst
        (λ to.
          Tiles page pages (address + (pages * page + page)) to
            (layout_areas page pages nodes (extra - 1) (address + (pages * page + page))))
        (longer more)
        (layout_areas-Tiles page pages nodes (extra - 1) (address + (pages * page + page))
          (omega (arith, h))),
  )
  | inr none_left ↦ rw none_left (
    refl,
    refl,
    inl refl,
    subst
        (λ to.
          Tiles page pages (address + pages * page) to
            (layout_areas page pages nodes (extra - 1) (address + pages * page)))
        (same none_left)
        (layout_areas-Tiles page pages nodes (extra - 1) (address + pages * page)
          (omega (arith, h))),
  )
]
  where
    longer :
        ltb 0 extra ≡ true
        → address + (pages * page + page) + nodes * (pages * page) + (extra - 1) * page
          ≡ address + suc nodes * (pages * page) + extra * page
    longer more =
        omega (arith, pred_mul extra page (ground (arith, more)), suc-mul nodes (pages * page))

    same :
        ltb 0 extra ≡ false
        → address + pages * page + nodes * (pages * page) + (extra - 1) * page
          ≡ address + suc nodes * (pages * page) + extra * page
    same none_left = omega (arith, suc-mul nodes (pages * page), none_extra)
      where
        none_extra : (extra - 1) * page ≡ extra * page
        none_extra = ap (λ n. n * page) (ground (arith, none_left))

length-layout_areas :
    (page pages nodes extra address : ℕ)
    → length (layout_areas page pages nodes extra address) ≡ nodes
unfolding layout_areas
length-layout_areas page pages zero extra address = refl
length-layout_areas page pages (suc nodes) extra address = ap suc (
    length-layout_areas page pages nodes (extra - 1)
      (address + (if ltb 0 extra then pages * page + page else pages * page)))

-- The areas of the NUMA nodes of a cluster node are as many as these, follow one another without a gap,
-- fill the local memory of the cluster node exactly, and differ in size by one page at most, if the
-- local memory is a whole number of pages.
pub setup_memory_layout-Tiles :
    (page cluster_size node_index numa_nodes address distrib_size local_size : ℕ)
    → 0 < page
    → 0 < numa_nodes
    → local_size % page ≡ 0
    → let m =
        setup_memory_layout page cluster_size node_index numa_nodes address distrib_size
          local_size in
      let from = address + node_index * local_size in
      Tiles page (local_size / page / numa_nodes) from (from + local_size) m.local_areas
      × (length m.local_areas ≡ numa_nodes)
unfolding setup_memory_layout
setup_memory_layout-Tiles page cluster_size node_index numa_nodes address distrib_size local_size p
      n m =
    let pages = local_size / page in
    let from = address + node_index * local_size in
    (
      subst
          (λ to.
            Tiles page (pages / numa_nodes) from to
              (layout_areas page (pages / numa_nodes) numa_nodes (pages % numa_nodes) from))
          filled
          (layout_areas-Tiles page (pages / numa_nodes) numa_nodes (pages % numa_nodes) from
            (omega (arith, mod-lt pages n))),
      length-layout_areas page (pages / numa_nodes) numa_nodes (pages % numa_nodes) from,
    )
  where
    filled :
        address
          + node_index * local_size
          + numa_nodes * (local_size / page / numa_nodes * page)
          + local_size / page % numa_nodes * page
        ≡ address + node_index * local_size + local_size
    filled = omega (
      arith,
      add_rows numa_nodes (local_size / page / numa_nodes) (local_size / page % numa_nodes) page,
      ap (λ n. n * page) (mod-add-div' (local_size / page) numa_nodes),
      mod-add-div' local_size page,
      m,
    )
