-- ===== src/Multidimensional.antt =====
-- Regions of several dimensions: src/dependencies/MultidimensionalAPITraversal.hpp, and how
-- src/dependencies/linear-regions/MultidimensionalAPI.hpp and src/dependencies/discrete/MultidimensionalAPI.hpp
-- register them. The parameters of a call are a list of dimensions, the outermost first, the innermost
-- in bytes. A dimension has numbers that are not negative, and strides that a size_t cannot hold are left
-- out.
pub mod Coordinates
pub mod Rows
pub mod Extent
pub mod Reductions
mod Examples
use nanos.Common.{
  ℕ, zero, suc, ◌+◌, ◌-◌, ◌*◌, ◌%◌, ◌^◌, Bool, ◌&&◌, List, [], ◌∷◌, ◌++◌, ◌==◌, if◌then◌else◌,
}
use nanos.Region.{DataAccessRegion}

pub record Dimension : Type 0 where
  pub size : ℕ
  pub start : ℕ
  pub end : ℕ

-- `currentDimensionIsContinuous`.
unfoldable pub is_continuous : Dimension → Bool
is_continuous d = (d.start == 0) && (d.end == d.size)

unfoldable pub get_stride : List Dimension → ℕ
get_stride [] = 1
get_stride (d ∷ others) = d.size * get_stride others

unfoldable pub get_start_offset : List Dimension → ℕ
unfolding get_stride
get_start_offset [] = 0
get_start_offset (d ∷ others) = d.start * get_stride others + get_start_offset others

-- A difference of two numbers of type long, as a size_t.
unfoldable pub difference : ℕ → ℕ → ℕ
difference end start = (end + 2 ^ 64 - start) % 2 ^ 64

unfoldable pub get_discrete_size : List Dimension → ℕ
unfolding difference
get_discrete_size [] = 1
get_discrete_size (d ∷ others) = difference d.end d.start * get_discrete_size others % 2 ^ 64

-- The dimension that stands for one and the next, which is continuous.
unfoldable pub skip_next : Dimension → Dimension → Dimension
skip_next d next = record {
  size = d.size * next.size;
  start = d.start * next.size;
  end = d.end * next.size;
}

-- The region that `register_data_access_base` registers.
abbrev pub base_region : Dimension → ℕ → DataAccessRegion
base_region d base_address = record {
  start_address = base_address + d.start;
  length = difference d.end d.start;
}

-- The loop over the indices of a dimension: so many rows, from an address on.
unfoldable pub for_rows {ℓ} : {R : Type ℓ} → ℕ → ℕ → (ℕ → List R) → ℕ → List R
for_rows zero stride row address = []
for_rows (suc count) stride row address =
    row address ++ for_rows count stride row (address + stride)

-- The regions that `register_data_access` of linear regions registers, for an outermost dimension, the
-- others, and a base address.
unfoldable pub register_data_access : Dimension → List Dimension → ℕ → List DataAccessRegion
unfolding is_continuous skip_next get_stride for_rows
register_data_access d [] base_address = base_region d base_address ∷ []
register_data_access d (next ∷ others) base_address =
    let joined = register_data_access (skip_next d next) others base_address in
    let row = register_data_access next others in
    let stride = get_stride (next ∷ others) in
    if is_continuous next
    then joined
    else for_rows (d.end - d.start) stride row (base_address + d.start * stride)

-- The calls of `nanos6_register_region_reduction_depinfo1` that `register_reduction_access` of linear
-- regions makes, each with its address and its dimension. Every row gets `baseAddress`.
unfoldable pub register_reduction_access : Dimension → List Dimension → ℕ → List (ℕ × Dimension)
unfolding is_continuous skip_next get_stride for_rows
register_reduction_access d [] base_address = (base_address, d) ∷ []
register_reduction_access d (next ∷ others) base_address =
    let joined = register_reduction_access (skip_next d next) others base_address in
    let row = register_reduction_access next others base_address in
    let stride = get_stride (next ∷ others) in
    if is_continuous next
    then joined
    else for_rows (d.end - d.start) stride (λ current. row) (base_address + d.start * stride)

-- The region that `register_data_access` of the discrete system registers.
unfoldable pub register_discrete_access : List Dimension → ℕ → DataAccessRegion
unfolding get_start_offset get_discrete_size
register_discrete_access dimensions base_address = record {
  start_address = base_address + get_start_offset dimensions;
  length = get_discrete_size dimensions;
}
