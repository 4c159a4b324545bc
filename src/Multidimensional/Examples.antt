-- ===== src/Multidimensional/Examples.antt =====
-- An array of four rows of ten bytes at address 100, and of it the bytes 2 to 4 of the rows 1 and 2.
use nanos.Common.{◌-◌, ◌≡◌, refl, ◌&&◌, [], ◌∷◌, length, leb, if◌then◌else◌, arith}
use nanos.Multidimensional.{
  difference, Dimension, is_continuous, get_stride, for_rows, register_data_access,
  register_reduction_access,
}
use nanos.Multidimensional.Coordinates.{inside}
use nanos.Multidimensional.Rows.{covering, covering-register_data_access}
use nanos.Multidimensional.Reductions.{AllAt, register_reduction_access-AllAt}

abbrev rows : Dimension
rows = record { size = 4; start = 1; end = 3 }

abbrev columns : Dimension
columns = record { size = 10; start = 2; end = 5 }

registered :
    register_data_access rows (columns ∷ []) 100
    ≡ record { start_address = 112; length = 3 } ∷ record { start_address = 122; length = 3 } ∷ []
unfolding register_data_access is_continuous get_stride for_rows difference
registered = refl

reduced : register_reduction_access rows (columns ∷ []) 100 ≡ (100, columns) ∷ (100, columns) ∷ []
unfolding register_reduction_access is_continuous get_stride for_rows
reduced = refl

covering-register_data_access_example :
    covering (register_data_access rows (columns ∷ []) 100) 123
    ≡ (if leb 100 123 && inside (rows ∷ columns ∷ []) (123 - 100) then 1 else 0)
unfolding get_stride
covering-register_data_access_example =
    covering-register_data_access rows (columns ∷ []) 100 123
      (omega arith, omega arith, (omega arith, omega arith, tt)) (omega arith, (omega arith, tt))
      (omega arith)

register_reduction_access-AllAt_example :
    (length (register_reduction_access rows (columns ∷ []) 100)
      ≡ length (register_data_access rows (columns ∷ []) 100))
    × AllAt 100 (register_reduction_access rows (columns ∷ []) 100)
register_reduction_access-AllAt_example = register_reduction_access-AllAt rows (columns ∷ []) 100
