-- ===== src/Taskloop/Examples.antt =====
-- The theorems on taskloops at a loop of ten iterations.
use nanos.Common.{◌≡◌, refl, arith}
use nanos.Taskloop.Split.{Bounds, Chain, split_iterations, split_iterations-Chain}
use nanos.Taskloop.Chunks.{initialize}
use nanos.Taskloop.Drained.{drain, drain-initialize}

abbrev ten : Bounds
ten = record { lower_bound = 5; upper_bound = 15; step = 1; chunksize = 3 }

split_iterations-Chain_example : Chain 5 15 (split_iterations 3 ten)
split_iterations-Chain_example =
    split_iterations-Chain 3 ten (omega arith) (omega arith) (omega arith) (omega arith)

-- Ten iterations without a chunk size of the program.
abbrev unsized : Bounds
unsized = record { lower_bound = 5; upper_bound = 15; step = 1; chunksize = 0 }

drain-initialize_example :
    Chain 5 15 (drain 10 (initialize 2 unsized).bounds (initialize 2 unsized).partitions).0
    × ((drain 10 (initialize 2 unsized).bounds (initialize 2 unsized).partitions).1
        ≡ (initialize 2 unsized).remaining_partitions)
unfolding initialize
drain-initialize_example =
    drain-initialize 2 10 unsized (omega arith) (omega arith) refl (omega arith) (omega arith)
      (omega arith)
