-- ===== src/Region/Examples.antt =====
-- The theorems on regions at small regions.
use nanos.Common.{if◌then◌else◌, ◌≡◌, arith}
use nanos.Region.{DataAccessRegion, end_address}
use nanos.Region.Fragments.{
  intersecting, hits, wanted, process_intersecting_fragments, hits-process_intersecting_fragments,
}

abbrev low : DataAccessRegion
low = record { start_address = 10; length = 5 }

abbrev middle : DataAccessRegion
middle = record { start_address = 12; length = 6 }

-- Byte 13 is in both regions.
hits-process_intersecting_fragments_example :
    hits intersecting (process_intersecting_fragments low middle) 13
    ≡ (if wanted intersecting low middle 13 then 1 else 0)
unfolding end_address
hits-process_intersecting_fragments_example =
    hits-process_intersecting_fragments intersecting low middle (omega arith) (omega arith)
      (omega arith) 13
