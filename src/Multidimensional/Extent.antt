-- ===== src/Multidimensional/Extent.antt =====
-- The one region of the discrete system against the regions of the linear-regions systems.
use nanos.Common.{ℕ, ◌+◌, ◌-◌, ◌*◌, List, [], ◌∷◌}
use nanos.Region.{DataAccessRegion}
use nanos.Multidimensional.{Dimension}

-- The bytes of some regions, counted with their repetitions.
abbrev pub total : List DataAccessRegion → ℕ
total [] = 0
total (r ∷ rs) = r.length + total rs

-- The bytes of a region of several dimensions.
abbrev extent : List Dimension → ℕ
extent [] = 1
extent (d ∷ others) = (d.end - d.start) * extent others
