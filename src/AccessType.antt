-- ===== src/AccessType.antt =====
-- The types of data access that all dependency systems share: src/dependencies/DataAccessType.hpp.
use nanos.Common.{ℕ, Bool, true, false}

pub data DataAccessType : Type 0 where
  no_access read write readwrite concurrent commutative reduction : DataAccessType

-- The value of the enumerator.
abbrev pub type_code : DataAccessType → ℕ
type_code no_access = 0
type_code read = 1
type_code write = 2
type_code readwrite = 3
type_code concurrent = 4
type_code commutative = 5
type_code reduction = 6

abbrev pub is_read : DataAccessType → Bool
is_read read = true
is_read _ = false

abbrev pub is_write : DataAccessType → Bool
is_write write = true
is_write _ = false

abbrev pub is_readwrite : DataAccessType → Bool
is_readwrite readwrite = true
is_readwrite _ = false

abbrev pub is_concurrent : DataAccessType → Bool
is_concurrent concurrent = true
is_concurrent _ = false

abbrev pub is_reduction : DataAccessType → Bool
is_reduction reduction = true
is_reduction _ = false

abbrev pub is_commutative : DataAccessType → Bool
is_commutative commutative = true
is_commutative _ = false
