-- ===== src/Discrete/Access.antt =====
-- The satisfiability of one access in src/dependencies/discrete/DataAccess.hpp and
-- DataAccessImplementation.hpp.
-- Assertions are those of a release build: they are not evaluated.
use nanos.Common.{ℕ, Bool, true, false, ◌&&◌, not, Option, none, some, ◌==◌, if◌then◌else◌}
pub use nanos.AccessType.{
  DataAccessType, no_access, read, write, readwrite, concurrent, commutative, reduction, type_code,
  is_read, is_write, is_readwrite, is_concurrent, is_reduction,
}

-- A `DataAccess` without its subaccesses and its links. A task is named by a number.
pub record Header : Type 0 where
  pub access_type : DataAccessType
  pub weak : Bool
  pub satisfied : Bool
  pub originator : ℕ
  pub reduction_info : ℕ

-- The first overload, for all types but reductions.
unfoldable pub evaluate_satisfiability : Option Header → DataAccessType → Bool
evaluate_satisfiability none next_type = true
evaluate_satisfiability (some previous) next_type =
    if not previous.satisfied
    then false
    else if is_write next_type
    then false
    else if is_readwrite next_type
    then false
    else if is_read next_type
    then is_read previous.access_type
    else is_concurrent previous.access_type

-- The second overload, for reductions.
unfoldable pub evaluate_reduction : Option Header → ℕ → Bool
evaluate_reduction none operation = true
evaluate_reduction (some previous) operation =
    if not previous.satisfied
    then false
    else is_reduction previous.access_type && previous.reduction_info == operation

-- The overload that fits the type of the access.
unfoldable pub evaluate : Option Header → DataAccessType → ℕ → Bool
unfolding evaluate_satisfiability evaluate_reduction
evaluate previous next_type info =
    if is_reduction next_type
    then evaluate_reduction previous info
    else evaluate_satisfiability previous next_type

-- The access afterwards, and whether it has become satisfied.
unfoldable pub reevaluate_satisfiability : Option Header → Header → Header × Bool
reevaluate_satisfiability previous h = if h.satisfied then (h, false) else (
  record h { satisfied = evaluate previous h.access_type h.reduction_info },
  evaluate previous h.access_type h.reduction_info,
)
