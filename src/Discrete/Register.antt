-- ===== src/Discrete/Register.antt =====
-- `registerTaskDataAccess` of src/dependencies/discrete/DataAccessRegistration.hpp, and the search
-- for the sequence in `register_access` of RegisterDependencies.cpp.
use nanos.Common.{
  ℕ, Bool, true, false, ◌||◌, List, [], ◌∷◌, Option, none, some, ◌==◌, if◌then◌else◌,
}
use nanos.Discrete.Access.{Header, DataAccessType, evaluate}
use nanos.Discrete.Sequence.{
  Accesses, nil, cons, Level, effective_previous, Position, here, later, inside,
}
use nanos.Discrete.Upgrade.{Upgrade, upgraded, fatal, null_dereference, upgrade_access}

-- The arguments of a call.
pub record Request : Type 0 where
  pub task : ℕ
  pub access_type : DataAccessType
  pub weak : Bool
  pub reduction_info : ℕ

-- The sequence afterwards, the result of the call (false if the task gets one more predecessor), and
-- whether the caller gets an access to put on the task's own list. `missing`: no such position.
pub data Registration : Type 0 where
  registered : Accesses → Bool → Bool → Registration
  missing : Registration
  failed : Registration

-- The access that a call creates after `previous`.
abbrev pub new_access : Option Header → Request → Header
new_access previous r = record {
  access_type = r.access_type;
  weak = r.weak;
  satisfied = evaluate previous r.access_type r.reduction_info;
  originator = r.task;
  reduction_info = r.reduction_info;
}

abbrev pub single : Option Header → Accesses
single none = nil
single (some h) = cons h nil nil

-- The access is not handed to the caller, also where the upgrade has created one.
unfoldable pub after_upgrade : Accesses → Upgrade → Registration
after_upgrade subs (upgraded h pushed result) =
    registered (cons h subs (single pushed)) result false
after_upgrade subs fatal = failed
after_upgrade subs null_dereference = failed

unfoldable pub on_rest : Header → Accesses → Registration → Registration
on_rest h subs (registered rest result created) = registered (cons h subs rest) result created
on_rest h subs missing = missing
on_rest h subs failed = failed

unfoldable pub on_subaccesses : Header → Accesses → Registration → Registration
on_subaccesses h rest (registered subs result created) =
    registered (cons h subs rest) result created
on_subaccesses h rest missing = missing
on_subaccesses h rest failed = failed

unfoldable pub push_new : Option Header → Request → Registration
push_new previous r =
    let h = new_access previous r in registered (cons h nil nil) (h.satisfied || h.weak) true

-- The walk ends at the last access of the sequence, `rbegin` in the source.
unfoldable pub register_task_data_access : Request → Level → List Level → Accesses → Registration
unfolding effective_previous upgrade_access after_upgrade on_rest push_new
register_task_data_access r before above nil = push_new (effective_previous (before ∷ above)) r
register_task_data_access r before above (cons h subs nil) =
    if h.originator == r.task
    then after_upgrade subs
        (upgrade_access (effective_previous (before ∷ above)) h r.access_type r.weak)
    else on_rest h subs (push_new (some h) r)
register_task_data_access r before above (cons h subs (cons h' subs' rest)) =
    on_rest h subs (register_task_data_access r (h ∷ before) above (cons h' subs' rest))

-- In the subaccesses of the access of the parent task at a position.
unfoldable pub register_below : Request → Level → List Level → Position → Accesses → Registration
unfolding register_task_data_access on_rest on_subaccesses
register_below r before above x nil = missing
register_below r before above here (cons h subs rest) =
    on_subaccesses h rest (register_task_data_access r [] (before ∷ above) subs)
register_below r before above (later x) (cons h subs rest) =
    on_rest h subs (register_below r (h ∷ before) above x rest)
register_below r before above (inside x) (cons h subs rest) =
    on_subaccesses h rest (register_below r [] (before ∷ above) x subs)

-- The weakness and the predecessor that `register_access` takes from the task and the result.
unfoldable pub effective_weak : Bool → Bool → Bool → Bool
effective_weak weak is_final is_taskloop =
    if weak then (if is_final then false else if is_taskloop then false else true) else false

unfoldable pub new_predecessors : Registration → ℕ
new_predecessors (registered s can_start created) = if can_start then 0 else 1
new_predecessors missing = 0
new_predecessors failed = 0
