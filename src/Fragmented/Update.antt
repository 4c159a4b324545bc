-- ===== src/Fragmented/Update.antt =====
-- The changes of one access in src/dependencies/linear-regions-fragmented/DataAccessRegistration.cpp,
-- each followed by `handleDataAccessStatusChanges`.
use nanos.Common.{
  ℕ, Bool, true, false, ◌&&◌, ◌||◌, not, Option, none, some, ◌==◌, if◌then◌else◌, [],
}
use nanos.AccessType.{is_concurrent, is_commutative, is_reduction}
use nanos.Fragmented.Access.{DataAccess, DataAccessLink, ReductionInfo, is_null}
use nanos.Fragmented.Effects.{effects}
use nanos.Fragmented.Changes.{
  UpdateOperation, BottomMapUpdateOperation, Owner, Changes, handle_data_access_status_changes,
  sized,
}

-- Whether an access takes a `ReductionInfo` that it receives for its own.
abbrev pub is_compatible : DataAccess → Option ReductionInfo → Bool
is_compatible a none = false
is_compatible a (some i) =
    is_null a.reduction_info
    && is_reduction a.type
    && a.reduction_type_and_operator_index == i.type_and_operator_index

-- The part of `applyUpdateOperationOnAccess` before the status changes are handled.
unfoldable pub updated_access : UpdateOperation → DataAccess → DataAccess
updated_access u a = record a {
  read_satisfied = a.read_satisfied || u.make_read_satisfied;
  write_satisfied = a.write_satisfied || u.make_write_satisfied;
  concurrent_satisfied = a.concurrent_satisfied || u.make_concurrent_satisfied;
  previous_reduction_info =
      if u.set_reduction_info then u.reduction_info else a.previous_reduction_info;
  reduction_info =
      if u.set_reduction_info && is_compatible a u.reduction_info
      then u.reduction_info
      else a.reduction_info;
  received_reduction_info = a.received_reduction_info || u.set_reduction_info;
  previous_reduction_cpu_set =
      if sized u.reduction_cpu_set then u.reduction_cpu_set else a.previous_reduction_cpu_set;
  received_reduction_cpu_set = a.received_reduction_cpu_set || sized u.reduction_cpu_set;
  topmost = a.topmost || u.make_topmost;
  top_level = a.top_level || u.make_top_level;
}

-- What `foreachBottomMapMatchPossibly...`'s missing processor makes of an access with no predecessor.
unfoldable pub fully_satisfied : DataAccess → DataAccess
fully_satisfied a = record a {
  read_satisfied = true;
  write_satisfied = true;
  concurrent_satisfied = true;
  received_reduction_info = true;
  topmost = true;
  top_level = true;
}

-- The link of `replaceMatchingInBottomMapLinkAndPropagate`.
unfoldable pub linked : DataAccessLink → DataAccess → DataAccess
linked link a = record a { next = some link; in_bottom_map = false }

-- `allocateReductionInfo`, which makes an object at a new address.
unfoldable pub with_reduction_info : (address : ℕ) → DataAccess → DataAccess
with_reduction_info address a = record a {
  reduction_info =
      some (record {
        address = address;
        type_and_operator_index = a.reduction_type_and_operator_index;
      });
  allocated_reduction_info = true;
}

-- `linkTaskAccesses`, before the access is linked.
unfoldable pub registered_access : DataAccess → DataAccess
registered_access a = record a { in_bottom_map = true; registered = true }

-- The change of `finalizeAccess`.
unfoldable pub completed : DataAccess → DataAccess
completed a = record a { complete = true }

-- The change of `processBottomMapUpdate`, or its fatal error.
unfoldable pub bottom_map_updated : BottomMapUpdateOperation → DataAccess → Option DataAccess
bottom_map_updated u a =
    if (is_concurrent u.parent_access_type || is_commutative u.parent_access_type)
      && is_reduction a.type
    then none
    else some (record a {
      read_satisfiability_propagation_inhibited =
          a.read_satisfiability_propagation_inhibited || u.inhibit_read_satisfiability_propagation;
      concurrent_satisfiability_propagation_inhibited =
          a.concurrent_satisfiability_propagation_inhibited
          || u.inhibit_concurrent_satisfiability_propagation;
      reduction_info_propagation_inhibited =
          a.reduction_info_propagation_inhibited || u.inhibit_reduction_info_propagation;
      next = u.next;
    })

abbrev pub no_changes : DataAccess → Owner → Changes
no_changes a o = record {
  access = a;
  owner = o;
  to_next = [];
  to_fragments = [];
  bottom_map_update = none;
  combines_region = false;
}

-- The reduction of an access that follows `previous` gets a `ReductionInfo` of its own, unless
-- both are of one type and operator.
abbrev pub allocates : DataAccess → DataAccess → Bool
allocates previous a =
    is_reduction a.type
    && not (previous.reduction_type_and_operator_index == a.reduction_type_and_operator_index)

module _ (parent : ℕ → ℕ) where
  -- A change of an access with all that follows.
  unfoldable pub change : (DataAccess → DataAccess) → DataAccess → Owner → Changes
  unfolding effects handle_data_access_status_changes
  change f a o = handle_data_access_status_changes (effects parent a) (effects parent (f a)) (f a) o

  unfoldable pub apply_update_operation_on_access : UpdateOperation → DataAccess → Owner → Changes
  unfolding change updated_access
  apply_update_operation_on_access u a o = change (updated_access u) a o

  -- `finalizeAccess`, for an access without fragments.
  unfoldable pub finalize_access : DataAccess → Owner → Changes
  unfolding change completed
  finalize_access a o = if a.complete then no_changes a o else change completed a o

  -- One access of `processBottomMapUpdate`.
  unfoldable pub apply_bottom_map_update :
      BottomMapUpdateOperation → DataAccess → Owner → Option Changes
  unfolding change bottom_map_updated
  apply_bottom_map_update u a o = elim (bottom_map_updated u a) [
    | none ↦ none
    | some b ↦ some (change (λ _. b) a o)
  ]
