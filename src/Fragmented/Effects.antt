-- ===== src/Fragmented/Effects.antt =====
-- `DataAccessStatusEffects` of src/dependencies/linear-regions-fragmented/DataAccessRegistration.cpp:
-- what the status of an access means for its task, its next access and its fragments.
use nanos.Common.{ℕ, Bool, false, ◌&&◌, ◌||◌, not, none, some, ◌==◌, if◌then◌else◌}
use nanos.AccessType.{is_read, is_write, is_readwrite, is_concurrent, is_reduction}
use nanos.Fragmented.Access.{
  DataAccess, DataAccessObjectType, is_access, is_taskwait, is_top_level_sink, same_info, is_null,
  has_next, satisfied,
}

-- What goes to the next access, or to the fragments.
pub record Propagation : Type 0 where
  pub read_satisfiability : Bool
  pub write_satisfiability : Bool
  pub concurrent_satisfiability : Bool
  pub reduction_info : Bool
  pub reduction_cpu_set : Bool

abbrev pub no_propagation : Propagation
no_propagation = record {
  read_satisfiability = false;
  write_satisfiability = false;
  concurrent_satisfiability = false;
  reduction_info = false;
  reduction_cpu_set = false;
}

pub record StatusEffects : Type 0 where
  pub is_registered : Bool
  pub is_satisfied : Bool
  pub enforces_dependency : Bool
  pub has_next : Bool
  pub to_next : Propagation
  pub makes_next_topmost : Bool
  pub propagates_top_level : Bool
  pub to_fragments : Propagation
  pub closes_previous_reduction : Bool
  pub links_bottom_map_accesses_to_next_and_inhibits_propagation : Bool
  pub is_removable : Bool

-- The constructor with no argument.
abbrev pub no_effects : StatusEffects
no_effects = record {
  is_registered = false;
  is_satisfied = false;
  enforces_dependency = false;
  has_next = false;
  to_next = no_propagation;
  makes_next_topmost = false;
  propagates_top_level = false;
  to_fragments = no_propagation;
  closes_previous_reduction = false;
  links_bottom_map_accesses_to_next_and_inhibits_propagation = false;
  is_removable = false;
}

abbrev pub has_reduction_info : DataAccess → Bool
has_reduction_info a = a.received_reduction_info || a.allocated_reduction_info

-- A write or readwrite access propagates a `ReductionInfo` through its fragments only.
abbrev pub writes : DataAccess → Bool
writes a = is_write a.type || is_readwrite a.type

-- Whether the CPUs of a finished reduction go to the next access.
abbrev pub sends_cpu_set : DataAccess → Bool
sends_cpu_set a =
    is_reduction a.type
    && a.complete
    && a.received_reduction_info
    && (not (same_info a.reduction_info a.previous_reduction_info) || a.received_reduction_cpu_set)

unfoldable pub propagation_to_fragments : DataAccess → Propagation
propagation_to_fragments a =
    if a.has_subaccesses
    then record {
      read_satisfiability = a.read_satisfied;
      write_satisfiability = a.write_satisfied;
      concurrent_satisfiability = a.concurrent_satisfied;
      reduction_info = has_reduction_info a;
      reduction_cpu_set = a.received_reduction_cpu_set;
    }
    else no_propagation

-- The three cases of an access with a next: with subaccesses, a fragment, taskwait or top level sink,
-- and a regular access without subaccesses.
unfoldable pub with_subaccesses : DataAccess → Propagation
with_subaccesses a = record {
  read_satisfiability =
      not a.read_satisfiability_propagation_inhibited && a.read_satisfied && is_read a.type;
  write_satisfiability = false;
  concurrent_satisfiability =
      not a.concurrent_satisfiability_propagation_inhibited
      && a.concurrent_satisfied
      && is_concurrent a.type;
  reduction_info =
      not a.reduction_info_propagation_inhibited && has_reduction_info a && not (writes a);
  reduction_cpu_set = false;
}

unfoldable pub of_fragment : DataAccess → Propagation
of_fragment a = record {
  read_satisfiability = not a.read_satisfiability_propagation_inhibited && a.read_satisfied;
  write_satisfiability = a.write_satisfied;
  concurrent_satisfiability =
      not a.concurrent_satisfiability_propagation_inhibited && a.concurrent_satisfied;
  reduction_info = not a.reduction_info_propagation_inhibited && has_reduction_info a;
  reduction_cpu_set = sends_cpu_set a;
}

unfoldable pub without_subaccesses : DataAccess → Propagation
without_subaccesses a = record {
  read_satisfiability =
      not a.read_satisfiability_propagation_inhibited
      && a.read_satisfied
      && (is_read a.type || a.complete);
  write_satisfiability = a.write_satisfied && a.complete;
  concurrent_satisfiability =
      not a.concurrent_satisfiability_propagation_inhibited
      && a.concurrent_satisfied
      && (is_concurrent a.type || a.complete);
  reduction_info =
      not a.reduction_info_propagation_inhibited
      && has_reduction_info a
      && (not (writes a) || a.complete);
  reduction_cpu_set = sends_cpu_set a;
}

unfoldable pub propagation_to_next : DataAccess → Propagation
unfolding with_subaccesses of_fragment without_subaccesses
propagation_to_next a =
    if has_next a
    then (if a.has_subaccesses
        then with_subaccesses a
        else if is_access a.object_type
        then without_subaccesses a
        else of_fragment a)
    else no_propagation

unfoldable pub is_removable : DataAccess → Bool
is_removable a =
    a.topmost
    && a.read_satisfied
    && a.write_satisfied
    && a.received_reduction_info
    && (is_null a.previous_reduction_info || a.received_reduction_cpu_set)
    && a.complete
    && (not a.in_bottom_map
        || has_next a
        || is_taskwait a.object_type
        || is_top_level_sink a.object_type)

unfoldable pub enforces_dependency : DataAccess → Bool
unfolding satisfied
enforces_dependency a =
    not a.weak
    && not (satisfied a)
    && not (is_reduction a.type && has_reduction_info a)
    && is_access a.object_type

unfoldable pub closes_previous_reduction : DataAccess → Bool
closes_previous_reduction a =
    a.write_satisfied
    && a.received_reduction_info
    && a.received_reduction_cpu_set
    && not (is_null a.previous_reduction_info)
    && ((is_taskwait a.object_type && not (is_reduction a.type))
        || (is_access a.object_type && not (same_info a.reduction_info a.previous_reduction_info)))

-- The parent of each task.
module _ (parent : ℕ → ℕ) where
  -- The task in whose domain an object stands.
  abbrev pub domain_parent : DataAccessObjectType → ℕ → ℕ
  domain_parent object_type task = if is_access object_type then parent task else task

  abbrev pub has_next_in_domain : DataAccess → Bool
  has_next_in_domain a = elim a.next [
    | none ↦ false
    | some l ↦ domain_parent a.object_type a.originator == domain_parent l.object_type l.task
  ]

  abbrev pub has_next_sibling : DataAccess → Bool
  has_next_sibling a = elim a.next [ none ↦ false | some l ↦ parent a.originator == parent l.task ]

  -- The constructor from an access.
  unfoldable pub effects : DataAccess → StatusEffects
  unfolding propagation_to_next propagation_to_fragments is_removable enforces_dependency
      closes_previous_reduction satisfied
  effects a = record {
    is_registered = a.registered;
    is_satisfied = satisfied a;
    enforces_dependency = enforces_dependency a;
    has_next = has_next a;
    to_next = propagation_to_next a;
    makes_next_topmost = is_removable a && has_next_in_domain a;
    propagates_top_level = a.top_level && has_next_sibling a;
    to_fragments = propagation_to_fragments a;
    closes_previous_reduction = closes_previous_reduction a;
    links_bottom_map_accesses_to_next_and_inhibits_propagation =
        has_next a && a.complete && a.has_subaccesses;
    is_removable = is_removable a;
  }
