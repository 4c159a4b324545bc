-- ===== src/Fragmented/Changes.antt =====
-- `handleDataAccessStatusChanges` of src/dependencies/linear-regions-fragmented/DataAccessRegistration.cpp:
-- what follows when the effects of an access change. The operations that it delays are its results.
use nanos.Common.{
  ℕ, ◌+◌, Bool, true, false, ◌&&◌, ◌||◌, not, Option, none, some, List, [], ◌∷◌, ◌==◌,
  if◌then◌else◌,
}
use nanos.AccessType.{DataAccessType, is_read, is_concurrent, is_write, is_readwrite, is_reduction}
use nanos.Task.Counter.{increase, decrease}
use nanos.Task.Lifecycle.{Task, increase_removal_blocking_count, decrease_removal_blocking_count}
use nanos.Fragmented.Access.{
  DataAccess, DataAccessLink, fragment_type, ReductionInfo, is_taskwait, same_info,
}
use nanos.Fragmented.Effects.{StatusEffects}

-- `CPUDependencyData::UpdateOperation`; its region is the region of all objects here.
pub record UpdateOperation : Type 0 where
  pub target : DataAccessLink
  pub make_read_satisfied : Bool
  pub make_write_satisfied : Bool
  pub make_concurrent_satisfied : Bool
  pub make_topmost : Bool
  pub make_top_level : Bool
  pub set_reduction_info : Bool
  pub reduction_info : Option ReductionInfo
  pub reduction_cpu_set : List Bool

-- Whether a set of CPUs has a size.
abbrev pub sized : List Bool → Bool
sized [] = false
sized (b ∷ bs) = true

-- `UpdateOperation::empty`
unfoldable pub is_empty_operation : UpdateOperation → Bool
is_empty_operation u =
    not u.make_read_satisfied
    && not u.make_write_satisfied
    && not u.make_concurrent_satisfied
    && not u.make_topmost
    && not u.make_top_level
    && not u.set_reduction_info
    && not (sized u.reduction_cpu_set)

-- `BottomMapUpdateOperation`, for the accesses in the bottom map of the task.
pub record BottomMapUpdateOperation : Type 0 where
  pub parent_access_type : DataAccessType
  pub inhibit_read_satisfiability_propagation : Bool
  pub inhibit_concurrent_satisfiability_propagation : Bool
  pub inhibit_reduction_info_propagation : Bool
  pub next : Option DataAccessLink

-- The task of an access, with the counters of its `TaskDataAccesses`, its predecessor counter, and how
-- often it has been put on the lists of satisfied originators and of removable tasks.
pub record Owner : Type 0 where
  pub task : Task
  pub removal_blockers : ℕ
  pub live_taskwait_fragments : ℕ
  pub predecessors : ℕ
  pub ready : ℕ
  pub removable : ℕ

-- All that a call does.
pub record Changes : Type 0 where
  pub access : DataAccess
  pub owner : Owner
  pub to_next : List UpdateOperation
  pub to_fragments : List UpdateOperation
  pub bottom_map_update : Option BottomMapUpdateOperation
  pub combines_region : Bool

abbrev pub differs : Bool → Bool → Bool
differs true b = not b
differs false b = b

-- Registration: the access is counted.
unfoldable pub count_access : StatusEffects → StatusEffects → DataAccess → Owner → Owner
unfolding increase increase_removal_blocking_count
count_access initial updated a o =
    let blocked =
      if o.removal_blockers == 0
      then record o { task = increase_removal_blocking_count o.task }
      else o in
    let counted = record blocked {
      removal_blockers = increase o.removal_blockers 1;
      live_taskwait_fragments =
          (if is_taskwait a.object_type
            then increase o.live_taskwait_fragments 1
            else o.live_taskwait_fragments);
    } in
    let o' = if initial.is_removable then o else counted in
    if updated.enforces_dependency
    then record o' { predecessors = increase o'.predecessors 1 }
    else o'

-- `decreasePredecessors`, and the list of satisfied originators.
unfoldable pub discount_predecessors : ℕ → Owner → Owner
unfolding decrease
discount_predecessors amount o =
    let c = decrease o.predecessors amount in
    record o { predecessors = c; ready = if c == 0 then o.ready + 1 else o.ready }

-- Dependency updates.
unfoldable pub update_dependency : StatusEffects → StatusEffects → Owner → Owner
unfolding discount_predecessors
update_dependency initial updated o =
    if differs initial.enforces_dependency updated.enforces_dependency
    then (if updated.enforces_dependency then o else discount_predecessors 1 o)
    else o

-- `access->getReductionCpuSet() |= access->getPreviousReductionCpuSet()`, if the reduction is the same.
abbrev pub or_bits : List Bool → List Bool → List Bool
or_bits [] cs = []
or_bits (b ∷ bs) [] = b ∷ bs
or_bits (b ∷ bs) (c ∷ cs) = (b || c) ∷ or_bits bs cs

abbrev pub joined_cpu_set : DataAccess → List Bool
joined_cpu_set a =
    if same_info a.reduction_info a.previous_reduction_info
    then or_bits a.reduction_cpu_set a.previous_reduction_cpu_set
    else a.reduction_cpu_set

abbrev pub delayed : UpdateOperation → List UpdateOperation
delayed u = if is_empty_operation u then [] else u ∷ []

-- Propagation to Next: the access and the operation.
unfoldable pub propagate_to_next :
    StatusEffects → StatusEffects → DataAccess → DataAccessLink → DataAccess × List UpdateOperation
unfolding is_empty_operation
propagate_to_next initial updated a link =
    let sends_cpus = differs initial.to_next.reduction_cpu_set updated.to_next.reduction_cpu_set in
    let cpus = joined_cpu_set a in
    let sends_info = differs initial.to_next.reduction_info updated.to_next.reduction_info in
    (
      (if sends_cpus then record a { reduction_cpu_set = cpus } else a),
      delayed (record {
        target = link;
        make_read_satisfied =
            differs initial.to_next.read_satisfiability updated.to_next.read_satisfiability;
        make_write_satisfied =
            differs initial.to_next.write_satisfiability updated.to_next.write_satisfiability;
        make_concurrent_satisfied =
            differs initial.to_next.concurrent_satisfiability
              updated.to_next.concurrent_satisfiability;
        make_topmost = differs initial.makes_next_topmost updated.makes_next_topmost;
        make_top_level = differs initial.propagates_top_level updated.propagates_top_level;
        set_reduction_info = sends_info;
        reduction_info = if sends_info then a.reduction_info else none;
        reduction_cpu_set = if sends_cpus then cpus else [];
      }),
    )

-- Propagation to Fragments: the access and the operation.
unfoldable pub propagate_to_fragments :
    StatusEffects → StatusEffects → DataAccess → DataAccess × List UpdateOperation
unfolding is_empty_operation
propagate_to_fragments initial updated a =
    let sends_cpus =
      differs initial.to_fragments.reduction_cpu_set updated.to_fragments.reduction_cpu_set in
    let cpus = if is_reduction a.type then joined_cpu_set a else a.previous_reduction_cpu_set in
    let sends_info =
      differs initial.to_fragments.reduction_info updated.to_fragments.reduction_info in
    (
      (if sends_cpus && is_reduction a.type then record a { reduction_cpu_set = cpus } else a),
      delayed (record {
        target = record { task = a.originator; object_type = fragment_type };
        make_read_satisfied =
            differs initial.to_fragments.read_satisfiability
              updated.to_fragments.read_satisfiability;
        make_write_satisfied =
            differs initial.to_fragments.write_satisfiability
              updated.to_fragments.write_satisfiability;
        make_concurrent_satisfied =
            differs initial.to_fragments.concurrent_satisfiability
              updated.to_fragments.concurrent_satisfiability;
        make_topmost = false;
        make_top_level = false;
        set_reduction_info = sends_info;
        reduction_info = if sends_info then a.reduction_info else none;
        reduction_cpu_set = if sends_cpus then cpus else [];
      }),
    )

-- Bottom Map Updates.
unfoldable pub bottom_map_operation : DataAccess → BottomMapUpdateOperation
bottom_map_operation a = record {
  parent_access_type = a.type;
  inhibit_read_satisfiability_propagation = is_read a.type;
  inhibit_concurrent_satisfiability_propagation = is_concurrent a.type;
  inhibit_reduction_info_propagation = not (is_write a.type) && not (is_readwrite a.type);
  next = a.next;
}

-- `decreaseRemovalBlockingCount`, and the list of removable tasks.
unfoldable pub discount_removal : Owner → Owner
unfolding decrease_removal_blocking_count
discount_removal o =
    let (task, ended) = decrease_removal_blocking_count o.task in
    record o { task = task; removable = if ended then o.removable + 1 else o.removable }

-- Removable.
unfoldable pub discount_access : DataAccess → Owner → Owner
unfolding decrease discount_removal
discount_access a o =
    let blockers = decrease o.removal_blockers 1 in
    let fragments = decrease o.live_taskwait_fragments 1 in
    let ended = record o { live_taskwait_fragments = fragments } in
    let o' =
      if is_taskwait a.object_type
      then (if fragments == 0 then discount_removal ended else ended)
      else o in
    let o'' = record o' { removal_blockers = blockers } in
    if blockers == 0 then discount_removal o'' else o''

-- Propagation to Next, if there is one.
unfoldable pub next_operations :
    StatusEffects
    → StatusEffects
    → DataAccess
    → Option DataAccessLink
    → DataAccess × List UpdateOperation
next_operations initial updated a none = (a, [])
next_operations initial updated a (some l) = propagate_to_next initial updated a l

-- Propagation to Fragments, if there are any.
unfoldable pub fragment_operations :
    StatusEffects → StatusEffects → DataAccess → DataAccess × List UpdateOperation
fragment_operations initial updated a =
    if a.has_subaccesses then propagate_to_fragments initial updated a else (a, [])

unfoldable pub linked_bottom_map :
    StatusEffects → StatusEffects → DataAccess → Option BottomMapUpdateOperation
linked_bottom_map initial updated a =
    if a.has_subaccesses
      && differs initial.links_bottom_map_accesses_to_next_and_inhibits_propagation
          updated.links_bottom_map_accesses_to_next_and_inhibits_propagation
    then some (bottom_map_operation a)
    else none

-- The counters of the task: up to the return for an access that is not registered, and all.
unfoldable pub registration_changes : StatusEffects → StatusEffects → DataAccess → Owner → Owner
unfolding count_access
registration_changes initial updated a o =
    if differs initial.is_registered updated.is_registered
    then count_access initial updated a o
    else o

unfoldable pub owner_changes : StatusEffects → StatusEffects → DataAccess → Owner → Owner
unfolding registration_changes update_dependency discount_access
owner_changes initial updated a o =
    let o' = update_dependency initial updated (registration_changes initial updated a o) in
    if differs initial.is_removable updated.is_removable then discount_access a o' else o'

unfoldable pub handle_data_access_status_changes :
    StatusEffects → StatusEffects → DataAccess → Owner → Changes
handle_data_access_status_changes initial updated a o =
    let (a1, to_next) = next_operations initial updated a a.next in
    let (a2, to_fragments) = fragment_operations initial updated a1 in
    if updated.is_registered
    then record {
      access = a2;
      owner = owner_changes initial updated a o;
      to_next = to_next;
      to_fragments = to_fragments;
      bottom_map_update = linked_bottom_map initial updated a;
      combines_region = differs initial.closes_previous_reduction updated.closes_previous_reduction;
    }
    else record {
      access = a;
      owner = registration_changes initial updated a o;
      to_next = [];
      to_fragments = [];
      bottom_map_update = none;
      combines_region = false;
    }
