-- ===== src/Scheduler/ImmediateSuccessor.antt =====
-- src/scheduling/schedulers/ImmediateSuccessorScheduler.cpp: a compute place keeps the first task that
-- it makes ready for itself; the others are in the queues.
use nanos.Common.{ℕ, Bool, true, false, Option, none, some, ◌∷◌, [], ◌||◌, ◌&&◌, not, if◌then◌else◌}
use nanos.Scheduler.{
  Scheduler, ReadyTask, ReadyTaskHint, is_unblocked, is_child, ComputePlace, Answer, nothing, task,
  get_replacement_task, take_data, is_host,
}
use nanos.Scheduler.IdleCpus.{cpu_becomes_idle}
use nanos.Scheduler.Naive.{resume_idle}

abbrev pub has_none : Option ReadyTask → Bool
has_none none = true
has_none (some t) = false

-- Whether `addReadyTask` leaves a task with the compute place that it is called from, if any.
unfoldable pub keeps : Option ℕ → ReadyTaskHint → Scheduler → Bool
unfolding take_data
keeps none hint s = false
keeps (some cpu) hint s =
    not (is_child hint) && not (is_unblocked hint) && has_none (take_data cpu s.scheduler_data).1

unfoldable pub push_data : Option ℕ → ReadyTask → Scheduler → Scheduler
push_data none t s = s
push_data (some cpu) t s = record s { scheduler_data = (cpu, t) ∷ s.scheduler_data }

-- The queue that `addReadyTask` puts an unblocked task or another one in.
unfoldable pub push_task : ReadyTask → Bool → Scheduler → Scheduler
push_task t unblocked s =
    if unblocked
    then record s { unblocked_tasks = t ∷ s.unblocked_tasks }
    else record s { ready_tasks = t ∷ s.ready_tasks }

-- The part of `addReadyTask` that holds the lock.
unfoldable pub queue_task : ReadyTask → ReadyTaskHint → Bool → Scheduler → Scheduler × Option ℕ
unfolding push_task resume_idle
queue_task t hint do_get_idle s = resume_idle do_get_idle (push_task t (is_unblocked hint) s)

-- `addReadyTask`, or nothing where it fails.
unfoldable pub add_ready_task :
    ReadyTask → Option ℕ → ReadyTaskHint → Bool → Scheduler → Option (Scheduler × Option ℕ)
unfolding keeps push_data queue_task is_host
add_ready_task t place hint do_get_idle s =
    if not (is_host t.device_type) || t.is_taskloop
    then none
    else if keeps place hint s
    then some (push_data place t s, none)
    else some (queue_task t hint do_get_idle s)

-- The part of `getReadyTask` that holds the lock.
unfoldable pub locked_section : ℕ → Bool → Scheduler → Scheduler × Answer
unfolding get_replacement_task
locked_section cpu can_mark_as_idle s =
    let (s', unblocked) = get_replacement_task s in
    elim unblocked [
      | some t ↦ (s', task t)
      | none ↦ elim s'.ready_tasks [
        | t ∷ rest ↦ (record s' { ready_tasks = rest }, task t)
        | [] ↦
            if can_mark_as_idle
            then (record s' { idle_cpus = cpu_becomes_idle cpu s'.idle_cpus }, nothing)
            else (s', nothing)
      ]
    ]

-- `getReadyTask`
unfoldable pub get_ready_task : ComputePlace → Bool → Scheduler → Scheduler × Answer
unfolding take_data locked_section is_host
get_ready_task place can_mark_as_idle s =
    if not (is_host place.type)
    then (s, nothing)
    else let (others, successor) = take_data place.virtual_cpu_id s.scheduler_data in
      elim successor [
        | some t ↦ (record s { scheduler_data = others }, task t)
        | none ↦ locked_section place.virtual_cpu_id can_mark_as_idle s
      ]

-- `disableComputePlace`
unfoldable pub disable_compute_place : ℕ → Scheduler → Scheduler
unfolding take_data
disable_compute_place cpu s =
    let (others, successor) = take_data cpu s.scheduler_data in
    elim successor [
      | some t ↦ record s { scheduler_data = others; ready_tasks = t ∷ s.ready_tasks }
      | none ↦ s
    ]
