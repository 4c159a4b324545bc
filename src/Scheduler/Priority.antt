-- ===== src/Scheduler/Priority.antt =====
-- src/scheduling/schedulers/PriorityScheduler.cpp, the default scheduler, without its polling slot,
-- which works as in Polling: a map from the negated priority to a queue.
use nanos.Common.{
  ℕ, ◌-◌, ◌^◌, Bool, true, false, Option, none, some, List, [], ◌∷◌, ◌++◌, ◌==◌, ◌||◌, not, ltb,
  if◌then◌else◌,
}
use nanos.Scheduler.{
  ReadyTask, ReadyTaskHint, is_unblocked, is_child, no_hint, sibling_task_hint, take_data, is_host,
  ComputePlace,
}
use nanos.Scheduler.IdleCpus.{cpu_becomes_idle, get_idle_cpu}

-- `_tasks` in the order of its keys, `_schedulerData` and the idle CPUs.
pub record PriorityScheduler : Type 0 where
  pub tasks : List (ℕ × List ReadyTask)
  pub scheduler_data : List (ℕ × ReadyTask)
  pub idle_cpus : List Bool

-- The key of a priority, `-priority`, plus 2 ^ 63.
abbrev pub key : ℕ → ℕ
key priority = 2 ^ 64 - priority

-- A task joins the class of a key, at the front or at the back; the class is new if there is none.
unfoldable pub push : Bool → ℕ → ReadyTask → List (ℕ × List ReadyTask) → List (ℕ × List ReadyTask)
push front k t [] = (k, t ∷ []) ∷ []
push front k t ((k', queue) ∷ rest) =
    let others = push front k t rest in
    if k == k'
    then (k', if front then t ∷ queue else queue ++ t ∷ []) ∷ rest
    else if ltb k k'
    then (k, t ∷ []) ∷ (k', queue) ∷ rest
    else (k', queue) ∷ others

-- Whether `addReadyTask` leaves a task with the compute place that it is called from.
unfoldable pub leaves_with : ReadyTaskHint → Option ReadyTask → Bool
leaves_with no_hint none = true
leaves_with sibling_task_hint none = true
leaves_with _ _ = false

-- The end of `addReadyTask`, with the CPU that is resumed if one is asked for.
unfoldable pub queue_task :
    ReadyTask → ReadyTaskHint → Bool → PriorityScheduler → PriorityScheduler × Option ℕ
unfolding push
queue_task t hint do_get_idle s =
    let tasks = push (is_unblocked hint || is_child hint) (key t.priority) t s.tasks in
    let (others, cpu) = get_idle_cpu s.idle_cpus in
    if do_get_idle
    then (record s { tasks = tasks; idle_cpus = others }, cpu)
    else (record s { tasks = tasks }, none)

-- The data of the compute place that calls, if any, and whether the task stays there.
unfoldable pub stays : Option ℕ → ReadyTaskHint → PriorityScheduler → Bool
unfolding leaves_with take_data
stays none hint s = false
stays (some cpu) hint s = leaves_with hint (take_data cpu s.scheduler_data).1

unfoldable pub keep_task : Option ℕ → ReadyTask → PriorityScheduler → PriorityScheduler
keep_task none t s = s
keep_task (some cpu) t s = record s { scheduler_data = (cpu, t) ∷ s.scheduler_data }

-- `addReadyTask`, when no thread polls, or nothing where it fails.
unfoldable pub add_ready_task :
    ReadyTask
    → Option ℕ
    → ReadyTaskHint
    → Bool
    → PriorityScheduler
    → Option (PriorityScheduler × Option ℕ)
unfolding queue_task stays keep_task is_host
add_ready_task t place hint do_get_idle s =
    if not (is_host t.device_type) || t.is_taskloop
    then none
    else if stays place hint s
    then some (keep_task place t s, none)
    else some (queue_task t hint do_get_idle s)

-- Whether the first task of the highest class goes before the immediate successor.
unfoldable pub goes_before : ReadyTask → Option ReadyTask → Bool
goes_before t none = true
goes_before t (some successor) = ltb successor.priority t.priority

-- The map when the first task of its first class has been removed, and an empty class erased.
abbrev pub pop_front : ℕ → List ReadyTask → List (ℕ × List ReadyTask) → List (ℕ × List ReadyTask)
pop_front k [] rest = rest
pop_front k (t ∷ queue) rest = (k, t ∷ queue) ∷ rest

-- The immediate successor that was not chosen is queued.
unfoldable pub requeue : Option ReadyTask → List (ℕ × List ReadyTask) → List (ℕ × List ReadyTask)
unfolding push
requeue none tasks = tasks
requeue (some successor) tasks = push false (key successor.priority) successor tasks

-- The choice between the immediate successor and the classes: the map afterwards and the task. In
-- a well-formed map no class is empty.
unfoldable pub choose :
    Option ReadyTask → List (ℕ × List ReadyTask) → List (ℕ × List ReadyTask) × Option ReadyTask
unfolding goes_before requeue
choose successor [] = ([], successor)
choose successor ((k, []) ∷ rest) = ((k, []) ∷ rest, successor)
choose successor ((k, t ∷ queue) ∷ rest) =
    if goes_before t successor
    then (requeue successor (pop_front k queue rest), some t)
    else ((k, t ∷ queue) ∷ rest, successor)

-- `getReadyTask`
unfoldable pub get_ready_task :
    ComputePlace → Bool → PriorityScheduler → PriorityScheduler × Option ReadyTask
unfolding take_data choose is_host
get_ready_task place can_mark_as_idle s =
    if not (is_host place.type)
    then (s, none)
    else let (others, successor) = take_data place.virtual_cpu_id s.scheduler_data in
      let (tasks, found) = choose successor s.tasks in
      elim found [
        | some t ↦ (record s { tasks = tasks; scheduler_data = others }, some t)
        | none ↦ (
          if can_mark_as_idle
              then record s { idle_cpus = cpu_becomes_idle place.virtual_cpu_id s.idle_cpus }
              else s,
          none,
        )
      ]

-- `disableComputePlace`
unfoldable pub disable_compute_place : ℕ → PriorityScheduler → PriorityScheduler
unfolding take_data requeue
disable_compute_place cpu s =
    let (others, successor) = take_data cpu s.scheduler_data in
    record s { tasks = requeue successor s.tasks; scheduler_data = others }
