-- ===== src/Scheduler/Naive.antt =====
-- src/scheduling/schedulers/NaiveScheduler.cpp: both queues are stacks.
use nanos.Common.{ℕ, Bool, false, Option, none, some, List, ◌∷◌, [], ◌++◌, ◌||◌, not, if◌then◌else◌}
use mathlib.Core.Option.{map}
use nanos.Scheduler.{
  is_empty, Scheduler, ReadyTask, ReadyTaskHint, is_unblocked, ComputePlace, TaskloopView, Answer,
  nothing, recheck, task, collaborator, get_replacement_task, is_host,
}
use nanos.Scheduler.IdleCpus.{get_idle_cpu, cpu_becomes_idle}

-- The end of `addReadyTask`.
unfoldable pub resume_idle : Bool → Scheduler → Scheduler × Option ℕ
resume_idle do_get_idle s =
    let (others, cpu) = get_idle_cpu s.idle_cpus in
    if do_get_idle then (record s { idle_cpus = others }, cpu) else (s, none)

-- `NaiveScheduler::addReadyTask`, or nothing where it fails.
unfoldable pub add_ready_task :
    ReadyTask → ReadyTaskHint → Bool → Scheduler → Option (Scheduler × Option ℕ)
unfolding resume_idle is_host
add_ready_task t hint do_get_idle s =
    if not (is_host t.device_type)
    then none
    else some (
        resume_idle do_get_idle (
          if is_unblocked hint
          then record s { unblocked_tasks = t ∷ s.unblocked_tasks }
          else record s { ready_tasks = t ∷ s.ready_tasks }))

-- The loop over `_readyTasks`: the queue that it leaves, the task that it finds, and the taskloops that
-- it removes because they have no pending iterations.
unfoldable pub search_queue :
    TaskloopView → List ReadyTask → List ReadyTask × Option ReadyTask × List ReadyTask
search_queue view [] = ([], none, [])
search_queue view (t ∷ rest) =
    let (left, found, complete) = search_queue view rest in
    if not t.is_taskloop
    then (rest, some t, [])
    else if view.has_pending_iterations t
    then (if view.is_requeue_enabled then rest ++ t ∷ [] else t ∷ rest, some t, [])
    else (left, found, t ∷ complete)

unfoldable pub any_finished : TaskloopView → List ReadyTask → Bool
any_finished view [] = false
any_finished view (t ∷ rest) = view.mark_as_finished t || any_finished view rest

unfoldable pub answer_with : ReadyTask → Answer
answer_with t = if t.is_taskloop then collaborator t else task t

-- The part of `getReadyTask` that holds the lock: what it assigns, and the taskloops that it removes.
unfoldable pub locked_section :
    TaskloopView → Scheduler → Scheduler × Option Answer × List ReadyTask
unfolding get_replacement_task search_queue answer_with
locked_section view s =
    let (s', unblocked) = get_replacement_task s in
    elim unblocked [
      | some t ↦ (s', some (task t), [])
      | none ↦
          let (left, found, complete) = search_queue view s'.ready_tasks in
          (record s' { ready_tasks = left }, map answer_with found, complete)
    ]

-- The rest of `getReadyTask`, after it has released the lock.
unfoldable pub unlocked_section :
    TaskloopView
    → ComputePlace
    → Bool
    → List ReadyTask
    → Option Answer
    → Scheduler
    → Scheduler × Answer
unfolding any_finished
unlocked_section view place can_mark_as_idle complete (some answer) s = (s, answer)
unlocked_section view place can_mark_as_idle complete none s =
    if any_finished view complete
    then (s, recheck)
    else if can_mark_as_idle
    then (record s { idle_cpus = cpu_becomes_idle place.virtual_cpu_id s.idle_cpus }, nothing)
    else (s, nothing)

-- `getReadyTask`, when nothing happens between its two parts.
unfoldable pub get_ready_task : TaskloopView → ComputePlace → Bool → Scheduler → Scheduler × Answer
unfolding locked_section unlocked_section is_host
get_ready_task view place can_mark_as_idle s =
    if not (is_host place.type)
    then (s, nothing)
    else let (s', found, complete) = locked_section view s in
      unlocked_section view place can_mark_as_idle complete found s'

-- `getIdleComputePlace`
unfoldable pub get_idle_compute_place : Bool → Scheduler → Scheduler × Option ℕ
unfolding resume_idle
get_idle_compute_place force s =
    resume_idle (force || not (is_empty s.ready_tasks) || not (is_empty s.unblocked_tasks)) s
