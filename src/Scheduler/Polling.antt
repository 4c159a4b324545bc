-- ===== src/Scheduler/Polling.antt =====
-- src/scheduling/schedulers/ImmediateSuccessorWithPollingScheduler.cpp and the polling loop of
-- src/scheduling/Scheduler.cpp: one waiting thread at a time offers a slot on its stack, in which a task
-- is put directly. A slot is named by the CPU of its thread.
use nanos.Common.{
  ℕ, Bool, true, false, Option, none, some, List, [], ◌∷◌, ◌==◌, ◌||◌, not, if◌then◌else◌,
}
use nanos.Scheduler.{Scheduler, ReadyTask, ReadyTaskHint, take_data, is_host, get_replacement_task}
use nanos.Scheduler.IdleCpus.{cpu_becomes_idle}
use nanos.Scheduler.ImmediateSuccessor.{keeps, push_data, queue_task, has_none}

-- The scheduler, `_pollingSlot`, and the slots that hold a task.
pub record PollingScheduler : Type 0 where
  pub scheduler : Scheduler
  pub polling_slot : Option ℕ
  pub slots : List (ℕ × ReadyTask)

-- `polling_slot_t::getTask`
unfoldable pub get_task : ℕ → PollingScheduler → PollingScheduler × Option ReadyTask
unfolding take_data
get_task cpu p = let (others, found) = take_data cpu p.slots in (record p { slots = others }, found)

-- The compare-exchange of a slot that should be empty.
unfoldable pub set_task : ℕ → ReadyTask → PollingScheduler → PollingScheduler
unfolding take_data
set_task cpu t p =
    if has_none (take_data cpu p.slots).1 then record p { slots = (cpu, t) ∷ p.slots } else p

-- How far a call of `addReadyTask` has come: it has failed, it is over, it has to put the task in the
-- slot that it has obtained, or it has to take the lock.
pub data Progress : Type 0 where
  refused : Progress
  over : Option ℕ → Progress
  obtained : ℕ → Progress
  must_lock : Progress

-- `addReadyTask` up to the point at which it takes the lock.
unfoldable pub unlocked_add :
    ReadyTask → Option ℕ → ReadyTaskHint → PollingScheduler → PollingScheduler × Progress
unfolding keeps push_data is_host
unlocked_add t place hint p =
    if not (is_host t.device_type) || t.is_taskloop
    then (p, refused)
    else if keeps place hint p.scheduler
    then (record p { scheduler = push_data place t p.scheduler }, over none)
    else elim p.polling_slot [
      | some cpu ↦ (record p { polling_slot = none }, obtained cpu)
      | none ↦ (p, must_lock)
    ]

-- The rest of `addReadyTask`.
unfoldable pub locked_add :
    ReadyTask → ReadyTaskHint → Bool → PollingScheduler → PollingScheduler × Progress
unfolding queue_task
locked_add t hint do_get_idle p = elim p.polling_slot [
  | some cpu ↦ (record p { polling_slot = none }, obtained cpu)
  | none ↦
      let (s, cpu) = queue_task t hint do_get_idle p.scheduler in
      (record p { scheduler = s }, over cpu)
]

-- The end of `requestPolling`, when there is no task: offer the slot, or become idle.
unfoldable pub offer_slot : ℕ → PollingScheduler → PollingScheduler × Bool
offer_slot cpu p = elim p.polling_slot [
  | none ↦ (record p { polling_slot = some cpu }, true)
  | some other ↦ (
    record p {
      scheduler = record p.scheduler { idle_cpus = cpu_becomes_idle cpu p.scheduler.idle_cpus };
    },
    false,
  )
]

-- The part of `requestPolling` that holds the lock.
unfoldable pub locked_request : ℕ → PollingScheduler → PollingScheduler × Bool
unfolding get_replacement_task offer_slot
locked_request cpu p =
    let (s, unblocked) = get_replacement_task p.scheduler in
    elim unblocked [
      | some t ↦ (record p { scheduler = s; slots = (cpu, t) ∷ p.slots }, true)
      | none ↦ elim s.ready_tasks [
        | t ∷ rest ↦ (
          record p { scheduler = record s { ready_tasks = rest }; slots = (cpu, t) ∷ p.slots },
          true,
        )
        | [] ↦ offer_slot cpu p
      ]
    ]

unfoldable pub request_polling : ℕ → PollingScheduler → PollingScheduler × Bool
unfolding take_data locked_request
request_polling cpu p =
    let (others, successor) = take_data cpu p.scheduler.scheduler_data in
    elim successor [
      | some t ↦ (
        record p {
          scheduler = record p.scheduler { scheduler_data = others };
          slots = (cpu, t) ∷ p.slots;
        },
        true,
      )
      | none ↦ locked_request cpu p
    ]

abbrev pub is_slot : ℕ → Option ℕ → Bool
is_slot cpu none = false
is_slot cpu (some other) = cpu == other

unfoldable pub release_polling : ℕ → PollingScheduler → PollingScheduler × Bool
release_polling cpu p =
    if is_slot cpu p.polling_slot
    then (
      record p {
        scheduler = record p.scheduler { idle_cpus = cpu_becomes_idle cpu p.scheduler.idle_cpus };
        polling_slot = none;
      },
      true,
    )
    else (p, false)

-- `Scheduler::getReadyTask` from the end of its loop, with the task that the loop has found: whether
-- the threads must exit, and whether the CPU accepts work, at their tests after the loop.
unfoldable pub leave_loop :
    Bool → Bool → ℕ → Option ReadyTask → PollingScheduler → PollingScheduler × Option ReadyTask
unfolding release_polling get_task
leave_loop must_exit accepts_work cpu found p =
    let p' = if must_exit then (release_polling cpu p).0 else p in
    if accepts_work then (p', found) else get_task cpu (release_polling cpu p').0
