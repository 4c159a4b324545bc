-- ===== src/Scheduler/Delivery.antt =====
-- Threads that add tasks and threads that poll for them, one step after the other, while every CPU
-- accepts work and the runtime does not shut down.
use nanos.Common.{ℕ, ◌≡◌, Bool, Option, none, some, List, [], ◌∷◌, ◌++◌, if◌then◌else◌, count}
use nanos.Scheduler.{ReadyTask, ReadyTaskHint, Answer, task}
use nanos.Scheduler.ImmediateSuccessor as Immediate
use nanos.Scheduler.Interface.{empty_scheduler}
use nanos.Scheduler.Wakeup.{remove, host_cpu}
use nanos.Scheduler.Polling.{
  PollingScheduler, get_task, set_task, Progress, refused, over, obtained, must_lock, unlocked_add,
  locked_add, request_polling,
}

-- The tasks whose callers have obtained a slot and not yet filled it, those whose callers wait for the
-- lock, the CPUs that poll, the tasks that have been accepted, and the answers.
pub record System : Type 0 where
  pub shared : PollingScheduler
  pub delivering : List (ℕ × ReadyTask)
  pub locking : List ReadyTask
  pub polling : List ℕ
  pub accepted : List ReadyTask
  pub answers : List Answer

abbrev pub initial : List Bool → System
initial idle_cpus = record {
  shared = record { scheduler = empty_scheduler idle_cpus; polling_slot = none; slots = [] };
  delivering = [];
  locking = [];
  polling = [];
  accepted = [];
  answers = [];
}

-- A call of `addReadyTask` has made some progress.
abbrev pub advance : ReadyTask → PollingScheduler × Progress → System → System
advance t (p, refused) y = record y { shared = p }
advance t (p, over cpu) y = record y { shared = p; accepted = t ∷ y.accepted }
advance t (p, obtained cpu) y = record y {
  shared = p;
  delivering = (cpu, t) ∷ y.delivering;
  accepted = t ∷ y.accepted;
}
advance t (p, must_lock) y = record y {
  shared = p;
  locking = t ∷ y.locking;
  accepted = t ∷ y.accepted;
}

-- The same, from the lock on: the task has been accepted before.
abbrev pub advance_locked : ReadyTask → PollingScheduler × Progress → System → System
advance_locked t (p, obtained cpu) y = record y { shared = p; delivering = (cpu, t) ∷ y.delivering }
advance_locked t (p, must_lock) y = record y { shared = p; locking = t ∷ y.locking }
advance_locked t (p, _) y = record y { shared = p }

abbrev pub requested : ℕ → System → System
requested cpu y =
    let (p, waits) = request_polling cpu y.shared in
    record y { shared = p; polling = if waits then cpu ∷ y.polling else y.polling }

abbrev pub polled : ℕ → ReadyTask → System → System
polled cpu t y = record y {
  shared = (get_task cpu y.shared).0;
  polling = remove cpu y.polling;
  answers = task t ∷ y.answers;
}

abbrev pub asked : ℕ → Bool → System → System
asked cpu can_mark_as_idle y =
    let (s, answer) = Immediate.get_ready_task (host_cpu cpu) can_mark_as_idle y.shared.scheduler in
    record y { shared = record y.shared { scheduler = s }; answers = answer ∷ y.answers }

pub data Step (y : System) : System → Type 0 where
  adds :
      (t : ReadyTask) (place : Option ℕ) (hint : ReadyTaskHint)
      → Step y (advance t (unlocked_add t place hint y.shared) y)
  locks :
      (t : ReadyTask) (hint : ReadyTaskHint) (do_get_idle : Bool) (before after : List ReadyTask)
      → y.locking ≡ before ++ t ∷ after
      → Step y (
          advance_locked t
            (locked_add t hint do_get_idle y.shared)
            (record y { locking = before ++ after }))
  delivers :
      (cpu : ℕ) (t : ReadyTask) (before after : List (ℕ × ReadyTask))
      → y.delivering ≡ before ++ (cpu, t) ∷ after
      → Step y (record y { shared = set_task cpu t y.shared; delivering = before ++ after })
  requests : (cpu : ℕ) → count cpu y.polling ≡ 0 → Step y (requested cpu y)
  polls : (cpu : ℕ) (t : ReadyTask) → (get_task cpu y.shared).1 ≡ some t → Step y (polled cpu t y)
  asks : (cpu : ℕ) (can_mark_as_idle : Bool) → Step y (asked cpu can_mark_as_idle y)

pub data Reach (idle_cpus : List Bool) : System → Type 0 where
  start : Reach idle_cpus (initial idle_cpus)
  next : {y z : System} → Reach idle_cpus y → Step y z → Reach idle_cpus z
