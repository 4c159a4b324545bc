-- ===== src/Scheduler/Awake.antt =====
-- The queues of the immediate-successor scheduler, src/scheduling/schedulers, while a CPU sleeps.
use nanos.Common.{ℕ, ◌+◌, ◌≡◌, ◌≤◌, ◌<◌, Bool, true, none, ◌++◌, length, count, ◌⊎◌}
use nanos.Scheduler.{Scheduler, take_data}
use nanos.Scheduler.IdleCpus.{is_idle, any_idle}
use nanos.Scheduler.Naive as Naive
use nanos.Scheduler.ImmediateSuccessor as Immediate
use nanos.Scheduler.Interface.{to_list}
use nanos.Scheduler.Wakeup.{System, waiting}

-- If a CPU is idle then there are enough CPUs under way for the queued tasks; and a CPU that is idle, or
-- has just been resumed, has kept no task.
pub record Awake (y : System) : Type 0 where
  pub enough :
      any_idle y.scheduler.idle_cpus ≡ true
      → waiting y.scheduler ≤ length y.resumed + (y.owed + length y.to_ask)
  pub busy :
      (cpu : ℕ)
      → (is_idle cpu y.scheduler.idle_cpus ≡ true) ⊎ (0 < count cpu y.resumed)
      → (take_data cpu y.scheduler.scheduler_data).1 ≡ none

-- A system after the end of a call that has queued a task or not.
abbrev resumed_by : Bool → Scheduler → ℕ → System → System
resumed_by d s owed y = record {
  to_ask = y.to_ask;
  scheduler = (Naive.resume_idle d s).0;
  resumed = to_list (Naive.resume_idle d s).1 ++ y.resumed;
  owed = owed;
}
