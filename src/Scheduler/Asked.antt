-- ===== src/Scheduler/Asked.antt =====
-- The CPUs that have queued an unblocked task in src/scheduling/Scheduler.hpp and go on to ask for one.
use nanos.Common.{ℕ, ◌≡◌, refl, Bool, true, some, List, count, arith}
use nanos.Scheduler.{is_host, get_replacement_task}
use nanos.Scheduler.IdleCpus.{is_idle, is_idle-cpu_becomes_idle}
use nanos.Scheduler.Naive as Naive
use nanos.Scheduler.ImmediateSuccessor as Immediate
use nanos.Scheduler.Wakeup.{
  System, asked, disabled, Step, adds, asks, settles, disables, unblocks, takes, Reach, start, next,
}
use nanos.Scheduler.Calls.{
  count-remove, count-remove_all, count-remove_all-same, is_idle-resume_idle, is_idle-schedule,
}

-- An idle CPU has not left a task in the queues without asking for one since.
abbrev pub NoneIdle : System → Type 0
NoneIdle y = (cpu : ℕ) → is_idle cpu y.scheduler.idle_cpus ≡ true → count cpu y.to_ask ≡ 0

asked-NoneIdle : (cpu : ℕ) (y : System) → NoneIdle y → NoneIdle (asked cpu y)
unfolding Immediate.get_ready_task Immediate.locked_section get_replacement_task is_host
asked-NoneIdle cpu y h c i = ground (
  arith,
  h c,
  count-remove c cpu y.to_ask,
  count-remove_all c cpu y.to_ask,
  count-remove_all-same cpu y.to_ask,
  is_idle-cpu_becomes_idle c cpu y.scheduler.idle_cpus,
)

disabled-NoneIdle : (cpu : ℕ) (y : System) → NoneIdle y → NoneIdle (disabled cpu y)
unfolding Immediate.disable_compute_place
disabled-NoneIdle cpu y h c i = ground (arith, h c)

Step-NoneIdle : {y z : System} → Step y z → NoneIdle y → NoneIdle z
unfolding Naive.get_idle_compute_place
Step-NoneIdle {y} (adds t place hint r run e) h c i =
    h c (is_idle-schedule t place hint y.scheduler r c e i)
Step-NoneIdle {y} (unblocks t cpu hint r run u e) h c i =
    ground (arith, h c, run.0, is_idle-schedule t (some cpu) hint y.scheduler r c e i)
Step-NoneIdle {y} takes h c i = h c (is_idle-resume_idle _ y.scheduler c i)
Step-NoneIdle {y} (asks cpu e) h c i = asked-NoneIdle cpu y h c i
Step-NoneIdle {y} (settles owed e) h c i = h c (is_idle-resume_idle _ y.scheduler c i)
Step-NoneIdle {y} (disables cpu) h c i = disabled-NoneIdle cpu y h c i

pub Reach-NoneIdle : {idle_cpus : List Bool} {y : System} → Reach idle_cpus y → NoneIdle y
Reach-NoneIdle start = λ c i. refl
Reach-NoneIdle (next r st) = Step-NoneIdle st (Reach-NoneIdle r)
