-- ===== src/Scheduler/Wakeup.antt =====
-- The immediate-successor scheduler with the CPUs that sleep and are resumed: the calls of
-- src/scheduling/Scheduler.hpp in the order in which they get the lock.
use nanos.Common.{
  ℕ, suc, ◌+◌, ◌≡◌, Bool, true, false, Option, none, some, List, [], ◌∷◌, ◌++◌, length, count, ◌==◌,
  if◌then◌else◌,
}
use nanos.Scheduler.{
  take_data, Scheduler, ReadyTask, ReadyTaskHint, is_unblocked, ComputePlace, host_device,
}
use nanos.Scheduler.IdleCpus.{is_idle}
use nanos.Scheduler.Naive as Naive
use nanos.Scheduler.ImmediateSuccessor as Immediate
use nanos.Scheduler.Interface.{immediate_successor, schedule, to_list, empty_scheduler}

-- The scheduler; the CPUs that ask for a task next, since they have been resumed; how many calls of
-- `getIdleComputePlace` are under way, by threads that have queued an unblocked task or disabled a
-- CPU; and, once for each unblocked task, the CPUs that have queued one without such a call, and have
-- not asked the queues since.
pub record System : Type 0 where
  pub scheduler : Scheduler
  pub resumed : List ℕ
  pub owed : ℕ
  pub to_ask : List ℕ

abbrev pub remove : ℕ → List ℕ → List ℕ
remove cpu [] = []
remove cpu (c ∷ rest) = let others = remove cpu rest in if cpu == c then rest else c ∷ others

abbrev pub host_cpu : ℕ → ComputePlace
host_cpu cpu = record { virtual_cpu_id = cpu; type = host_device }

-- `remove` for each time that a CPU is in a list.
abbrev pub remove_all : ℕ → List ℕ → List ℕ
remove_all cpu [] = []
remove_all cpu (c ∷ rest) =
    let others = remove_all cpu rest in if cpu == c then others else c ∷ others

abbrev pub waiting : Scheduler → ℕ
waiting s = length s.ready_tasks + length s.unblocked_tasks

abbrev pub scheduled : ReadyTaskHint → Scheduler × List ℕ → System → System
scheduled hint r y = record {
  scheduler = r.0;
  resumed = r.1 ++ y.resumed;
  owed = if is_unblocked hint then suc y.owed else y.owed;
  to_ask = y.to_ask;
}

-- `disposeOrUnblockTask` and `If0Task` on the host, where the CPU is about to ask for a task itself, and
-- `nanos6_user_unlock`, where it first runs the task that gets the mutex: no call of
-- `getIdleComputePlace` follows.
abbrev pub unblocked_by : ℕ → Scheduler × List ℕ → System → System
unblocked_by cpu r y = record y {
  scheduler = r.0;
  resumed = r.1 ++ y.resumed;
  to_ask = cpu ∷ y.to_ask;
}

-- `nanos6_user_unlock` gives an idle CPU to the thread that gets the mutex.
abbrev pub taken : System → System
taken y = record y { scheduler = (Naive.get_idle_compute_place false y.scheduler).0 }

-- The CPUs that are to ask when one has found the queues as they are: a CPU has nothing left to ask
-- for if they are empty, and otherwise has got one task.
abbrev pub left_to_ask : ℕ → System → List ℕ
left_to_ask cpu y =
    if waiting y.scheduler == 0
    then remove_all cpu y.to_ask
    else if count cpu y.resumed == 0
    then remove cpu y.to_ask
    else y.to_ask

-- A CPU that has kept a task gets that one, and does not look at the queues.
abbrev pub asked : ℕ → System → System
asked cpu y = record y {
  scheduler = (Immediate.get_ready_task (host_cpu cpu) true y.scheduler).0;
  resumed = remove cpu y.resumed;
  to_ask = elim (take_data cpu y.scheduler.scheduler_data).1 [
    | some t ↦ y.to_ask
    | none ↦ left_to_ask cpu y
  ];
}

abbrev pub settled : System → System
settled y =
    let (s, cpu) = Naive.get_idle_compute_place false y.scheduler in
    record y { scheduler = s; resumed = to_list cpu ++ y.resumed }

abbrev pub disabled : ℕ → System → System
disabled cpu y = record y {
  scheduler = Immediate.disable_compute_place cpu y.scheduler;
  owed = suc y.owed;
}

-- A CPU that calls the scheduler is not idle, and has asked for a task since it was to ask next.
abbrev pub IsRunning : Option ℕ → System → Type 0
IsRunning none y = Unit
IsRunning (some cpu) y = (is_idle cpu y.scheduler.idle_cpus ≡ false) × (count cpu y.resumed ≡ 0)

-- A task is added with `Scheduler::addReadyTask`, by a CPU that runs or from outside, and a call of
-- `getIdleComputePlace` follows if it is an unblocked one, unless a CPU queues it that is to ask for a task; a CPU that is not idle may ask for a task; an idle CPU may be taken by a thread; and a CPU
-- may be disabled.
pub data Step (y : System) : System → Type 0 where
  adds :
      (t : ReadyTask) (place : Option ℕ) (hint : ReadyTaskHint) (r : Scheduler × List ℕ)
      → IsRunning place y
      → schedule immediate_successor t place hint y.scheduler ≡ some r
      → Step y (scheduled hint r y)
  unblocks :
      (t : ReadyTask) (cpu : ℕ) (hint : ReadyTaskHint) (r : Scheduler × List ℕ)
      → IsRunning (some cpu) y
      → is_unblocked hint ≡ true
      → schedule immediate_successor t (some cpu) hint y.scheduler ≡ some r
      → Step y (unblocked_by cpu r y)
  takes : Step y (taken y)
  asks : (cpu : ℕ) → is_idle cpu y.scheduler.idle_cpus ≡ false → Step y (asked cpu y)
  settles : (owed : ℕ) → y.owed ≡ suc owed → Step y (record (settled y) { owed = owed })
  disables : (cpu : ℕ) → Step y (disabled cpu y)

pub data Reach (idle_cpus : List Bool) : System → Type 0 where
  start :
      Reach idle_cpus
        (record { scheduler = empty_scheduler idle_cpus; resumed = []; owed = 0; to_ask = [] })
  next : {y z : System} → Reach idle_cpus y → Step y z → Reach idle_cpus z
