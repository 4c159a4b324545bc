-- ===== src/Scheduler/Interface.antt =====
-- What a scheduler promises: it is a bag of tasks, with the operations of three schedulers.
use nanos.Common.{
  ℕ, ◌+◌, ◌≡◌, Bool, true, false, Option, none, some, List, [], ◌∷◌, ◌==◌, ◌&&◌, not, if◌then◌else◌,
}
use nanos.Scheduler.{
  Scheduler, ReadyTask, ReadyTaskHint, ComputePlace, TaskloopView, Answer, nothing, recheck, task,
  collaborator, is_host, is_unblocked,
}
use mathlib.Core.Option.{map}
use nanos.Scheduler.IdleCpus.{get_idle_cpus}
use nanos.Scheduler.Naive as Naive
use nanos.Scheduler.Fifo as Fifo
use nanos.Scheduler.ImmediateSuccessor as ImmediateSuccessor

-- How often a task that is no taskloop stands in a queue, in the data of the compute places, in
-- a scheduler and in an answer.
module _ (x : ℕ) where
  abbrev pub one : ReadyTask → ℕ
  one t = if (x == t.id) && not t.is_taskloop then 1 else 0

  abbrev pub queued : List ReadyTask → ℕ
  queued [] = 0
  queued (t ∷ rest) = one t + queued rest

  abbrev pub kept : List (ℕ × ReadyTask) → ℕ
  kept [] = 0
  kept ((cpu, t) ∷ rest) = one t + kept rest

  abbrev pub held : Scheduler → ℕ
  held s = queued s.ready_tasks + queued s.unblocked_tasks + kept s.scheduler_data

  abbrev pub given : Answer → ℕ
  given nothing = 0
  given recheck = 0
  given (task t) = one t
  given (collaborator t) = 0

  abbrev pub found : Option ReadyTask → ℕ
  found none = 0
  found (some t) = one t

-- The operations of a scheduler.
pub record SchedulerInterface : Type 0 where
  pub add_ready_task :
      ReadyTask → Option ℕ → ReadyTaskHint → Bool → Scheduler → Option (Scheduler × Option ℕ)
  pub get_ready_task : TaskloopView → ComputePlace → Bool → Scheduler → Scheduler × Answer
  pub disable_compute_place : ℕ → Scheduler → Scheduler

-- Its laws: a call adds the task that it is given, if it does not fail; a call gives a task that it
-- takes away; and none is given only if there is none in the queues.
pub record Bag (i : SchedulerInterface) : Type 0 where
  pub add_held :
      (x : ℕ) (t : ReadyTask) (place : Option ℕ) (hint : ReadyTaskHint) (do_get_idle : Bool)
      (s : Scheduler) (r : Scheduler × Option ℕ)
      → i.add_ready_task t place hint do_get_idle s ≡ some r
      → held x r.0 ≡ held x s + one x t
  pub get_held :
      (x : ℕ) (view : TaskloopView) (place : ComputePlace) (can_mark_as_idle : Bool) (s : Scheduler)
      → held x s
        ≡ held x (i.get_ready_task view place can_mark_as_idle s).0
          + given x (i.get_ready_task view place can_mark_as_idle s).1
  pub get_nothing :
      (x : ℕ) (view : TaskloopView) (place : ComputePlace) (can_mark_as_idle : Bool) (s : Scheduler)
      → is_host place.type ≡ true
      → (i.get_ready_task view place can_mark_as_idle s).1 ≡ nothing
      → queued x s.ready_tasks + queued x s.unblocked_tasks ≡ 0
  pub disable_held : (x cpu : ℕ) (s : Scheduler) → held x (i.disable_compute_place cpu s) ≡ held x s

abbrev pub naive : SchedulerInterface
naive = record {
  add_ready_task = λ t place hint do_get_idle s. Naive.add_ready_task t hint do_get_idle s;
  get_ready_task = Naive.get_ready_task;
  disable_compute_place = λ cpu s. s;
}

abbrev pub fifo : SchedulerInterface
fifo = record {
  add_ready_task = λ t place hint do_get_idle s. Fifo.add_ready_task t hint do_get_idle s;
  get_ready_task = Naive.get_ready_task;
  disable_compute_place = λ cpu s. s;
}

abbrev pub immediate_successor : SchedulerInterface
immediate_successor = record {
  add_ready_task = ImmediateSuccessor.add_ready_task;
  get_ready_task = λ view. ImmediateSuccessor.get_ready_task;
  disable_compute_place = ImmediateSuccessor.disable_compute_place;
}

-- The schedulers by the names that `SchedulerGenerator` knows them by.
pub data SchedulerName : Type 0 where
  naive_name fifo_name immediate_successor_name : SchedulerName

abbrev pub create_scheduler : SchedulerName → SchedulerInterface
create_scheduler naive_name = naive
create_scheduler fifo_name = fifo
create_scheduler immediate_successor_name = immediate_successor

abbrev pub to_list : Option ℕ → List ℕ
to_list none = []
to_list (some cpu) = cpu ∷ []

abbrev pub resume_one : Scheduler × Option ℕ → Scheduler × List ℕ
resume_one r = (r.0, to_list r.1)

abbrev pub resume_all : Scheduler × Option ℕ → Scheduler × List ℕ
resume_all r =
    let (others, cpus) = get_idle_cpus 0 r.0.idle_cpus in (record r.0 { idle_cpus = others }, cpus)

-- `Scheduler::addReadyTask`, with the CPUs that it or its caller resumes.
unfoldable pub schedule :
    SchedulerInterface
    → ReadyTask
    → Option ℕ
    → ReadyTaskHint
    → Scheduler
    → Option (Scheduler × List ℕ)
schedule i t place hint s =
    if is_unblocked hint
    then map resume_one (i.add_ready_task t place hint false s)
    else if t.is_taskloop
    then map resume_all (i.add_ready_task t place hint false s)
    else map resume_one (i.add_ready_task t place hint true s)

-- The calls of a scheduler, in the order in which they get its lock.
pub data Call : Type 0 where
  adds : ReadyTask → Option ℕ → ReadyTaskHint → Bool → Call
  asks : TaskloopView → ComputePlace → Bool → Call
  disables : ℕ → Call

-- A scheduler with the tasks that it has accepted and the answers that it has given, latest first.
pub record Trace : Type 0 where
  pub scheduler : Scheduler
  pub accepted : List ReadyTask
  pub answers : List Answer

abbrev pub empty_scheduler : List Bool → Scheduler
empty_scheduler idle_cpus = record {
  ready_tasks = [];
  unblocked_tasks = [];
  scheduler_data = [];
  idle_cpus = idle_cpus;
}

abbrev pub accept : ReadyTask → Option (Scheduler × Option ℕ) → Trace → Trace
accept t none r = r
accept t (some result) r = record r { scheduler = result.0; accepted = t ∷ r.accepted }

module _ (i : SchedulerInterface) where
  abbrev pub call : Call → Trace → Trace
  call (adds t place hint do_get_idle) r =
      accept t (i.add_ready_task t place hint do_get_idle r.scheduler) r
  call (asks view place can_mark_as_idle) r =
      let (s, answer) = i.get_ready_task view place can_mark_as_idle r.scheduler in
      record r { scheduler = s; answers = answer ∷ r.answers }
  call (disables cpu) r = record r { scheduler = i.disable_compute_place cpu r.scheduler }

  -- The calls one after the other, from an empty scheduler.
  abbrev pub run : List Bool → List Call → Trace
  run idle_cpus [] = record { scheduler = empty_scheduler idle_cpus; accepted = []; answers = [] }
  run idle_cpus (c ∷ earlier) = call c (run idle_cpus earlier)
