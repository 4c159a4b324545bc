-- ===== src/Scheduler/Bags.antt =====
-- Three schedulers fill the laws of a bag, which carry over to any sequence of calls.
use nanos.Common.{ℕ, ◌+◌, ◌≡◌, refl, Bool, true, Option, none, some, List, [], ◌∷◌, ◌++◌, arith}
use nanos.Scheduler.{
  Scheduler, ReadyTask, ReadyTaskHint, ComputePlace, TaskloopView, Answer, nothing, take_data,
  is_host, get_replacement_task,
}
use nanos.Scheduler.Naive as Naive
use nanos.Scheduler.Fifo as Fifo
use nanos.Scheduler.ImmediateSuccessor as ImmediateSuccessor
use nanos.Scheduler.Interface.{
  one, queued, kept, held, given, found, SchedulerInterface, Bag, SchedulerName, naive_name,
  fifo_name, immediate_successor_name, create_scheduler, Call, adds, asks, disables, Trace, accept,
  call, run,
}

module _ (x : ℕ) where
  pub queued-append : (ts us : List ReadyTask) → queued x (ts ++ us) ≡ queued x ts + queued x us
  queued-append [] us = omega arith
  queued-append (t ∷ ts) us = omega (arith, queued-append ts us)

  pub kept-take_data :
      (cpu : ℕ) (data' : List (ℕ × ReadyTask))
      → kept x data' ≡ kept x (take_data cpu data').0 + found x (take_data cpu data').1
  unfolding take_data
  kept-take_data cpu [] = refl
  kept-take_data cpu ((owner, t) ∷ rest) = ground (arith, kept-take_data cpu rest)

  queued-search_queue :
      (view : TaskloopView) (ts : List ReadyTask)
      → let (left, f, complete) = Naive.search_queue view ts in
        (queued x ts ≡ queued x left + found x f)
  unfolding Naive.search_queue
  queued-search_queue view [] = refl
  queued-search_queue view (t ∷ ts) =
      ground (arith, queued-search_queue view ts, queued-append ts (t ∷ []))

Naive-add :
    (x : ℕ) (t : ReadyTask) (hint : ReadyTaskHint) (d : Bool) (s : Scheduler)
    (r : Scheduler × Option ℕ)
    → Naive.add_ready_task t hint d s ≡ some r
    → held x r.0 ≡ held x s + one x t
unfolding Naive.add_ready_task Naive.resume_idle
Naive-add x t hint d s r e = ground arith

Fifo-add :
    (x : ℕ) (t : ReadyTask) (hint : ReadyTaskHint) (d : Bool) (s : Scheduler)
    (r : Scheduler × Option ℕ)
    → Fifo.add_ready_task t hint d s ≡ some r
    → held x r.0 ≡ held x s + one x t
unfolding Fifo.add_ready_task Naive.resume_idle
Fifo-add x t hint d s r e =
    ground
      (arith, queued-append x s.ready_tasks (t ∷ []), queued-append x s.unblocked_tasks (t ∷ []))

ImmediateSuccessor-add :
    (x : ℕ) (t : ReadyTask) (place : Option ℕ) (hint : ReadyTaskHint) (d : Bool) (s : Scheduler)
    (r : Scheduler × Option ℕ)
    → ImmediateSuccessor.add_ready_task t place hint d s ≡ some r
    → held x r.0 ≡ held x s + one x t
unfolding ImmediateSuccessor.add_ready_task ImmediateSuccessor.queue_task
    ImmediateSuccessor.push_data ImmediateSuccessor.push_task Naive.resume_idle
ImmediateSuccessor-add x t none hint d s r e = ground arith
ImmediateSuccessor-add x t (some cpu) hint d s r e = ground arith

Naive-get :
    (x : ℕ) (view : TaskloopView) (place : ComputePlace) (can_mark_as_idle : Bool) (s : Scheduler)
    → held x s
      ≡ held x (Naive.get_ready_task view place can_mark_as_idle s).0
        + given x (Naive.get_ready_task view place can_mark_as_idle s).1
unfolding Naive.get_ready_task Naive.locked_section Naive.unlocked_section get_replacement_task
Naive-get x view place d s = ground (arith, queued-search_queue x view s.ready_tasks)

pub ImmediateSuccessor-get :
    (x : ℕ) (place : ComputePlace) (d : Bool) (s : Scheduler)
    → held x s
      ≡ held x (ImmediateSuccessor.get_ready_task place d s).0
        + given x (ImmediateSuccessor.get_ready_task place d s).1
unfolding ImmediateSuccessor.get_ready_task ImmediateSuccessor.locked_section get_replacement_task
ImmediateSuccessor-get x place d s =
    ground (arith, kept-take_data x place.virtual_cpu_id s.scheduler_data)

ImmediateSuccessor-disable :
    (x cpu : ℕ) (s : Scheduler) → held x (ImmediateSuccessor.disable_compute_place cpu s) ≡ held x s
unfolding ImmediateSuccessor.disable_compute_place
ImmediateSuccessor-disable x cpu s = ground (arith, kept-take_data x cpu s.scheduler_data)

ImmediateSuccessor-nothing :
    (x : ℕ) (place : ComputePlace) (d : Bool) (s : Scheduler)
    → is_host place.type ≡ true
    → (ImmediateSuccessor.get_ready_task place d s).1 ≡ nothing
    → queued x s.ready_tasks + queued x s.unblocked_tasks ≡ 0
unfolding ImmediateSuccessor.get_ready_task ImmediateSuccessor.locked_section get_replacement_task
ImmediateSuccessor-nothing x place d s h e = ground arith

search_queue-none :
    (x : ℕ) (view : TaskloopView) (ts : List ReadyTask)
    → (Naive.search_queue view ts).1 ≡ none
    → queued x ts ≡ 0
unfolding Naive.search_queue
search_queue-none x view [] e = refl
search_queue-none x view (t ∷ ts) e = ground (arith, search_queue-none x view ts)

Naive-nothing :
    (x : ℕ) (view : TaskloopView) (place : ComputePlace) (d : Bool) (s : Scheduler)
    → is_host place.type ≡ true
    → (Naive.get_ready_task view place d s).1 ≡ nothing
    → queued x s.ready_tasks + queued x s.unblocked_tasks ≡ 0
unfolding Naive.get_ready_task Naive.locked_section Naive.unlocked_section get_replacement_task
    Naive.answer_with
Naive-nothing x view place d s h e = ground (arith, search_queue-none x view s.ready_tasks)

create_scheduler-Bag : (name : SchedulerName) → Bag (create_scheduler name)
create_scheduler-Bag naive_name = record {
  add_held = λ x t place. Naive-add x t;
  get_held = Naive-get;
  get_nothing = Naive-nothing;
  disable_held = λ x cpu s. refl;
}
create_scheduler-Bag fifo_name = record {
  add_held = λ x t place. Fifo-add x t;
  get_held = Naive-get;
  get_nothing = Naive-nothing;
  disable_held = λ x cpu s. refl;
}
create_scheduler-Bag immediate_successor_name = record {
  add_held = ImmediateSuccessor-add;
  get_held = λ x view. ImmediateSuccessor-get x;
  get_nothing = λ x view. ImmediateSuccessor-nothing x;
  disable_held = ImmediateSuccessor-disable;
}

module _ (x : ℕ) where
  abbrev pub all_given : List Answer → ℕ
  all_given [] = 0
  all_given (a ∷ rest) = given x a + all_given rest

  abbrev pub IsBalanced : Trace → Type 0
  IsBalanced r = queued x r.accepted ≡ all_given r.answers + held x r.scheduler

  accept-IsBalanced :
      (t : ReadyTask) (o : Option (Scheduler × Option ℕ)) (r : Trace)
      → ((result : Scheduler × Option ℕ)
          → o ≡ some result
          → held x result.0 ≡ held x r.scheduler + one x t)
      → IsBalanced r
      → IsBalanced (accept t o r)
  accept-IsBalanced t none r h b = b
  accept-IsBalanced t (some result) r h b = omega (arith, h result refl, b)

  call-IsBalanced :
      {i : SchedulerInterface}
      → Bag i
      → (c : Call) (r : Trace) → IsBalanced r
      → IsBalanced (call i c r)
  call-IsBalanced {i} l (adds t place hint d) r b =
      accept-IsBalanced t (i.add_ready_task t place hint d r.scheduler) r
        (l.add_held x t place hint d r.scheduler) b
  call-IsBalanced l (asks view place d) r b =
      omega (arith, l.get_held x view place d r.scheduler, b)
  call-IsBalanced l (disables cpu) r b = omega (arith, l.disable_held x cpu r.scheduler, b)

  run-IsBalanced :
      {i : SchedulerInterface}
      → Bag i
      → (idle_cpus : List Bool) (calls : List Call) → IsBalanced (run i idle_cpus calls)
  run-IsBalanced l idle_cpus [] = refl
  run-IsBalanced {i} l idle_cpus (c ∷ earlier) =
      call-IsBalanced l c (run i idle_cpus earlier) (run-IsBalanced l idle_cpus earlier)

-- Each of the naive, FIFO and immediate-successor schedulers is a bag of tasks: whatever calls are made
-- of it, each task that is no taskloop has been accepted as often as it has been given to a compute
-- place and is still held together, so that no task is lost and none is given twice.
pub run-bag :
    (name : SchedulerName) (x : ℕ) (idle_cpus : List Bool) (calls : List Call)
    → let r = run (create_scheduler name) idle_cpus calls in
      (queued x r.accepted ≡ all_given x r.answers + held x r.scheduler)
run-bag name x = run-IsBalanced x (create_scheduler-Bag name)

-- When a scheduler has no task for a host CPU that asks, then no task but a taskloop is in its queues.
pub get_ready_task-nothing :
    (name : SchedulerName) (x : ℕ) (view : TaskloopView) (place : ComputePlace)
    (can_mark_as_idle : Bool) (s : Scheduler)
    → is_host place.type ≡ true
    → ((create_scheduler name).get_ready_task view place can_mark_as_idle s).1 ≡ nothing
    → queued x s.ready_tasks + queued x s.unblocked_tasks ≡ 0
get_ready_task-nothing name = (create_scheduler-Bag name).get_nothing
