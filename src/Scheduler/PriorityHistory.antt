-- ===== src/Scheduler/PriorityHistory.antt =====
-- Any sequence of calls of the priority scheduler, which loses no task.
use nanos.Common.{
  ℕ, ◌+◌, ◌^◌, ◌≡◌, ◌<◌, refl, Bool, false, Option, none, some, List, [], ◌∷◌, ◌++◌, arith, ◌||◌,
}
use nanos.Scheduler.{ReadyTask, ComputePlace, take_data, ReadyTaskHint, is_unblocked, is_child}
use nanos.Scheduler.Interface.{one, queued, kept, found}
use nanos.Scheduler.Bags.{queued-append, kept-take_data}
use nanos.Scheduler.Priority.{
  PriorityScheduler, key, push, add_ready_task, pop_front, requeue, choose, get_ready_task,
  disable_compute_place,
}
use nanos.Scheduler.Priority.{queue_task, stays, keep_task}

-- How often a task that is no taskloop stands in the classes, and in the scheduler.
module _ (x : ℕ) where
  abbrev pub classed : List (ℕ × List ReadyTask) → ℕ
  classed [] = 0
  classed ((k, queue) ∷ rest) = queued x queue + classed rest

  abbrev pub held : PriorityScheduler → ℕ
  held s = classed s.tasks + kept x s.scheduler_data

  push-classed :
      (front : Bool) (k : ℕ) (t : ReadyTask) (classes : List (ℕ × List ReadyTask))
      → classed (push front k t classes) ≡ one x t + classed classes
  unfolding push
  push-classed front k t [] = omega arith
  push-classed front k t ((k', queue) ∷ rest) =
      ground (arith, push-classed front k t rest, queued-append x queue (t ∷ []))

  requeue-classed :
      (o : Option ReadyTask) (classes : List (ℕ × List ReadyTask))
      → classed (requeue o classes) ≡ found x o + classed classes
  unfolding requeue
  requeue-classed none classes = omega arith
  requeue-classed (some t) classes = push-classed false (key t.priority) t classes

  pop_front-classed :
      (k : ℕ) (queue : List ReadyTask) (rest : List (ℕ × List ReadyTask))
      → classed (pop_front k queue rest) ≡ queued x queue + classed rest
  pop_front-classed k [] rest = omega arith
  pop_front-classed k (t ∷ queue) rest = refl

  choose-classed :
      (o : Option ReadyTask) (classes : List (ℕ × List ReadyTask))
      → classed (choose o classes).0 + found x (choose o classes).1 ≡ found x o + classed classes
  unfolding choose
  choose-classed o [] = omega arith
  choose-classed o ((k, []) ∷ rest) = omega arith
  choose-classed o ((k, t ∷ queue) ∷ rest) =
      ground (arith, requeue-classed o (pop_front k queue rest), pop_front-classed k queue rest)

  take_data-choose :
      (cpu : ℕ) (s : PriorityScheduler)
      → let (others, successor) = take_data cpu s.scheduler_data in
        let (tasks, t) = choose successor s.tasks in
        (classed tasks + kept x others + found x t ≡ held s)
  take_data-choose cpu s =
      let o = (take_data cpu s.scheduler_data).1 in
      omega (arith, kept-take_data x cpu s.scheduler_data, choose-classed o s.tasks)

-- The tasks that the scheduler has accepted, and those that it has given.
pub record System : Type 0 where
  pub scheduler : PriorityScheduler
  pub accepted : List ReadyTask
  pub answers : List ReadyTask

abbrev pub to_list : Option ReadyTask → List ReadyTask
to_list none = []
to_list (some t) = t ∷ []

abbrev pub initial : List Bool → System
initial idle_cpus = record {
  scheduler = record { tasks = []; scheduler_data = []; idle_cpus = idle_cpus };
  accepted = [];
  answers = [];
}

abbrev pub asked : ComputePlace → Bool → System → System
asked place can_mark_as_idle y =
    let (s, t) = get_ready_task place can_mark_as_idle y.scheduler in
    record y { scheduler = s; answers = to_list t ++ y.answers }

-- A priority fits a long and is not the least, whose negation would overflow.
pub data Step (y : System) : System → Type 0 where
  adds :
      (t : ReadyTask) (place : Option ℕ) (hint : ReadyTaskHint) (do_get_idle : Bool)
      (s : PriorityScheduler) (cpu : Option ℕ)
      → 0 < t.priority
      → t.priority < 2 ^ 64
      → add_ready_task t place hint do_get_idle y.scheduler ≡ some (s, cpu)
      → Step y (record y { scheduler = s; accepted = t ∷ y.accepted })
  asks : (place : ComputePlace) (can_mark_as_idle : Bool) → Step y (asked place can_mark_as_idle y)
  disables : (cpu : ℕ) → Step y (record y { scheduler = disable_compute_place cpu y.scheduler })

pub data Reach (idle_cpus : List Bool) : System → Type 0 where
  start : Reach idle_cpus (initial idle_cpus)
  next : {y z : System} → Reach idle_cpus y → Step y z → Reach idle_cpus z

module _ (x : ℕ) where
  abbrev pub IsBalanced : System → Type 0
  IsBalanced y = queued x y.accepted ≡ queued x y.answers + held x y.scheduler

  add-held :
      (t : ReadyTask) (place : Option ℕ) (hint : ReadyTaskHint) (d : Bool) (s : PriorityScheduler)
      (r : PriorityScheduler × Option ℕ)
      → add_ready_task t place hint d s ≡ some r
      → held x r.0 ≡ one x t + held x s
  unfolding add_ready_task queue_task keep_task stays
  add-held t none hint d s r e =
      ground (arith, push-classed x (is_unblocked hint || is_child hint) (key t.priority) t s.tasks)
  add-held t (some cpu) hint d s r e =
      ground (arith, push-classed x (is_unblocked hint || is_child hint) (key t.priority) t s.tasks)

  asked-IsBalanced :
      (place : ComputePlace) (d : Bool) (y : System) → IsBalanced y → IsBalanced (asked place d y)
  unfolding get_ready_task
  asked-IsBalanced place d y b =
      ground (arith, b, take_data-choose x place.virtual_cpu_id y.scheduler)

  Step-IsBalanced : {y z : System} → Step y z → IsBalanced y → IsBalanced z
  unfolding disable_compute_place
  Step-IsBalanced {y} (adds t place hint d s cpu l h e) b =
      omega (arith, b, add-held t place hint d y.scheduler (s, cpu) e)
  Step-IsBalanced {y} (asks place d) b = asked-IsBalanced place d y b
  Step-IsBalanced {y} (disables cpu) b =
      let o = (take_data cpu y.scheduler.scheduler_data).1 in
      omega (
        arith,
        b,
        kept-take_data x cpu y.scheduler.scheduler_data,
        requeue-classed x o y.scheduler.tasks,
      )

  -- Whatever calls are made of the priority scheduler: each task has been accepted as often as it has
  -- been given to a compute place and is still held, together.
  pub Reach-IsBalanced : {idle_cpus : List Bool} {y : System} → Reach idle_cpus y → IsBalanced y
  Reach-IsBalanced start = omega arith
  Reach-IsBalanced (next r st) = Step-IsBalanced st (Reach-IsBalanced r)
