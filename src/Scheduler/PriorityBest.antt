-- ===== src/Scheduler/PriorityBest.antt =====
-- The priority scheduler gives a task of the highest priority.
use nanos.Common.{
  ℕ, ◌≡◌, Bool, true, false, Option, none, some, List, [], ◌∷◌, ◌==◌, Bool-cases, inl, inr,
  Option-cases, sym, ap, subst, if◌then◌else◌, arith, ◌||◌, ◌⊎◌,
}
use nanos.Scheduler.{
  ReadyTask, ComputePlace, take_data, is_host, ReadyTaskHint, is_unblocked, is_child,
}
use nanos.Scheduler.IdleCpus.{cpu_becomes_idle}
use nanos.Scheduler.Priority.{
  PriorityScheduler, key, add_ready_task, choose, get_ready_task, disable_compute_place,
}
use nanos.Scheduler.Priority.{queue_task, keep_task}
use nanos.Scheduler.PriorityOrder.{
  IsOrdered, AtMost, IsBefore, InRange, push-IsOrdered, requeue-IsOrdered, choose-best,
  choose-IsOrdered,
}
use nanos.Scheduler.PriorityHistory.{System, Step, adds, asks, disables, Reach, start, next}

abbrev pub AllInRange : List (ℕ × ReadyTask) → Type 0
AllInRange [] = Unit
AllInRange ((cpu, t) ∷ rest) = InRange (some t) × AllInRange rest

-- The classes are ordered, and the tasks that compute places keep have a priority in range.
abbrev pub IsSorted : PriorityScheduler → Type 0
IsSorted s = IsOrdered 0 s.tasks × AllInRange s.scheduler_data

take_data-InRange :
    (cpu : ℕ) (data' : List (ℕ × ReadyTask))
    → AllInRange data'
    → InRange (take_data cpu data').1 × AllInRange (take_data cpu data').0
unfolding take_data
take_data-InRange cpu [] a = (tt, tt)
take_data-InRange cpu ((owner, t) ∷ rest) (h, a) = elim (Bool-cases (cpu == owner)) [
  | inl same ↦ rw same (h, a)
  | inr other ↦ let (r, b) = take_data-InRange cpu rest a in rw other (r, (h, b))
]

queue_task-IsSorted :
    (t : ReadyTask) (hint : ReadyTaskHint) (d : Bool) (s : PriorityScheduler)
    → InRange (some t)
    → IsSorted s
    → IsSorted (queue_task t hint d s).0
unfolding queue_task
queue_task-IsSorted t hint true s (l, h) (o, a) = (
  push-IsOrdered (is_unblocked hint || is_child hint) (key t.priority) 0 t s.tasks (omega arith)
      (omega (arith, h)) o,
  a,
)
queue_task-IsSorted t hint false s (l, h) (o, a) = (
  push-IsOrdered (is_unblocked hint || is_child hint) (key t.priority) 0 t s.tasks (omega arith)
      (omega (arith, h)) o,
  a,
)

keep_task-IsSorted :
    (t : ReadyTask) (place : Option ℕ) (s : PriorityScheduler)
    → InRange (some t)
    → IsSorted s
    → IsSorted (keep_task place t s)
unfolding keep_task
keep_task-IsSorted t none s r k = k
keep_task-IsSorted t (some cpu) s r (o, a) = (o, (r, a))

add-cases :
    (t : ReadyTask) (place : Option ℕ) (hint : ReadyTaskHint) (d : Bool) (s : PriorityScheduler)
    (r : PriorityScheduler × Option ℕ)
    → add_ready_task t place hint d s ≡ some r
    → (r ≡ (keep_task place t s, none)) ⊎ (r ≡ queue_task t hint d s)
unfolding add_ready_task
add-cases t place hint d s r e = ground arith

idle-IsSorted :
    (d : Bool) (cpu : ℕ) (s : PriorityScheduler)
    → IsSorted s
    → IsSorted (if d then record s { idle_cpus = cpu_becomes_idle cpu s.idle_cpus } else s)
idle-IsSorted true cpu s k = k
idle-IsSorted false cpu s k = k

get_ready_task-IsSorted :
    (place : ComputePlace) (d : Bool) (s : PriorityScheduler)
    → IsSorted s
    → IsSorted (get_ready_task place d s).0
unfolding get_ready_task
get_ready_task-IsSorted place d s (o, a) =
    let cpu = place.virtual_cpu_id in
    let (r, b) = take_data-InRange cpu s.scheduler_data a in
    let c = choose-IsOrdered (take_data cpu s.scheduler_data).1 s.tasks o r in
    elim (Bool-cases (is_host place.type)) [
      | inr other ↦ rw other (o, a)
      | inl host ↦ elim (Option-cases (choose (take_data cpu s.scheduler_data).1 s.tasks).1) [
        | inl empty ↦ rw (host, empty) (idle-IsSorted d cpu s (o, a))
        | inr (t, e) ↦ rw (host, e) (c, b)
      ]
    ]

Step-IsSorted : {y z : System} → Step y z → IsSorted y.scheduler → IsSorted z.scheduler
unfolding disable_compute_place
Step-IsSorted {y} (adds t place hint d s cpu l h e) k =
    elim (add-cases t place hint d y.scheduler (s, cpu) e) [
      | inl kept' ↦
          subst IsSorted (sym (ap (λ r. r.0) kept'))
            (keep_task-IsSorted t place y.scheduler (l, h) k)
      | inr queue ↦
          subst IsSorted (sym (ap (λ r. r.0) queue))
            (queue_task-IsSorted t hint d y.scheduler (l, h) k)
    ]
Step-IsSorted {y} (asks place d) k = get_ready_task-IsSorted place d y.scheduler k
Step-IsSorted {y} (disables cpu) (o, a) =
    let (r, b) = take_data-InRange cpu y.scheduler.scheduler_data a in
    (requeue-IsOrdered (take_data cpu y.scheduler.scheduler_data).1 y.scheduler.tasks r o, b)

Reach-IsSorted : {idle_cpus : List Bool} {y : System} → Reach idle_cpus y → IsSorted y.scheduler
Reach-IsSorted start = (tt, tt)
Reach-IsSorted (next r st) = Step-IsSorted st (Reach-IsSorted r)

get-choose :
    (place : ComputePlace) (d : Bool) (s : PriorityScheduler) (t : ReadyTask)
    → (get_ready_task place d s).1 ≡ some t
    → (choose (take_data place.virtual_cpu_id s.scheduler_data).1 s.tasks).1 ≡ some t
unfolding get_ready_task
get-choose place d s t e = ground arith

-- Whatever calls have been made of the priority scheduler, the task that it gives to a CPU that asks has
-- a priority as high as any in its queues, and as high as that of the CPU's immediate successor.
pub Reach-best :
    {idle_cpus : List Bool} {y : System} (place : ComputePlace) (can_mark_as_idle : Bool)
    (t : ReadyTask)
    → Reach idle_cpus y
    → (get_ready_task place can_mark_as_idle y.scheduler).1 ≡ some t
    → AtMost t.priority y.scheduler.tasks
      × IsBefore t (take_data place.virtual_cpu_id y.scheduler.scheduler_data).1
Reach-best {y = y} place d t r e =
    choose-best (take_data place.virtual_cpu_id y.scheduler.scheduler_data).1 y.scheduler.tasks t
      (Reach-IsSorted r).0 (get-choose place d y.scheduler t e)
