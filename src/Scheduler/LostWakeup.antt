-- ===== src/Scheduler/LostWakeup.antt =====
-- The naive and FIFO schedulers release the lock before they mark a CPU as idle.
use nanos.Common.{
  ℕ, zero, suc, ◌≡◌, ◌<◌, refl, Bool, true, false, Option, none, some, List, [], ◌∷◌, length, arith,
}
use nanos.Scheduler.{
  Scheduler, ReadyTask, ReadyTaskHint, is_unblocked, ComputePlace, TaskloopView, Answer, nothing,
  is_host, get_replacement_task,
}
use nanos.Scheduler.IdleCpus.{get_idle_cpu, cpu_becomes_idle, is_idle, any_idle}
use nanos.Scheduler.Naive as Naive
use nanos.Scheduler.Fifo as Fifo

-- A task is added between the two parts of a call of `getReadyTask`: the scheduler afterwards, the CPU
-- that is resumed for the task, and the answer.
abbrev pub interleaved :
    (Scheduler → Option (Scheduler × Option ℕ))
    → TaskloopView
    → ComputePlace
    → Scheduler
    → Option (Scheduler × Option ℕ × Answer)
interleaved add view place s =
    let (s1, found, complete) = Naive.locked_section view s in
    elim (add s1) [
      | none ↦ none
      | some (s2, cpu) ↦
          let (s3, answer) = Naive.unlocked_section view place true complete found s2 in
          some (s3, cpu, answer)
    ]

get_idle_cpu-none : (cpus : List Bool) → any_idle cpus ≡ false → get_idle_cpu cpus ≡ (cpus, none)
unfolding get_idle_cpu
get_idle_cpu-none [] e = refl
get_idle_cpu-none (true ∷ rest) e = ground arith
get_idle_cpu-none (false ∷ rest) e = rw (get_idle_cpu-none rest e) refl

is_idle-marked :
    (cpu : ℕ) (cpus : List Bool)
    → cpu < length cpus
    → is_idle cpu (cpu_becomes_idle cpu cpus) ≡ true
unfolding cpu_becomes_idle
is_idle-marked cpu [] h = ground arith
is_idle-marked zero (b ∷ rest) h = refl
is_idle-marked (suc cpu) (b ∷ rest) h = is_idle-marked cpu rest (omega (arith, h))

abbrev pub with_ready : List ReadyTask → List (ℕ × ReadyTask) → List Bool → Scheduler
with_ready ready data' cpus = record {
  ready_tasks = ready;
  unblocked_tasks = [];
  scheduler_data = data';
  idle_cpus = cpus;
}

module _ (view : TaskloopView) (place : ComputePlace) (t : ReadyTask) (hint : ReadyTaskHint)
    (data' : List (ℕ × ReadyTask)) (cpus : List Bool) where
  interleaved-add :
      (add : Scheduler → Option (Scheduler × Option ℕ))
      → add (with_ready [] data' cpus) ≡ some (with_ready (t ∷ []) data' cpus, none)
      → interleaved add view place (with_ready [] data' cpus)
        ≡ some
            (with_ready (t ∷ []) data' (cpu_becomes_idle place.virtual_cpu_id cpus), none, nothing)
  unfolding Naive.locked_section Naive.unlocked_section Naive.search_queue Naive.any_finished
      get_replacement_task
  interleaved-add add e = rw (interleaved, e) refl

  Naive-added :
      is_host t.device_type ≡ true
      → is_unblocked hint ≡ false
      → any_idle cpus ≡ false
      → Naive.add_ready_task t hint true (with_ready [] data' cpus)
        ≡ some (with_ready (t ∷ []) data' cpus, none)
  unfolding Naive.add_ready_task Naive.resume_idle
  Naive-added host new none_idle = rw (host, new, get_idle_cpu-none cpus none_idle) refl

  Fifo-added :
      is_host t.device_type ≡ true
      → is_unblocked hint ≡ false
      → any_idle cpus ≡ false
      → Fifo.add_ready_task t hint true (with_ready [] data' cpus)
        ≡ some (with_ready (t ∷ []) data' cpus, none)
  unfolding Fifo.add_ready_task Naive.resume_idle
  Fifo-added host new none_idle = rw (host, new, get_idle_cpu-none cpus none_idle) refl

-- A task that is added to the naive or the FIFO scheduler (not as unblocked), when the queues are empty
-- and no CPU is idle, after the last CPU has found no task and before it is marked as idle, stays in the
-- queue: no CPU is resumed for it, and the CPU becomes idle without an answer.
pub interleaved-lost_wakeup :
    (view : TaskloopView) (place : ComputePlace) (t : ReadyTask) (hint : ReadyTaskHint)
    (data' : List (ℕ × ReadyTask)) (cpus : List Bool)
    → is_host t.device_type ≡ true
    → is_unblocked hint ≡ false
    → any_idle cpus ≡ false
    → place.virtual_cpu_id < length cpus
    → let s = with_ready [] data' cpus in
      let s' = with_ready (t ∷ []) data' (cpu_becomes_idle place.virtual_cpu_id cpus) in
      (interleaved (Naive.add_ready_task t hint true) view place s ≡ some (s', none, nothing))
      × (interleaved (Fifo.add_ready_task t hint true) view place s ≡ some (s', none, nothing))
      × (is_idle place.virtual_cpu_id s'.idle_cpus ≡ true)
interleaved-lost_wakeup view place t hint data' cpus host new none_idle h = (
  interleaved-add view place t hint data' cpus (Naive.add_ready_task t hint true)
      (Naive-added view place t hint data' cpus host new none_idle),
  interleaved-add view place t hint data' cpus (Fifo.add_ready_task t hint true)
      (Fifo-added view place t hint data' cpus host new none_idle),
  is_idle-marked place.virtual_cpu_id cpus h,
)
