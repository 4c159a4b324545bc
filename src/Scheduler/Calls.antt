-- ===== src/Scheduler/Calls.antt =====
-- What single calls of src/scheduling/Scheduler.hpp do to the set of idle CPUs and to the queues.
use nanos.Common.{
  ℕ, suc, not, ◌+◌, ◌≡◌, ◌≤◌, ◌<◌, refl, ap, Bool, true, false, Option, none, some, List, [], ◌∷◌,
  ◌++◌, length, count, ◌⊎◌, inl, inr, if◌then◌else◌, arith,
}
use nanos.Scheduler.{Scheduler, ReadyTask, ReadyTaskHint, is_unblocked, take_data}
use nanos.Scheduler.IdleCpus.{
  is_idle, any_idle, get_idle_cpu-any_idle, any_idle-get_idle_cpu, is_idle-found,
  is_idle-get_idle_cpu,
}
use nanos.Scheduler.Naive as Naive
use nanos.Scheduler.ImmediateSuccessor as Immediate
use nanos.Scheduler.Interface.{immediate_successor, schedule, to_list, resume_one}
use nanos.Scheduler.Wakeup.{remove, waiting, remove_all}

pub length-remove : (cpu : ℕ) (cpus : List ℕ) → length cpus ≤ suc (length (remove cpu cpus))
length-remove cpu [] = omega arith
length-remove cpu (c ∷ rest) = ground (arith, length-remove cpu rest)

pub length-remove-same :
    (cpu : ℕ) (cpus : List ℕ) → count cpu cpus ≡ 0 → length (remove cpu cpus) ≡ length cpus
length-remove-same cpu [] e = refl
length-remove-same cpu (c ∷ rest) e = ground (arith, length-remove-same cpu rest)

pub count-remove : (c cpu : ℕ) (cpus : List ℕ) → count c (remove cpu cpus) ≤ count c cpus
count-remove c cpu [] = omega arith
count-remove c cpu (d ∷ rest) = ground (arith, count-remove c cpu rest)

pub take_data-again :
    (cpu other : ℕ) (data' : List (ℕ × ReadyTask))
    → (take_data cpu data').1 ≡ none
    → (take_data cpu (take_data other data').0).1 ≡ none
unfolding take_data
take_data-again cpu other [] e = e
take_data-again cpu other ((owner, t) ∷ rest) e = ground (arith, take_data-again cpu other rest)

-- The end of a call that has just queued a task, or is about to find out whether there is one.
pub resume_idle-enough :
    (d : Bool) (s : Scheduler) (n : ℕ)
    → (any_idle s.idle_cpus ≡ true → waiting s ≤ (if d then suc n else n))
    → any_idle (Naive.resume_idle d s).0.idle_cpus ≡ true
    → waiting (Naive.resume_idle d s).0 ≤ length (to_list (Naive.resume_idle d s).1) + n
unfolding Naive.resume_idle
resume_idle-enough true s n h e =
    let old = any_idle-get_idle_cpu s.idle_cpus e in
    let (cpu, f) = get_idle_cpu-any_idle s.idle_cpus old in
    ground (arith, h old, ap (λ o. length (to_list o)) f)
resume_idle-enough false s n h e = omega (arith, h e)

pub resume_idle-busy :
    (d : Bool) (s : Scheduler) (cpu : ℕ) (cpus : List ℕ)
    → (is_idle cpu (Naive.resume_idle d s).0.idle_cpus ≡ true)
      ⊎ (0 < count cpu (to_list (Naive.resume_idle d s).1 ++ cpus))
    → (is_idle cpu s.idle_cpus ≡ true) ⊎ (0 < count cpu cpus)
unfolding Naive.resume_idle
resume_idle-busy true s cpu cpus e =
    ground (arith, is_idle-get_idle_cpu cpu s.idle_cpus, is_idle-found s.idle_cpus cpu)
resume_idle-busy false s cpu cpus e = e

pub resume_idle-scheduler_data :
    (d : Bool) (s : Scheduler) → (Naive.resume_idle d s).0.scheduler_data ≡ s.scheduler_data
unfolding Naive.resume_idle
resume_idle-scheduler_data d s = ground arith

pub count-remove_all : (c cpu : ℕ) (cpus : List ℕ) → count c (remove_all cpu cpus) ≤ count c cpus
count-remove_all c cpu [] = omega arith
count-remove_all c cpu (d ∷ rest) = ground (arith, count-remove_all c cpu rest)

pub count-remove_all-same : (cpu : ℕ) (cpus : List ℕ) → count cpu (remove_all cpu cpus) ≡ 0
count-remove_all-same cpu [] = refl
count-remove_all-same cpu (d ∷ rest) = ground (arith, count-remove_all-same cpu rest)

pub schedule-cases :
    (t : ReadyTask) (place : Option ℕ) (hint : ReadyTaskHint) (s : Scheduler)
    (r : Scheduler × List ℕ)
    → schedule immediate_successor t place hint s ≡ some r
    → ((r ≡ (Immediate.push_data place t s, [])) × (Immediate.keeps place hint s ≡ true))
      ⊎ (r ≡ resume_one (Immediate.queue_task t hint (not (is_unblocked hint)) s))
unfolding schedule Immediate.add_ready_task
schedule-cases t place hint s r e = ground arith

pub is_idle-resume_idle :
    (d : Bool) (s : Scheduler) (cpu : ℕ)
    → is_idle cpu (Naive.resume_idle d s).0.idle_cpus ≡ true
    → is_idle cpu s.idle_cpus ≡ true
unfolding Naive.resume_idle
is_idle-resume_idle true s cpu e = is_idle-get_idle_cpu cpu s.idle_cpus e
is_idle-resume_idle false s cpu e = e

pub is_idle-schedule :
    (t : ReadyTask) (place : Option ℕ) (hint : ReadyTaskHint) (s : Scheduler)
    (r : Scheduler × List ℕ) (cpu : ℕ)
    → schedule immediate_successor t place hint s ≡ some r
    → is_idle cpu r.0.idle_cpus ≡ true
    → is_idle cpu s.idle_cpus ≡ true
unfolding Immediate.queue_task Immediate.push_task Immediate.push_data
is_idle-schedule t place hint s r cpu e i = elim (schedule-cases t place hint s r e) [
  | inl (k, keeps) ↦ ground (arith, k, i)
  | inr q ↦ ground (
    arith,
    q,
    i,
    is_idle-resume_idle (not (is_unblocked hint)) (Immediate.push_task t (is_unblocked hint) s) cpu,
  )
]
