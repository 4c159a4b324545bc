-- ===== src/Discrete/Ready.antt =====
-- The predecessor counters of the tasks against the accesses that keep them from running.
use nanos.Common.{
  ℕ, ◌+◌, ◌<◌, ◌≤◌, ◌^◌, ◌≡◌, Bool, true, false, none, arith, List, [], ◌==◌, if◌then◌else◌, count,
}
use nanos.Task.Counter.{
  Predecessors, process_satisfied_originators, process-counters, process-ready, Counted,
  increase_predecessors, increase,
}
use nanos.Discrete.Sequence.{Accesses, Position, unregister_data_access}
use nanos.Discrete.Groups.{is_registered}
use nanos.Discrete.Register.{
  Request, Registration, registered, missing, failed, register_task_data_access, new_predecessors,
  effective_weak,
}
use nanos.Discrete.Registered.{Foreign, Pushed, register-Pushed}
use nanos.Discrete.Pending.{pending, pending-unregister, access_at, blocks_at}
use nanos.Discrete.History.{RootInv}

-- One round of the loop of `unregisterTaskDataAccesses`: the accesses and the counters afterwards,
-- and the tasks that become ready.
unfoldable pub unregister_task_access :
    Position → Accesses → Predecessors → Accesses × Predecessors × List ℕ
unfolding unregister_data_access process_satisfied_originators
unregister_task_access x s f =
    let (t, satisfied_originators) = unregister_data_access [] [] x s in
    let (g, ready) = process_satisfied_originators f satisfied_originators in (t, g, ready)

-- The counter of each task is its pending accesses at this address and what it waits for elsewhere.
abbrev pub IsCounted : Predecessors → Accesses → Predecessors → Type 0
IsCounted f s elsewhere = (j : ℕ) → (f j ≡ pending j s + elsewhere j) × (f j < 2 ^ 32)

-- When an access that keeps no task from running is released, the counters still say what each
-- task waits for, and the tasks that become ready are those whose last wait has ended, each once.
pub unregister_task_access-IsCounted :
    (x : Position) (s : Accesses) (f elsewhere : Predecessors)
    → IsCounted f s elsewhere
    → ((j : ℕ) → blocks_at j (access_at x s) ≡ 0)
    → let (t, g, ready) = unregister_task_access x s f in
      IsCounted g t elsewhere
      × ((j : ℕ) → count j ready ≡ (if f j == 0 then 0 else if g j == 0 then 1 else 0))
unfolding unregister_task_access
unregister_task_access-IsCounted x s f elsewhere c idle = (
  λ j. (
    omega (arith, process-counters f tasks enough j, pending-unregister j [] [] x s, c j, idle j),
    omega (arith, process-counters f tasks enough j, c j),
  ),
  λ j. ground (arith, process-ready f tasks enough j, process-counters f tasks enough j),
)
  where
    tasks : List ℕ
    tasks = (unregister_data_access [] [] x s).1

    enough : Counted f tasks
    enough j = (omega (arith, pending-unregister j [] [] x s, c j), (c j).1)

-- The end of `register_access`: a task that cannot start gets one more predecessor.
unfoldable pub count_registration : Request → Registration → Predecessors → Predecessors
unfolding increase_predecessors new_predecessors
count_registration r result f = increase_predecessors f r.task (new_predecessors result)

new_predecessors-le : (result : Registration) → new_predecessors result ≤ 1
unfolding new_predecessors
new_predecessors-le (registered s c n) = ground arith
new_predecessors-le missing = omega arith
new_predecessors-le failed = omega arith

count_registration_lem :
    (r : Request) (result : Registration) (f : Predecessors)
    → f r.task + 1 < 2 ^ 32
    → (j : ℕ)
    → count_registration r result f j ≡ f j + (if r.task == j then new_predecessors result else 0)
unfolding count_registration increase_predecessors increase
count_registration_lem r result f h j = ground (arith, new_predecessors-le result)

-- `register_access` where the parent has no access to the region: in the root sequence. A final task
-- and a taskloop have no weak accesses.
unfoldable pub register_access :
    Request → Bool → Bool → Accesses → Predecessors → Registration × Predecessors
unfolding effective_weak register_task_data_access count_registration
register_access r is_final is_taskloop s f =
    let r' = record r { weak = effective_weak r.weak is_final is_taskloop } in
    let result = register_task_data_access r' [] [] s in (result, count_registration r' result f)

-- If a task registers an access of a kind that the discrete system knows, at the end of a root
-- sequence whose last access is not its own, then a new access is created, and it is counted as a
-- predecessor of the task exactly if it keeps the task from running.
pub register_access-IsCounted :
    (r : Request) (is_final is_taskloop : Bool) (s : Accesses) (f elsewhere : Predecessors)
    → is_registered r.access_type ≡ true
    → Foreign r.task s
    → RootInv s
    → IsCounted f s elsewhere
    → f r.task + 1 < 2 ^ 32
    → (t : Accesses) × (c : Bool) × ((register_access r is_final is_taskloop s f).0
        ≡ registered t c true)
      × IsCounted (register_access r is_final is_taskloop s f).1 t elsewhere
unfolding register_access
register_access-IsCounted r is_final is_taskloop s f elsewhere k g i c small = (
  d.after,
  d.can_start,
  d.is_result,
  λ j. (
    omega (arith, lem j, d.counted j, c j),
    ground (arith, lem j, d.counted j, c j, new_predecessors-le result),
  ),
)
  where
    r' : Request
    r' = record r { weak = effective_weak r.weak is_final is_taskloop }

    result : Registration
    result = register_task_data_access r' [] [] s

    lem :
        (j : ℕ)
        → count_registration r' result f j
          ≡ f j + (if r.task == j then new_predecessors result else 0)
    lem = count_registration_lem r' result f small

    d : Pushed false true none r' s result
    d = register-Pushed false true r' [] [] s k (λ h. absurd (cc)) g i
