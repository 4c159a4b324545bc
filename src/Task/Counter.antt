-- ===== src/Task/Counter.antt =====
-- The `std::atomic<int>` counters of src/tasks/Task.hpp, as 32-bit patterns, and the predecessors.
use nanos.Common.{
  ℕ, ◌+◌, ◌-◌, ◌%◌, ◌^◌, ◌<◌, ◌≤◌, ◌≡◌, Bool, ◌==◌, List, [], ◌∷◌, if◌then◌else◌, arith, count,
}

-- `c += amount` and `c -= amount`, for an amount that is an `int`.
unfoldable pub increase : ℕ → ℕ → ℕ
increase c amount = (c + amount) % 2 ^ 32

unfoldable pub decrease : ℕ → ℕ → ℕ
decrease c amount = (c + 2 ^ 32 - amount) % 2 ^ 32

pub increase_lem : (c amount : ℕ) → c + amount < 2 ^ 32 → increase c amount ≡ c + amount
unfolding increase
increase_lem c amount h = omega arith

pub decrease_lem : (c amount : ℕ) → c < 2 ^ 32 → amount ≤ c → decrease c amount ≡ c - amount
unfolding decrease
decrease_lem c amount h k = omega arith

-- `_predecessorCount` of every task.
abbrev pub Predecessors : Type 0
Predecessors = ℕ → ℕ

abbrev pub update : Predecessors → ℕ → ℕ → Predecessors
update f t v j = if t == j then v else f j

-- `increasePredecessors` and `decreasePredecessors`: the latter says whether the task becomes ready.
unfoldable pub increase_predecessors : Predecessors → ℕ → ℕ → Predecessors
unfolding increase
increase_predecessors f t amount = update f t (increase (f t) amount)

unfoldable pub decrease_predecessors : Predecessors → ℕ → ℕ → Predecessors × Bool
unfolding decrease
decrease_predecessors f t amount = let c = decrease (f t) amount in (update f t c, c == 0)

-- `processSatisfiedOriginators` of src/dependencies/discrete/DataAccessRegistration.hpp: the counters
-- afterwards, and the tasks that it hands to the scheduler.
unfoldable pub process_satisfied_originators : Predecessors → List ℕ → Predecessors × List ℕ
unfolding decrease_predecessors
process_satisfied_originators f [] = (f, [])
process_satisfied_originators f (t ∷ ts) =
    let (f', becomes_ready) = decrease_predecessors f t 1 in
    let (g, ready) = process_satisfied_originators f' ts in
    (g, if becomes_ready then t ∷ ready else ready)

-- Enough predecessors are counted for all of the list.
abbrev pub Counted : Predecessors → List ℕ → Type 0
Counted f ts = (t : ℕ) → (count t ts ≤ f t) × (f t < 2 ^ 32)

update-Counted :
    (f : Predecessors) (t : ℕ) (ts : List ℕ)
    → Counted f (t ∷ ts)
    → Counted (update f t (f t - 1)) ts
update-Counted f t ts h j = ground (arith, h j)

decrease_one :
    (f : Predecessors) (t : ℕ) (ts : List ℕ) → Counted f (t ∷ ts) → decrease (f t) 1 ≡ f t - 1
decrease_one f t ts h = decrease_lem (f t) 1 (h t).1 (ground (arith, h t))

-- Each counter falls by the number of times that its task is on the list.
pub process-counters :
    (f : Predecessors) (ts : List ℕ)
    → Counted f ts
    → (j : ℕ) → (process_satisfied_originators f ts).0 j + count j ts ≡ f j
unfolding process_satisfied_originators
process-counters f [] h j = omega arith
process-counters f (t ∷ ts) h j =
    rw (decrease_one f t ts h)
      (ground (arith, process-counters (update f t (f t - 1)) ts (update-Counted f t ts h) j, h t))

-- A task is handed to the scheduler once if its last predecessor goes, and else not at all.
pub process-ready :
    (f : Predecessors) (ts : List ℕ)
    → Counted f ts
    → (j : ℕ)
    → count j (process_satisfied_originators f ts).1
      ≡ (if f j == 0 then 0 else if f j == count j ts then 1 else 0)
unfolding process_satisfied_originators
process-ready f [] h j = ground arith
process-ready f (t ∷ ts) h j = rw (decrease_one f t ts h) (
    ground (
      arith,
      process-ready (update f t (f t - 1)) ts (update-Counted f t ts h) j,
      h t,
      h j,
      update-Counted f t ts h j,
    ))
