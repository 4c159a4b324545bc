-- ===== src/Scheduler/PriorityOrder.antt =====
-- The classes of the priority scheduler, in the order of their priorities.
use nanos.Common.{
  ℕ, suc, ◌+◌, ◌^◌, ◌≡◌, ◌≤◌, ◌<◌, Bool, true, false, Option, none, some, List, [], ◌∷◌, ◌++◌, ◌==◌,
  ltb, ltb→lt, Bool-cases, inl, inr, if◌then◌else◌, arith,
}
use nanos.Scheduler.{ReadyTask}
use nanos.Scheduler.Priority.{key, push, goes_before, pop_front, requeue, choose}

-- The tasks of a class have its key, which is at most 2 ^ 64.
abbrev pub AllOf : ℕ → List ReadyTask → Type 0
AllOf k [] = Unit
AllOf k (t ∷ rest) = (t.priority + k ≡ 2 ^ 64) × AllOf k rest

abbrev pub IsClass : ℕ → List ReadyTask → Type 0
IsClass k [] = ⊥
IsClass k (t ∷ rest) = AllOf k (t ∷ rest)

-- The keys ascend from a bound on, and no class is empty.
abbrev pub IsOrdered : ℕ → List (ℕ × List ReadyTask) → Type 0
IsOrdered bound [] = Unit
IsOrdered bound ((k, queue) ∷ rest) = (bound ≤ k) × IsClass k queue × IsOrdered (suc k) rest

abbrev pub AllAtMost : ℕ → List ReadyTask → Type 0
AllAtMost p [] = Unit
AllAtMost p (t ∷ rest) = (t.priority ≤ p) × AllAtMost p rest

abbrev pub AtMost : ℕ → List (ℕ × List ReadyTask) → Type 0
AtMost p [] = Unit
AtMost p ((k, queue) ∷ rest) = AllAtMost p queue × AtMost p rest

AllOf-append :
    (k : ℕ) (ts : List ReadyTask) (t : ReadyTask)
    → t.priority + k ≡ 2 ^ 64
    → AllOf k ts
    → AllOf k (ts ++ t ∷ [])
AllOf-append k [] t e a = (e, tt)
AllOf-append k (u ∷ ts) t e (h, a) = (h, AllOf-append k ts t e a)

IsClass-push :
    (front : Bool) (k : ℕ) (queue : List ReadyTask) (t : ReadyTask)
    → t.priority + k ≡ 2 ^ 64
    → IsClass k queue
    → IsClass k (if front then t ∷ queue else queue ++ t ∷ [])
IsClass-push front k [] t e c = absurd c
IsClass-push true k (u ∷ ts) t e a = (e, a)
IsClass-push false k (u ∷ ts) t e (h, a) = (h, AllOf-append k ts t e a)

AllOf-AllAtMost : (p k : ℕ) (ts : List ReadyTask) → 2 ^ 64 ≤ p + k → AllOf k ts → AllAtMost p ts
AllOf-AllAtMost p k [] h a = tt
AllOf-AllAtMost p k (t ∷ ts) h (e, a) = (omega (arith, e, h), AllOf-AllAtMost p k ts h a)

IsOrdered-AtMost :
    (p bound : ℕ) (classes : List (ℕ × List ReadyTask))
    → 2 ^ 64 ≤ p + bound
    → IsOrdered bound classes
    → AtMost p classes
IsOrdered-AtMost p bound [] h o = tt
IsOrdered-AtMost p bound ((k, []) ∷ rest) h (b, c, o) = absurd c
IsOrdered-AtMost p bound ((k, t ∷ queue) ∷ rest) h (b, c, o) = (
  AllOf-AllAtMost p k (t ∷ queue) (omega (arith, b, h)) c,
  IsOrdered-AtMost p (suc k) rest (omega (arith, b, h)) o,
)

IsOrdered-weaken :
    (bound lower : ℕ) (classes : List (ℕ × List ReadyTask))
    → lower ≤ bound
    → IsOrdered bound classes
    → IsOrdered lower classes
IsOrdered-weaken bound lower [] h o = tt
IsOrdered-weaken bound lower ((k, queue) ∷ rest) h (b, c, o) = (omega (arith, b, h), c, o)

pub push-IsOrdered :
    (front : Bool) (k bound : ℕ) (t : ReadyTask) (classes : List (ℕ × List ReadyTask))
    → bound ≤ k
    → t.priority + k ≡ 2 ^ 64
    → IsOrdered bound classes
    → IsOrdered bound (push front k t classes)
unfolding push
push-IsOrdered front k bound t [] b e o = (b, (e, tt), tt)
push-IsOrdered front k bound t ((k', queue) ∷ rest) b e (b', c, o) = elim (Bool-cases (k == k')) [
  | inl same ↦ rw same (b', IsClass-push front k' queue t (ground (arith, e, same)) c, o)
  | inr other ↦ elim (Bool-cases (ltb k k')) [
    | inl before ↦ rw (other, before) (b, (e, tt), (ltb→lt k k' before, c, o))
    | inr after ↦
        rw (other, after)
          (b', c, push-IsOrdered front k (suc k') t rest (ground (arith, other, after)) e o)
  ]
]

pop_front-IsOrdered :
    (bound k : ℕ) (t : ReadyTask) (queue : List ReadyTask) (rest : List (ℕ × List ReadyTask))
    → IsOrdered bound ((k, t ∷ queue) ∷ rest)
    → IsOrdered bound (pop_front k queue rest)
pop_front-IsOrdered bound k t [] rest (b, c, o) =
    IsOrdered-weaken (suc k) bound rest (omega (arith, b)) o
pop_front-IsOrdered bound k t (u ∷ queue) rest (b, (e, c), o) = (b, c, o)

-- A priority of the source fits a long and is not the least, whose negation would overflow.
abbrev pub InRange : Option ReadyTask → Type 0
InRange none = Unit
InRange (some t) = (0 < t.priority) × (t.priority < 2 ^ 64)

pub requeue-IsOrdered :
    (successor : Option ReadyTask) (classes : List (ℕ × List ReadyTask))
    → InRange successor
    → IsOrdered 0 classes
    → IsOrdered 0 (requeue successor classes)
unfolding requeue
requeue-IsOrdered none classes r o = o
requeue-IsOrdered (some t) classes (l, h) o =
    push-IsOrdered false (key t.priority) 0 t classes (omega arith) (omega (arith, l, h)) o

-- Whether a task is at least as urgent as the immediate successor.
abbrev pub IsBefore : ReadyTask → Option ReadyTask → Type 0
IsBefore t none = Unit
IsBefore t (some successor) = successor.priority ≤ t.priority

top-AtMost :
    (p k : ℕ) (u : ReadyTask) (queue : List ReadyTask) (rest : List (ℕ × List ReadyTask))
    → u.priority ≤ p
    → IsOrdered 0 ((k, u ∷ queue) ∷ rest)
    → AtMost p ((k, u ∷ queue) ∷ rest)
top-AtMost p k u queue rest h (b, (e, c), o) =
    IsOrdered-AtMost p k ((k, u ∷ queue) ∷ rest) (omega (arith, e, h)) (omega arith, (e, c), o)

pub choose-best :
    (successor : Option ReadyTask) (classes : List (ℕ × List ReadyTask)) (t : ReadyTask)
    → IsOrdered 0 classes
    → (choose successor classes).1 ≡ some t
    → AtMost t.priority classes × IsBefore t successor
unfolding choose goes_before
choose-best none [] t o e = ground arith
choose-best (some v) [] t o e = (tt, ground (arith, e))
choose-best successor ((k, []) ∷ rest) t (b, c, o) e = absurd c
choose-best none ((k, u ∷ queue) ∷ rest) t o e =
    (top-AtMost t.priority k u queue rest (ground (arith, e)) o, tt)
choose-best (some v) ((k, u ∷ queue) ∷ rest) t o e =
    (top-AtMost t.priority k u queue rest (ground (arith, e)) o, ground (arith, e))

pub choose-IsOrdered :
    (successor : Option ReadyTask) (classes : List (ℕ × List ReadyTask))
    → IsOrdered 0 classes
    → InRange successor
    → IsOrdered 0 (choose successor classes).0
unfolding choose
choose-IsOrdered successor [] o r = tt
choose-IsOrdered successor ((k, []) ∷ rest) (b, c, o) r = absurd c
choose-IsOrdered successor ((k, u ∷ queue) ∷ rest) o r =
    elim (Bool-cases (goes_before u successor)) [
      | inl before ↦ rw before (
          requeue-IsOrdered successor (pop_front k queue rest) r
            (pop_front-IsOrdered 0 k u queue rest o))
      | inr after ↦ rw after o
    ]
