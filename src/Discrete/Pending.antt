-- ===== src/Discrete/Pending.antt =====
-- How many accesses keep a task from running: its strong accesses that are not satisfied.
use nanos.Common.{
  ℕ, ◌+◌, ◌≡◌, ◌&&◌, not, Option, none, some, inl, inr, arith, Bool-cases, List, [], ◌∷◌, count,
  count-append, ◌==◌, if◌then◌else◌,
}
use nanos.Discrete.Access.{Header}
use nanos.Discrete.Sequence.{
  Accesses, nil, cons, Level, effective_previous, append, last_or, reevaluate_and_propagate,
  reevaluate_next, Position, here, later, inside, unregister_data_access,
}
use nanos.Discrete.Reevaluate.{reevaluated, unchanged, propagated, started, now_satisfied}
use nanos.Discrete.Unregister.{reevaluate_next_satisfied, reevaluate_next_other}

abbrev pub blocks : ℕ → Header → ℕ
blocks t h = if not h.weak && not h.satisfied && h.originator == t then 1 else 0

abbrev pub pending : ℕ → Accesses → ℕ
pending t nil = 0
pending t (cons h subs rest) = blocks t h + pending t subs + pending t rest

-- The access that stands at a position.
unfoldable pub access_at : Position → Accesses → Option Header
access_at x nil = none
access_at here (cons h subs rest) = some h
access_at (later x) (cons h subs rest) = access_at x rest
access_at (inside x) (cons h subs rest) = access_at x subs

abbrev pub blocks_at : ℕ → Option Header → ℕ
blocks_at t none = 0
blocks_at t (some h) = blocks t h

pending-append : (t : ℕ) (s r : Accesses) → pending t (append s r) ≡ pending t s + pending t r
unfolding append
pending-append t nil r = omega arith
pending-append t (cons h subs rest) r = omega (arith, pending-append t rest r)

-- Each task on the list stands there once for each of its accesses that has become satisfied.
pub pending-reevaluate :
    (t : ℕ) (p : Option Header) (s : Accesses)
    → pending t (reevaluate_and_propagate p s).0 + count t (reevaluate_and_propagate p s).1
      ≡ pending t s
unfolding reevaluate_and_propagate
pending-reevaluate t p nil = omega arith
pending-reevaluate t p (cons h subs rest) = elim (reevaluated p h subs rest) [
  | unchanged w e ↦ rw e (omega arith)
  | propagated s w v e ↦ rw e (
      ground (
        arith,
        pending-reevaluate t p subs,
        pending-reevaluate t (some (now_satisfied h)) rest,
        count-append t (reevaluate_and_propagate p subs).1
            (reevaluate_and_propagate (some (now_satisfied h)) rest).1,
      ))
  | started s w v e ↦ rw e (ground (arith, pending-reevaluate t (some (now_satisfied h)) rest))
]

pending-reevaluate_next :
    (t : ℕ) (p : Option Header) (s : Accesses)
    → pending t (reevaluate_next p s).0 + count t (reevaluate_next p s).1 ≡ pending t s
unfolding reevaluate_next
pending-reevaluate_next t p nil = omega arith
pending-reevaluate_next t p (cons h subs rest) = elim (Bool-cases h.satisfied) [
  | inl s ↦ simp (reevaluate_next_satisfied p h subs rest s) (omega arith)
  | inr s ↦ simp (reevaluate_next_other p h subs rest s) (pending-reevaluate t p (cons h subs rest))
]

pub pending-unregister :
    (t : ℕ) (before : Level) (above : List Level) (x : Position) (s : Accesses)
    → pending t (unregister_data_access before above x s).0
        + count t (unregister_data_access before above x s).1
        + blocks_at t (access_at x s)
      ≡ pending t s
unfolding unregister_data_access access_at
pending-unregister t before above x nil = omega arith
pending-unregister t before above here (cons h subs rest) = omega (
  arith,
  pending-append t subs
      (reevaluate_next (last_or (effective_previous (before ∷ above)) subs) rest).0,
  pending-reevaluate_next t (last_or (effective_previous (before ∷ above)) subs) rest,
)
pending-unregister t before above (later x) (cons h subs rest) =
    omega (arith, pending-unregister t (h ∷ before) above x rest)
pending-unregister t before above (inside x) (cons h subs rest) =
    omega (arith, pending-unregister t [] (before ∷ above) x subs)
