-- ===== src/Discrete/Safety.antt =====
-- What the satisfiability of accesses promises: no races, and always something that may run.
use nanos.Common.{ℕ, ◌≡◌, refl, Bool, true, false, Option, none, some, arith}
use nanos.Discrete.Access.{Header}
use nanos.Discrete.Sequence.{Accesses, nil, cons}
use nanos.Discrete.Groups.{Together, eval-group, eval-none}
use nanos.Discrete.Invariant.{Inv, has_group}
use nanos.Discrete.History.{Reach, Reach-RootInv}

-- Each satisfied access of the sequence is in the group of `h`, which is satisfied as well.
abbrev pub AllTogether : Header → Accesses → Type 0
AllTogether h nil = Unit {0}
AllTogether h (cons c subs rest) =
    (c.satisfied ≡ true → (k : ℕ) × Together h c k) × AllTogether h rest

-- In every sequence of the hierarchy, two satisfied accesses are of one group.
abbrev pub RaceFree : Accesses → Type 0
RaceFree nil = Unit {0}
RaceFree (cons h subs rest) = AllTogether h rest × RaceFree subs × RaceFree rest

AllTogether-trans :
    (g h : Header) (s : Accesses)
    → (h.satisfied ≡ true → (k : ℕ) × Together g h k)
    → AllTogether h s
    → AllTogether g s
AllTogether-trans g h nil f a = tt
AllTogether-trans g h (cons c subs rest) f a = (
  λ e. let (k, t) = a.0 e in let (j, q) = f t.0 in (j, (q.0, q.1, ground arith)),
  AllTogether-trans g h rest f a.1,
)

Inv-AllTogether : (u : Bool) (h : Header) (s : Accesses) → Inv u true (some h) s → AllTogether h s
Inv-AllTogether u h nil i = tt
Inv-AllTogether u h (cons c subs rest) (a, below, after) =
    let near : (c.satisfied ≡ true → (k : ℕ) × Together h c k) =
      λ e. eval-group h c a.registered (a.sound e) in
    (near, AllTogether-trans h c rest near (Inv-AllTogether u c rest after))

Inv-RaceFree : (u b : Bool) (p : Option Header) (s : Accesses) → Inv u b p s → RaceFree s
Inv-RaceFree u b p nil i = tt
Inv-RaceFree u b p (cons h subs rest) (a, below, after) = (
  Inv-AllTogether u h rest after,
  Inv-RaceFree (has_group h) h.satisfied p subs below,
  Inv-RaceFree u true (some h) rest after,
)

-- In any order of releases and registrations of one address in which no task registers an
-- access in a sequence where it has one, and one below an access that is weak or satisfied is covered by it: two accesses of
-- one sequence are satisfied at the same time only if both are reads, both are concurrent, or both are
-- reductions with one operation; this holds for the root sequence and for the subaccesses of every
-- access.
pub Reach-RaceFree : {s : Accesses} → Reach s → RaceFree s
Reach-RaceFree {s} r = Inv-RaceFree false true none s (Reach-RootInv r)

-- The first access of the sequence is satisfied, and so is the first one of its subaccesses, and so
-- on down: the oldest access that is left never waits.
abbrev pub FirstReady : Accesses → Type 0
FirstReady nil = Unit {0}
FirstReady (cons h subs rest) = (h.satisfied ≡ true) × FirstReady subs

Inv-FirstReady : (u b : Bool) (s : Accesses) → b ≡ true → Inv u b none s → FirstReady s
Inv-FirstReady u b nil e i = tt
Inv-FirstReady u b (cons h subs rest) e (a, below, after) =
    let s : h.satisfied ≡ true = a.complete e (ground arith) (eval-none h) in
    (s, Inv-FirstReady (has_group h) h.satisfied subs s below)

-- In any order of releases and registrations of one address in which no task registers an
-- access in a sequence where it has one, and one below an access that is weak or satisfied is covered by it: the oldest
-- access at the address is satisfied, and so is the oldest of its subaccesses, at every depth.
pub Reach-FirstReady : {s : Accesses} → Reach s → FirstReady s
Reach-FirstReady {s} r = Inv-FirstReady false true s refl (Reach-RootInv r)
