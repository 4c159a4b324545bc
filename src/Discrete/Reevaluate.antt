-- ===== src/Discrete/Reevaluate.antt =====
-- Looking at a sequence again restores the invariant, whatever its first access was before.
use nanos.Common.{
  ◌≡◌, refl, Bool, true, false, Option, some, ◌⊎◌, inl, inr, arith, Bool-cases, [], ◌∷◌, ◌++◌,
}
use nanos.Discrete.Access.{Header, evaluate, reevaluate_satisfiability}
use nanos.Discrete.Sequence.{Accesses, nil, cons, reevaluate_and_propagate}
use nanos.Discrete.Groups.{is_registered, Enabled, eval-group}
use nanos.Discrete.Invariant.{Inv, AccessInv, AllCovered, has_group, Inv-replace}

abbrev pub now_satisfied : Header → Header
now_satisfied h = record h { satisfied = true }

unchanged_header :
    (p : Option Header) (h : Header)
    → ((h.satisfied ≡ true) ⊎ (evaluate p h.access_type h.reduction_info ≡ false))
    → reevaluate_satisfiability p h ≡ (h, false)
unfolding reevaluate_satisfiability
unchanged_header p h (inl s) = ground arith
unchanged_header p h (inr v) = elim (Bool-cases h.satisfied) [
  | inl s ↦ ground arith
  | inr s ↦ rw (s, v)
]

satisfied_header :
    (p : Option Header) (h : Header)
    → h.satisfied ≡ false
    → Enabled p h
    → reevaluate_satisfiability p h ≡ (now_satisfied h, true)
unfolding reevaluate_satisfiability
satisfied_header p h s v = ground arith

-- The three ways of the loop at one access.
pub data Reevaluated (p : Option Header) (h : Header) (subs rest : Accesses) : Type 0 where
  unchanged :
      ((h.satisfied ≡ true) ⊎ (evaluate p h.access_type h.reduction_info ≡ false))
      → reevaluate_and_propagate p (cons h subs rest) ≡ (cons h subs rest, [])
      → Reevaluated p h subs rest
  propagated :
      h.satisfied ≡ false
      → h.weak ≡ true
      → Enabled p h
      → reevaluate_and_propagate p (cons h subs rest) ≡ (
        cons
            (now_satisfied h)
            (reevaluate_and_propagate p subs).0
            (reevaluate_and_propagate (some (now_satisfied h)) rest).0,
        (reevaluate_and_propagate p subs).1
            ++ (reevaluate_and_propagate (some (now_satisfied h)) rest).1,
      )
      → Reevaluated p h subs rest
  started :
      h.satisfied ≡ false
      → h.weak ≡ false
      → Enabled p h
      → reevaluate_and_propagate p (cons h subs rest) ≡ (
        cons (now_satisfied h) subs (reevaluate_and_propagate (some (now_satisfied h)) rest).0,
        h.originator ∷ (reevaluate_and_propagate (some (now_satisfied h)) rest).1,
      )
      → Reevaluated p h subs rest

pub reevaluated :
    (p : Option Header) (h : Header) (subs rest : Accesses) → Reevaluated p h subs rest
unfolding reevaluate_and_propagate
reevaluated p h subs rest = elim (Bool-cases h.satisfied) [
  | inl s ↦ unchanged (inl s) (rw (unchanged_header p h (inl s)))
  | inr s ↦ elim (Bool-cases (evaluate p h.access_type h.reduction_info)) [
    | inr v ↦ unchanged (inr v) (rw (unchanged_header p h (inr v)))
    | inl v ↦ elim (Bool-cases h.weak) [
      | inl w ↦ propagated s w v (rw (satisfied_header p h s v, w))
      | inr w ↦ started s w v (rw (satisfied_header p h s v, w))
    ]
  ]
]

-- After an access that was not satisfied nothing was satisfied, so any previous will do.
unsatisfied_weaker :
    (h : Header) (q : Option Header)
    → h.satisfied ≡ false
    → (x : Header) → is_registered x.access_type ≡ true
    → Enabled (some h) x
    → Enabled q x
unsatisfied_weaker h q s x r v = let (k, t) = eval-group h x r v in absurd (ground arith)

AccessInv-satisfied :
    {u b : Bool} {p : Option Header} {h : Header} {subs : Accesses} (subs' : Accesses)
    → AccessInv u b p h subs
    → Enabled p h
    → AllCovered h subs'
    → AccessInv u true p (now_satisfied h) subs'
AccessInv-satisfied subs' a v c = record {
  registered = a.registered;
  grouped = a.grouped;
  sound = λ _. v;
  complete = λ _ _ _. refl;
  covered = c;
  unstarted = λ _ e. absurd (ground arith);
}

-- A sequence is covered or not whatever has been satisfied in it.
pub reevaluate-AllCovered :
    (g : Header) (p : Option Header) (s : Accesses)
    → AllCovered g s
    → AllCovered g (reevaluate_and_propagate p s).0
unfolding reevaluate_and_propagate
reevaluate-AllCovered g p nil c = tt
reevaluate-AllCovered g p (cons h subs rest) c = elim (reevaluated p h subs rest) [
  | unchanged w e ↦ rw e c
  | propagated s w v e ↦ rw e (c.0, reevaluate-AllCovered g (some (now_satisfied h)) rest c.1)
  | started s w v e ↦ rw e (c.0, reevaluate-AllCovered g (some (now_satisfied h)) rest c.1)
]

pub reevaluate-Inv :
    (u : Bool) (p : Option Header) (s : Accesses)
    → Inv u false p s
    → Inv u true p (reevaluate_and_propagate p s).0
unfolding reevaluate_and_propagate
reevaluate-Inv u p nil i = tt
reevaluate-Inv u p (cons h subs rest) (a, below, after) = elim (reevaluated p h subs rest) [
  | unchanged w e ↦ rw e (
    record {
      registered = a.registered;
      grouped = a.grouped;
      sound = a.sound;
      complete = λ _ _ v. elim w [ inl s ↦ s | inr n ↦ absurd (ground arith) ];
      covered = a.covered;
      unstarted = a.unstarted;
    },
    below,
    after,
  )
  | propagated s w v e ↦ rw e (
    AccessInv-satisfied (reevaluate_and_propagate p subs).0 a v
        (reevaluate-AllCovered h p subs a.covered),
    reevaluate-Inv (has_group h) p subs (rw s at below),
    reevaluate-Inv u (some (now_satisfied h)) rest (
        Inv-replace h (some (now_satisfied h)) (unsatisfied_weaker h (some (now_satisfied h)) s) u
          true rest after),
  )
  | started s w v e ↦ rw e (
    AccessInv-satisfied subs a v a.covered,
    rw (a.unstarted w s) tt,
    reevaluate-Inv u (some (now_satisfied h)) rest (
        Inv-replace h (some (now_satisfied h)) (unsatisfied_weaker h (some (now_satisfied h)) s) u
          true rest after),
  )
]
