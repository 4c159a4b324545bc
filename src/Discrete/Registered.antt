-- ===== src/Discrete/Registered.antt =====
-- A new access at the end of a sequence keeps the invariant, and is counted.
use nanos.Common.{
  ℕ, ◌+◌, ◌≡◌, refl, Bool, true, false, ◌||◌, Option, none, some, arith, List, ◌∷◌, ◌==◌,
  if◌then◌else◌,
}
use nanos.Discrete.Access.{Header}
use nanos.Discrete.Sequence.{Accesses, nil, cons, Level, effective_previous}
use nanos.Discrete.Groups.{is_registered}
use nanos.Discrete.Invariant.{Inv, AccessInv, AllCovered, Covers, has_group}
use nanos.Discrete.Register.{
  Request, Registration, registered, missing, failed, new_access, push_new, on_rest, on_subaccesses,
  register_task_data_access, new_predecessors,
}
use nanos.Discrete.Pending.{pending}

-- The last access is not of the task itself: the call is no upgrade.
abbrev pub Foreign : ℕ → Accesses → Type 0
Foreign t nil = Unit {0}
Foreign t (cons h subs nil) = (h.originator == t) ≡ false
Foreign t (cons h subs (cons h' subs' rest)) = Foreign t (cons h' subs' rest)

-- The access that a request would create, before anything is known of its place.
abbrev pub requested : Request → Header
requested r = new_access none r

-- What a successful registration has done to the sequence `s` after `p`.
pub record Pushed (u b : Bool) (p : Option Header) (r : Request) (s : Accesses)
    (result : Registration) : Type 0 where
  pub after : Accesses
  pub can_start : Bool
  pub is_result : result ≡ registered after can_start true
  pub inv : Inv u b p after
  pub cover : (g : Header) → AllCovered g s → Covers g (requested r) → AllCovered g after
  pub counted :
      (t : ℕ) → pending t after ≡ pending t s + (if r.task == t then new_predecessors result else 0)

push_new-pending :
    (p : Option Header) (r : Request) (t : ℕ)
    → pending t (cons (new_access p r) nil nil)
      ≡ 0 + (if r.task == t then new_predecessors (push_new p r) else 0)
unfolding push_new new_predecessors
push_new-pending p r t = ground arith

push_new-Pushed :
    (u b : Bool) (p : Option Header) (r : Request)
    → is_registered r.access_type ≡ true
    → (u ≡ true → has_group (requested r) ≡ true)
    → Pushed u b p r nil (push_new p r)
unfolding push_new
push_new-Pushed u b p r k g = record {
  after = cons (new_access p r) nil nil;
  can_start = (new_access p r).satisfied || (new_access p r).weak;
  is_result = refl;
  inv = (
    record {
      registered = k;
      grouped = g;
      sound = λ e. e;
      complete = λ _ _ v. v;
      covered = tt;
      unstarted = λ _ _. refl;
    },
    tt,
    tt,
  );
  cover = λ h c d. (d, tt);
  counted = λ t. push_new-pending p r t;
}

pub new_predecessors-on_rest :
    (h : Header) (subs : Accesses) (result : Registration)
    → new_predecessors (on_rest h subs result) ≡ new_predecessors result
unfolding on_rest new_predecessors
new_predecessors-on_rest h subs (registered s c n) = refl
new_predecessors-on_rest h subs missing = refl
new_predecessors-on_rest h subs failed = refl

pub new_predecessors-on_subaccesses :
    (h : Header) (rest : Accesses) (result : Registration)
    → new_predecessors (on_subaccesses h rest result) ≡ new_predecessors result
unfolding on_subaccesses new_predecessors
new_predecessors-on_subaccesses h rest (registered s c n) = refl
new_predecessors-on_subaccesses h rest missing = refl
new_predecessors-on_subaccesses h rest failed = refl

on_rest-Pushed :
    (u b : Bool) (p : Option Header) (r : Request) (h : Header) (subs rest : Accesses)
    (result : Registration)
    → AccessInv u b p h subs
    → Inv (has_group h) h.satisfied p subs
    → Pushed u true (some h) r rest result
    → Pushed u b p r (cons h subs rest) (on_rest h subs result)
unfolding on_rest
on_rest-Pushed u b p r h subs rest result a below d = record {
  after = cons h subs d.after;
  can_start = d.can_start;
  is_result = rw d.is_result;
  inv = (a, below, d.inv);
  cover = λ g c e. (c.0, d.cover g c.1 e);
  counted = λ t. rw (new_predecessors-on_rest h subs result) (omega (arith, d.counted t));
}

pub register-Pushed :
    (u b : Bool) (r : Request) (before : Level) (above : List Level) (s : Accesses)
    → is_registered r.access_type ≡ true
    → (u ≡ true → has_group (requested r) ≡ true)
    → Foreign r.task s
    → Inv u b (effective_previous (before ∷ above)) s
    → Pushed u b
        (effective_previous (before ∷ above))
        r
        s
        (register_task_data_access r before above s)
unfolding register_task_data_access
register-Pushed u b r before above nil k g f i =
    push_new-Pushed u b (effective_previous (before ∷ above)) r k g
register-Pushed u b r before above (cons h subs nil) k g f (a, below, after) = rw f (
    on_rest-Pushed u b (effective_previous (before ∷ above)) r h subs nil (push_new (some h) r) a
      below (push_new-Pushed u true (some h) r k g))
register-Pushed u b r before above (cons h subs (cons h' subs' rest)) k g f (a, below, after) =
    on_rest-Pushed u b (effective_previous (before ∷ above)) r h subs (cons h' subs' rest)
      (register_task_data_access r (h ∷ before) above (cons h' subs' rest)) a below
      (register-Pushed u true r (h ∷ before) above (cons h' subs' rest) k g f after)
