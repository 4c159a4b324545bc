-- ===== src/Discrete/RegisteredBelow.antt =====
-- A new access below the access of the parent task keeps the invariant, and is counted.
use nanos.Common.{
  ℕ, ◌+◌, ◌≡◌, Bool, true, Option, some, ◌⊎◌, arith, List, [], ◌∷◌, ◌==◌, if◌then◌else◌,
}
use nanos.Discrete.Access.{Header}
use nanos.Discrete.Sequence.{
  Accesses, nil, cons, Level, effective_previous, Position, here, later, inside,
}
use nanos.Discrete.Groups.{is_registered}
use nanos.Discrete.Invariant.{Inv, AccessInv, AllCovered, Covers, has_group, has_group_of, group_of}
use nanos.Discrete.Register.{
  Request, Registration, registered, on_rest, on_subaccesses, register_task_data_access,
  register_below, new_predecessors,
}
use nanos.Discrete.Pending.{pending}
use nanos.Discrete.Registered.{
  Foreign, requested, Pushed, register-Pushed, new_predecessors-on_rest,
  new_predecessors-on_subaccesses,
}

-- The parent task may create the access: its own access at the position is weak or satisfied and
-- covers the new one, and the call is no upgrade.
abbrev pub Allows : Request → Position → Accesses → Type 0
Allows r x nil = ⊥
Allows r here (cons h subs rest) =
    ((h.weak ≡ true) ⊎ (h.satisfied ≡ true)) × Covers h (requested r) × Foreign r.task subs
Allows r (later x) (cons h subs rest) = Allows r x rest
Allows r (inside x) (cons h subs rest) = Allows r x subs

-- What a successful registration below an access has done to the sequence `s` after `p`.
pub record PushedBelow (u b : Bool) (p : Option Header) (r : Request) (s : Accesses)
    (result : Registration) : Type 0 where
  pub after : Accesses
  pub can_start : Bool
  pub is_result : result ≡ registered after can_start true
  pub inv : Inv u b p after
  pub cover : (g : Header) → AllCovered g s → AllCovered g after
  pub counted :
      (t : ℕ) → pending t after ≡ pending t s + (if r.task == t then new_predecessors result else 0)

has_group-requested :
    (h : Header) (r : Request)
    → Covers h (requested r)
    → has_group h ≡ true
    → has_group (requested r) ≡ true
has_group-requested h r c e = let (k, q) = group_of h e in has_group_of (requested r) k (c k q)

nested_here :
    (u b : Bool) (p : Option Header) (r : Request) (h : Header) (subs rest : Accesses)
    (result : Registration)
    → Inv u b p (cons h subs rest)
    → (h.weak ≡ true) ⊎ (h.satisfied ≡ true)
    → Covers h (requested r)
    → Pushed (has_group h) h.satisfied p r subs result
    → PushedBelow u b p r (cons h subs rest) (on_subaccesses h rest result)
unfolding on_subaccesses
nested_here u b p r h subs rest result (a, below, after) w c d = record {
  after = cons h d.after rest;
  can_start = d.can_start;
  is_result = rw d.is_result;
  inv = (
    record {
      registered = a.registered;
      grouped = a.grouped;
      sound = a.sound;
      complete = a.complete;
      covered = d.cover h a.covered c;
      unstarted = λ x y. absurd (ground arith);
    },
    d.inv,
    after,
  );
  cover = λ g e. e;
  counted = λ t. rw (new_predecessors-on_subaccesses h rest result) (omega (arith, d.counted t));
}

nested_inside :
    (u b : Bool) (p : Option Header) (r : Request) (h : Header) (subs rest : Accesses)
    (result : Registration)
    → Inv u b p (cons h subs rest)
    → (subs ≡ nil → ⊥)
    → PushedBelow (has_group h) h.satisfied p r subs result
    → PushedBelow u b p r (cons h subs rest) (on_subaccesses h rest result)
unfolding on_subaccesses
nested_inside u b p r h subs rest result (a, below, after) n d = record {
  after = cons h d.after rest;
  can_start = d.can_start;
  is_result = rw d.is_result;
  inv = (
    record {
      registered = a.registered;
      grouped = a.grouped;
      sound = a.sound;
      complete = a.complete;
      covered = d.cover h a.covered;
      unstarted = λ x y. absurd (n (a.unstarted x y));
    },
    d.inv,
    after,
  );
  cover = λ g e. e;
  counted = λ t. rw (new_predecessors-on_subaccesses h rest result) (omega (arith, d.counted t));
}

nested_later :
    (u b : Bool) (p : Option Header) (r : Request) (h : Header) (subs rest : Accesses)
    (result : Registration)
    → AccessInv u b p h subs
    → Inv (has_group h) h.satisfied p subs
    → PushedBelow u true (some h) r rest result
    → PushedBelow u b p r (cons h subs rest) (on_rest h subs result)
unfolding on_rest
nested_later u b p r h subs rest result a below d = record {
  after = cons h subs d.after;
  can_start = d.can_start;
  is_result = rw d.is_result;
  inv = (a, below, d.inv);
  cover = λ g c. (c.0, d.cover g c.1);
  counted = λ t. rw (new_predecessors-on_rest h subs result) (omega (arith, d.counted t));
}

not-Allows-nil : (r : Request) (x : Position) (s : Accesses) → Allows r x s → s ≡ nil → ⊥
not-Allows-nil r x nil w e = w
not-Allows-nil r x (cons h subs rest) w e = cc

pub register_below-PushedBelow :
    (u b : Bool) (r : Request) (before : Level) (above : List Level) (x : Position) (s : Accesses)
    → is_registered r.access_type ≡ true
    → Allows r x s
    → Inv u b (effective_previous (before ∷ above)) s
    → PushedBelow u b (effective_previous (before ∷ above)) r s (register_below r before above x s)
unfolding register_below
register_below-PushedBelow u b r before above x nil k w i = absurd w
register_below-PushedBelow u b r before above here (cons h subs rest) k w i =
    nested_here u b (effective_previous (before ∷ above)) r h subs rest
      (register_task_data_access r [] (before ∷ above) subs) i w.0 w.1
      (register-Pushed (has_group h) h.satisfied r [] (before ∷ above) subs k
        (has_group-requested h r w.1) w.2 i.1)
register_below-PushedBelow u b r before above (later x) (cons h subs rest) k w (a, below, after) =
    nested_later u b (effective_previous (before ∷ above)) r h subs rest
      (register_below r (h ∷ before) above x rest) a below
      (register_below-PushedBelow u true r (h ∷ before) above x rest k w after)
register_below-PushedBelow u b r before above (inside x) (cons h subs rest) k w i =
    nested_inside u b (effective_previous (before ∷ above)) r h subs rest
      (register_below r [] (before ∷ above) x subs) i (not-Allows-nil r x subs w)
      (register_below-PushedBelow (has_group h) h.satisfied r [] (before ∷ above) x subs k w i.1)
