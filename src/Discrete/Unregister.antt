-- ===== src/Discrete/Unregister.antt =====
-- Removing an access anywhere in the hierarchy keeps the invariant.
use nanos.Common.{
  ℕ, ◌≡◌, refl, Bool, true, false, ◌||◌, Option, none, some, inl, inr, ◌⊎◌, arith, Bool-cases, List,
  [], ◌∷◌,
}
use nanos.Discrete.Access.{Header}
use nanos.Discrete.Sequence.{
  Accesses, nil, cons, reevaluate_and_propagate, Level, effective_previous, append, last_or,
  reevaluate_next, Position, here, later, inside, unregister_data_access,
}
use nanos.Discrete.Groups.{
  group, is_registered, Enabled, eval-group, group-eval, eval-same_group, eval-none,
}
use nanos.Discrete.Invariant.{
  Inv, AccessInv, AllCovered, Covers, has_group, has_group_of, group_of, is_none, or_left,
  Inv-replace,
}
use nanos.Discrete.Reevaluate.{reevaluate-Inv, reevaluate-AllCovered}

-- Below a satisfied access with a group the last access is satisfied, in that group.
last_or-eval :
    (p : Option Header) (g : Header) (k : ℕ) (u b : Bool) (s : Accesses) (x : Header)
    → is_registered g.access_type ≡ true
    → group g ≡ some k
    → group x ≡ some k
    → Enabled p g
    → AllCovered g s
    → u ≡ true
    → b ≡ true
    → Inv u b p s
    → Enabled (last_or p s) x
unfolding last_or
last_or-eval p g k u b nil x r e f v c hu hb i = eval-same_group p g x k r e f v
last_or-eval p g k u b (cons m subs rest) x r e f v c hu hb (a, below, after) =
    let em : group m ≡ some k = c.0 k e in
    let sm : m.satisfied ≡ true =
      a.complete hb (or_left u (is_none p) hu) (eval-same_group p g m k r e em v) in
    last_or-eval (some m) g k u true rest x r e f (group-eval m g k sm em e) c.1 hu refl after

-- What follows the removed access may be satisfied after its new effective previous as well.
removed_weaker :
    (u b : Bool) (p : Option Header) (h : Header) (subs : Accesses)
    → AccessInv u b p h subs
    → Inv (has_group h) h.satisfied p subs
    → (x : Header) → is_registered x.access_type ≡ true
    → Enabled (some h) x
    → Enabled (last_or p subs) x
removed_weaker u b p h subs a below x r v =
    let (k, t) = eval-group h x r v in
    last_or-eval p h k (has_group h) h.satisfied subs x a.registered t.1 t.2 (a.sound t.0) a.covered
      (has_group_of h k t.1) t.0 below

AccessInv-strict :
    {u b : Bool} {p : Option Header} {h : Header} {subs : Accesses} (v : Bool)
    → AccessInv u b p h subs
    → h.satisfied ≡ true
    → AccessInv u v p h subs
AccessInv-strict v a s = record {
  registered = a.registered;
  grouped = a.grouped;
  sound = a.sound;
  complete = λ _ _ _. s;
  covered = a.covered;
  unstarted = a.unstarted;
}

pub reevaluate_next_satisfied :
    (q : Option Header) (h : Header) (subs rest : Accesses)
    → h.satisfied ≡ true
    → reevaluate_next q (cons h subs rest) ≡ (cons h subs rest, [])
unfolding reevaluate_next
reevaluate_next_satisfied q h subs rest s = rw s

pub reevaluate_next_other :
    (q : Option Header) (h : Header) (subs rest : Accesses)
    → h.satisfied ≡ false
    → reevaluate_next q (cons h subs rest) ≡ reevaluate_and_propagate q (cons h subs rest)
unfolding reevaluate_next
reevaluate_next_other q h subs rest s = ground arith

reevaluate_next-Inv :
    (u : Bool) (q : Option Header) (s : Accesses)
    → Inv u false q s
    → Inv u true q (reevaluate_next q s).0
unfolding reevaluate_next
reevaluate_next-Inv u q nil i = tt
reevaluate_next-Inv u q (cons h subs rest) i = elim (Bool-cases h.satisfied) [
  | inl s ↦ simp (reevaluate_next_satisfied q h subs rest s) (AccessInv-strict true i.0 s, i.1, i.2)
  | inr s ↦ simp (reevaluate_next_other q h subs rest s) (reevaluate-Inv u q (cons h subs rest) i)
]

or_mono : (u v n : Bool) → (u ≡ true → v ≡ true) → (u || n) ≡ true → (v || n) ≡ true
or_mono true v n f e = rw (f refl)
or_mono false v n f e = ground arith

-- No subaccess of `h` could be satisfied at the place of `h`.
abbrev NoneReady : Bool → Bool → Option Header → Header → Type 0
NoneReady u b p h =
    b ≡ true
    → (u || is_none p) ≡ true
    → (m : Header) → is_registered m.access_type ≡ true
    → Covers h m
    → Enabled p m
    → ⊥

Inv-relax : (u b : Bool) (p : Option Header) (s : Accesses) → Inv u true p s → Inv u b p s
Inv-relax u b p nil i = tt
Inv-relax u b p (cons h subs rest) (a, below, after) = (
  record {
    registered = a.registered;
    grouped = a.grouped;
    sound = a.sound;
    complete = λ _. a.complete refl;
    covered = a.covered;
    unstarted = a.unstarted;
  },
  below,
  after,
)

-- The subaccesses take over the place of their super-access, and `t` follows them.
append-Inv :
    (u v b c : Bool) (p : Option Header) (h : Header) (s t : Accesses)
    → (u ≡ true → v ≡ true)
    → (c ≡ true) ⊎ NoneReady u b p h
    → AllCovered h s
    → Inv v c p s
    → Inv u true (last_or p s) t
    → Inv u b p (append s t)
unfolding append last_or
append-Inv u v b c p h nil t f r cov i j = Inv-relax u b p t j
append-Inv u v b c p h (cons m subs rest) t f r cov (a, below, after) j = (
  record {
    registered = a.registered;
    grouped = λ e. a.grouped (f e);
    sound = a.sound;
    complete = λ e o w. elim r [
      | inl ce ↦ a.complete ce (or_mono u v (is_none p) f o) w
      | inr bad ↦ absurd (bad e o m a.registered cov.0 w)
    ];
    covered = a.covered;
    unstarted = a.unstarted;
  },
  below,
  append-Inv u v true true (some m) h rest t f (inl refl) cov.1 after j,
)

none_ready :
    (u b : Bool) (p : Option Header) (h : Header) (subs : Accesses)
    → AccessInv u b p h subs
    → h.satisfied ≡ false
    → NoneReady u b p h
none_ready u b none h subs a s e o m r c v =
    let sat : h.satisfied ≡ true = a.complete e o (eval-none h) in cc
none_ready u b (some q) h subs a s e o m r c v =
    let (k, g) = group_of h (a.grouped (ground arith)) in
    let sat : h.satisfied ≡ true = a.complete e o (eval-same_group (some q) m h k r (c k g) g v) in
    cc

append-AllCovered :
    (g : Header) (s t : Accesses) → AllCovered g s → AllCovered g t → AllCovered g (append s t)
unfolding append
append-AllCovered g nil t c d = d
append-AllCovered g (cons h subs rest) t c d = (c.0, append-AllCovered g rest t c.1 d)

AllCovered-trans : (g h : Header) (s : Accesses) → Covers g h → AllCovered h s → AllCovered g s
AllCovered-trans g h nil c d = tt
AllCovered-trans g h (cons m subs rest) c d =
    (λ k e. d.0 k (c k e), AllCovered-trans g h rest c d.1)

reevaluate_next-AllCovered :
    (g : Header) (q : Option Header) (s : Accesses)
    → AllCovered g s
    → AllCovered g (reevaluate_next q s).0
unfolding reevaluate_next
reevaluate_next-AllCovered g q nil c = tt
reevaluate_next-AllCovered g q (cons h subs rest) c = elim (Bool-cases h.satisfied) [
  | inl s ↦ simp (reevaluate_next_satisfied q h subs rest s) c
  | inr s ↦
      simp (reevaluate_next_other q h subs rest s) (reevaluate-AllCovered g q (cons h subs rest) c)
]

-- What removal keeps of a sequence whose effective previous is `p`.
pub record Kept (u b : Bool) (p : Option Header) (s s' : Accesses) : Type 0 where
  pub inv : Inv u b p s'
  pub cover : (g : Header) → AllCovered g s → AllCovered g s'
  pub empty : s ≡ nil → s' ≡ nil

unregister_here :
    (u b : Bool) (p : Option Header) (h : Header) (subs rest : Accesses)
    → Inv u b p (cons h subs rest)
    → Kept u b p (cons h subs rest) (append subs (reevaluate_next (last_or p subs) rest).0)
unregister_here u b p h subs rest (a, below, after) = record {
  inv =
      append-Inv u (has_group h) b h.satisfied p h subs (reevaluate_next (last_or p subs) rest).0
        a.grouped ready a.covered below
        (reevaluate_next-Inv u (last_or p subs) rest
          (Inv-replace h (last_or p subs) (removed_weaker u b p h subs a below) u true rest after));
  cover = λ g c.
      append-AllCovered g subs (reevaluate_next (last_or p subs) rest).0
        (AllCovered-trans g h subs c.0 a.covered)
        (reevaluate_next-AllCovered g (last_or p subs) rest c.1);
  empty = λ e. absurd (ground arith);
}
  where
    ready : (h.satisfied ≡ true) ⊎ NoneReady u b p h
    ready = elim (Bool-cases h.satisfied) [
      | inl s ↦ inl s
      | inr s ↦ inr (none_ready u b p h subs a s)
    ]

pub unregister-Kept :
    (u b : Bool) (before : Level) (above : List Level) (x : Position) (s : Accesses)
    → Inv u b (effective_previous (before ∷ above)) s
    → Kept u b (effective_previous (before ∷ above)) s (unregister_data_access before above x s).0
unfolding unregister_data_access
unregister-Kept u b before above x nil i = record { inv = tt; cover = λ g c. c; empty = λ e. refl }
unregister-Kept u b before above here (cons h subs rest) i =
    unregister_here u b (effective_previous (before ∷ above)) h subs rest i
unregister-Kept u b before above (later x) (cons h subs rest) (a, below, after) =
    let ih = unregister-Kept u true (h ∷ before) above x rest after in
    record {
      inv = (a, below, ih.inv);
      cover = λ g c. (c.0, ih.cover g c.1);
      empty = λ e. absurd (ground arith);
    }
unregister-Kept u b before above (inside x) (cons h subs rest) (a, below, after) =
    let ih = unregister-Kept (has_group h) h.satisfied [] (before ∷ above) x subs below in
    record {
      inv = (
        record {
          registered = a.registered;
          grouped = a.grouped;
          sound = a.sound;
          complete = a.complete;
          covered = ih.cover h a.covered;
          unstarted = λ w s. ih.empty (a.unstarted w s);
        },
        ih.inv,
        after,
      );
      cover = λ g c. (c.0, c.1);
      empty = λ e. absurd (ground arith);
    }
