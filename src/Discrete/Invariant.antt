-- ===== src/Discrete/Invariant.antt =====
-- The invariant of a sequence of accesses, and how it moves to another effective previous.
use nanos.Common.{ℕ, ◌≡◌, refl, Bool, true, false, ◌||◌, not, Option, none, some, arith}
use nanos.Discrete.Access.{Header}
use nanos.Discrete.Sequence.{Accesses, nil, cons}
use nanos.Discrete.Groups.{group, is_registered, Enabled, eval-group, eval-same_group}

abbrev pub is_none {ℓ} : {A : Type ℓ} → Option A → Bool
is_none none = true
is_none (some _) = false

-- The parent's access must allow those of its children: a read has only reads below it, and so on.
abbrev pub Covers : Header → Header → Type 0
Covers h c = (k : ℕ) → group h ≡ some k → group c ≡ some k

abbrev pub AllCovered : Header → Accesses → Type 0
AllCovered h nil = Unit {0}
AllCovered h (cons c subs rest) = Covers h c × AllCovered h rest

abbrev pub has_group : Header → Bool
has_group h = not (is_none (group h))

-- What holds of one access: it is satisfied only if its effective previous lets it be; in a `strict`
-- place where its siblings are of one group (`uniform`), or with nothing before it, also conversely;
-- and a task whose strong access is not satisfied has not run, so it has no children.
pub record AccessInv (uniform strict : Bool) (previous : Option Header) (h : Header)
    (subs : Accesses) : Type 0 where
  pub registered : is_registered h.access_type ≡ true
  pub grouped : uniform ≡ true → has_group h ≡ true
  pub sound : h.satisfied ≡ true → Enabled previous h
  pub complete :
      strict ≡ true → (uniform || is_none previous) ≡ true → Enabled previous h → h.satisfied ≡ true
  pub covered : AllCovered h subs
  pub unstarted : h.weak ≡ false → h.satisfied ≡ false → subs ≡ nil

-- The first place of a root sequence is strict; that of a sequence of subaccesses is strict once the
-- super-access is satisfied; any later place is strict.
abbrev pub Inv : Bool → Bool → Option Header → Accesses → Type 0
Inv uniform strict previous nil = Unit {0}
Inv uniform strict previous (cons h subs rest) =
    AccessInv uniform strict previous h subs
    × Inv (has_group h) h.satisfied previous subs
    × Inv uniform true (some h) rest

pub has_group_of : (h : Header) (k : ℕ) → group h ≡ some k → has_group h ≡ true
has_group_of h k e = ground arith

pub group_of : (h : Header) → has_group h ≡ true → (k : ℕ) × (group h ≡ some k)
group_of h e = ground arith

pub or_left : (a b : Bool) → a ≡ true → (a || b) ≡ true
or_left a b e = ground arith

-- The effective previous `p` is replaced by `q`, which lets no fewer accesses be satisfied.
module _ (p q : Option Header)
    (weaker : (x : Header) → is_registered x.access_type ≡ true → Enabled p x → Enabled q x) where
  -- Below a satisfied access with a group, everything is satisfied.
  pub Inv-replace_strict :
      (g : Header) (k : ℕ) (u b : Bool) (s : Accesses)
      → is_registered g.access_type ≡ true
      → group g ≡ some k
      → Enabled p g
      → AllCovered g s
      → u ≡ true
      → b ≡ true
      → Inv u b p s
      → Inv u b q s
  Inv-replace_strict g k u b nil r e v c hu hb i = tt
  Inv-replace_strict g k u b (cons m subs rest) r e v c hu hb (a, below, after) =
      let em : group m ≡ some k = c.0 k e in
      let vm : Enabled p m = eval-same_group p g m k r e em v in
      let sm : m.satisfied ≡ true = a.complete hb (or_left u (is_none p) hu) vm in
      (
        record {
          registered = a.registered;
          grouped = a.grouped;
          sound = λ _. weaker m a.registered vm;
          complete = λ _ _ _. sm;
          covered = a.covered;
          unstarted = a.unstarted;
        },
        Inv-replace_strict m k (has_group m) m.satisfied subs a.registered em vm a.covered
            (has_group_of m k em) sm below,
        after,
      )

module _ (h : Header) (q : Option Header)
    (weaker : (x : Header)
      → is_registered x.access_type ≡ true
      → Enabled (some h) x
      → Enabled q x) where
  -- The first access is then perhaps not satisfied although it could be.
  pub Inv-replace : (u b : Bool) (s : Accesses) → Inv u b (some h) s → Inv u false q s
  Inv-replace u b nil i = tt
  Inv-replace u b (cons m subs rest) (a, below, after) = (
    record {
      registered = a.registered;
      grouped = a.grouped;
      sound = λ s. weaker m a.registered (a.sound s);
      complete = λ c _ _. absurd (ground arith);
      covered = a.covered;
      unstarted = a.unstarted;
    },
    replace_below m.satisfied refl (Inv-replace (has_group m) m.satisfied subs below),
    after,
  )
    where
      replace_below :
          (s : Bool)
          → m.satisfied ≡ s
          → Inv (has_group m) false q subs
          → Inv (has_group m) m.satisfied q subs
      replace_below true e ih =
          let (k, t) = eval-group h m a.registered (a.sound e) in
          Inv-replace_strict (some h) q weaker m k (has_group m) m.satisfied subs a.registered t.2
            (a.sound e) a.covered (has_group_of m k t.2) e below
      replace_below false e ih = rw e ih
