-- ===== src/Fragmented/Fed.antt =====
-- The invariant of the chain: every satisfiability that an access propagates has reached the next one
-- or is on its way there, once.
use nanos.Common.{
  ℕ, ◌+◌, ◌≡◌, Bool, true, false, ◌&&◌, not, List, [], ◌∷◌, ◌++◌, if◌then◌else◌, arith, refl, ap,
  ◌∙◌, sym, subst,
}
use nanos.Fragmented.Access.{DataAccess, has_next, has_link}
use nanos.Fragmented.Changes.{UpdateOperation, Owner, differs}
use nanos.Fragmented.Update.{change, updated_access, completed}
use nanos.Fragmented.Sent.{
  Kind, reading, writing, sharing, reducing, IsPlain, has, carries, carried, number, sends,
}
use nanos.Fragmented.Sends.{change-access, carried-change}
use nanos.Fragmented.Chain.{Node, send}

pub carried-append :
    (k : Kind) (us vs : List UpdateOperation) → carried k (us ++ vs) ≡ carried k us + carried k vs
carried-append k [] vs = omega arith
carried-append k (u ∷ us) vs = omega (arith, carried-append k us vs)

pub carried_middle :
    (k : Kind) (before after : List UpdateOperation) (u : UpdateOperation)
    → carried k (before ++ u ∷ after) ≡ number (carries k u) + carried k (before ++ after)
carried_middle k [] after u = omega arith
carried_middle k (v ∷ before) after u = omega (arith, carried_middle k before after u)

-- What the access before sends.
abbrev pub Source : Type 0
Source = Kind → Bool

-- An access has, or is about to receive, what its source sends.
abbrev pub Fed : Source → Node → Type 0
Fed source n = (k : Kind) → carried k n.incoming + number (has k n.access) ≡ number (source k)

abbrev pub is_last : List Node → Bool
is_last [] = true
is_last (n ∷ ns) = false

abbrev pub Chained : Source → List Node → Type 0
Chained source [] = Unit {0}
Chained source (n ∷ ns) =
    IsPlain n.access
    × (has_next n.access ≡ not (is_last ns))
    × Fed source n
    × Chained (λ k. sends k n.access) ns

-- A change that only adds to what the access has and sends.
pub record Grows (a b : DataAccess) : Type 0 where
  pub plain : IsPlain b
  pub same_next : b.next ≡ a.next
  pub more : (k : Kind) → sends k a ≡ true → sends k b ≡ true

sends-updated_access :
    (k : Kind) (u : UpdateOperation) (a : DataAccess)
    → sends k a ≡ true
    → sends k (updated_access u a) ≡ true
unfolding updated_access
sends-updated_access reading u a h = ground arith
sends-updated_access writing u a h = ground arith
sends-updated_access sharing u a h = ground arith
sends-updated_access reducing u a h = ground arith

sends-completed : (k : Kind) (a : DataAccess) → sends k a ≡ true → sends k (completed a) ≡ true
unfolding completed
sends-completed reading a h = ground arith
sends-completed writing a h = ground arith
sends-completed sharing a h = ground arith
sends-completed reducing a h = ground arith

pub updated_access-Grows :
    (u : UpdateOperation) (a : DataAccess) → IsPlain a → Grows a (updated_access u a)
unfolding updated_access
updated_access-Grows u a p = record {
  plain = ground arith;
  same_next = refl;
  more = λ k h. sends-updated_access k u a h;
}

pub completed-Grows : (a : DataAccess) → IsPlain a → Grows a (completed a)
unfolding completed
completed-Grows a p = record {
  plain = ground arith;
  same_next = refl;
  more = λ k h. sends-completed k a h;
}

-- The set of CPUs plays no part.
abbrev pub with_cpus : DataAccess → List Bool → DataAccess
with_cpus b cpus = record b { reduction_cpu_set = cpus }

pub sends-with_cpus :
    (k : Kind) (b : DataAccess) (cpus : List Bool) → sends k (with_cpus b cpus) ≡ sends k b
sends-with_cpus reading b cpus = refl
sends-with_cpus writing b cpus = refl
sends-with_cpus sharing b cpus = refl
sends-with_cpus reducing b cpus = refl

pub has-with_cpus :
    (k : Kind) (b : DataAccess) (cpus : List Bool) → has k (with_cpus b cpus) ≡ has k b
has-with_cpus reading b cpus = refl
has-with_cpus writing b cpus = refl
has-with_cpus sharing b cpus = refl
has-with_cpus reducing b cpus = refl

grown :
    (was is after linked still_linked : Bool) (c : ℕ)
    → c ≡ (if still_linked then number (differs (linked && was) is) else 0)
    → linked ≡ true
    → still_linked ≡ linked
    → after ≡ is
    → (was ≡ true → is ≡ true)
    → c + number was ≡ number after
grown was is after linked still_linked c e l s a m = ground arith

-- What a change of an access in the chain keeps.
pub record Changed (a b c : DataAccess) (us : List UpdateOperation) : Type 0 where
  pub plain : IsPlain c
  pub same_next : has_next c ≡ has_next a
  pub has_what : (k : Kind) → has k c ≡ has k b
  pub sent : (k : Kind) → has_next a ≡ true → carried k us + number (sends k a) ≡ number (sends k c)

pub change-Changed :
    (parent : ℕ → ℕ) (f : DataAccess → DataAccess) (a : DataAccess) (o : Owner)
    → IsPlain a
    → Grows a (f a)
    → Changed a (f a) (change parent f a o).access (change parent f a o).to_next
change-Changed parent f a o p g =
    let (cpus, e) = change-access parent f a o g.plain in
    record {
      plain = subst IsPlain (sym e) (ground (arith, g.plain));
      same_next = ap has_next e ∙ ap has_link g.same_next;
      has_what = λ k. ap (has k) e ∙ has-with_cpus k (f a) cpus;
      sent = λ k h.
          grown (sends k a) (sends k (f a)) _ (has_next a) (has_next (f a)) _
            (carried-change parent f a o k p g.plain) h (ap has_link g.same_next)
            (ap (sends k) e ∙ sends-with_cpus k (f a) cpus) (g.more k);
    }

-- More of what the source sends is on its way.
pub send-Chained :
    (ns : List Node) (us : List UpdateOperation) (source source' : Source)
    → ((k : Kind) → is_last ns ≡ false → carried k us + number (source k) ≡ number (source' k))
    → Chained source ns
    → Chained source' (send us ns)
send-Chained [] us source source' h c = tt
send-Chained (n ∷ ns) us source source' h c =
    (c.0, c.1, λ k. omega (arith, carried-append k n.incoming us, c.2 k, h k refl), c.3)

is_last-send : (us : List UpdateOperation) (ns : List Node) → is_last ns ≡ is_last (send us ns)
is_last-send us [] = refl
is_last-send us (n ∷ ns) = refl

-- A change at the head of the chain: its access has what it has received, and what it sends is on its
-- way to the next one.
pub head-Chained :
    (source : Source) (n : Node) (ns : List Node) (b c : DataAccess) (us vs : List UpdateOperation)
    (o : Owner)
    → Changed n.access b c us
    → ((k : Kind) → carried k vs + number (has k b) ≡ number (source k))
    → Chained source (n ∷ ns)
    → Chained source (record n { access = c; owner = o; incoming = vs } ∷ send us ns)
head-Chained source n ns b c us vs o ch fed h = (
  ch.plain,
  ch.same_next ∙ h.1 ∙ ap not (is_last-send us ns),
  λ k. ap (λ x. carried k vs + number x) (ch.has_what k) ∙ fed k,
  send-Chained ns us (λ k. sends k n.access) (λ k. sends k c) (λ k l. ch.sent k (h.1 ∙ ap not l))
      h.3,
)
