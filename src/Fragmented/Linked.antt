-- ===== src/Fragmented/Linked.antt =====
-- Every step of the chain keeps its invariant.
use nanos.Common.{
  ℕ, ◌+◌, ◌≡◌, Bool, true, false, ◌&&◌, ◌||◌, not, none, List, [], ◌∷◌, ◌++◌, if◌then◌else◌, arith,
  refl, ap, ◌∙◌, sym, subst, Bool-cases, inl, inr,
}
use nanos.AccessType.{is_reduction}
use nanos.Fragmented.Access.{DataAccess, DataAccessLink, has_next, has_link, create_access}
use nanos.Fragmented.Changes.{UpdateOperation, Owner, Changes, differs}
use nanos.Fragmented.Fed.{Changed}
use nanos.Fragmented.Update.{
  change, updated_access, completed, registered_access, with_reduction_info, fully_satisfied,
  linked, finalize_access, no_changes, allocates, apply_update_operation_on_access,
}
use nanos.Fragmented.Sent.{
  Kind, reading, writing, sharing, reducing, IsPlain, has, carries, carried, number, sends,
}
use nanos.Fragmented.Sends.{change-access, carried-change}
use nanos.Fragmented.Chain.{
  Node, send, Declaration, declared, new_owner, link_to, prepare, register_first, register_after,
  changed, Step, register_next, end_registration, finalize, process, later, Reach, start, next,
}
use nanos.Fragmented.Fed.{
  Source, Chained, change-Changed, updated_access-Grows, completed-Grows, head-Chained,
  carried_middle, has-with_cpus, sends-with_cpus, is_last, with_cpus,
}

has-registered_access :
    (k : Kind) (d : Declaration) → has k (registered_access (declared d)) ≡ false
unfolding registered_access create_access
has-registered_access reading d = refl
has-registered_access writing d = refl
has-registered_access sharing d = refl
has-registered_access reducing d = refl

has-with_reduction_info :
    (k : Kind) (address : ℕ) (a : DataAccess) → has k (with_reduction_info address a) ≡ has k a
unfolding with_reduction_info
has-with_reduction_info reading address a = refl
has-with_reduction_info writing address a = refl
has-with_reduction_info sharing address a = refl
has-with_reduction_info reducing address a = refl

has-fully_satisfied : (k : Kind) (a : DataAccess) → has k (fully_satisfied a) ≡ true
unfolding fully_satisfied
has-fully_satisfied reading a = refl
has-fully_satisfied writing a = refl
has-fully_satisfied sharing a = refl
has-fully_satisfied reducing a = refl

sends-linked : (k : Kind) (l : DataAccessLink) (a : DataAccess) → sends k (linked l a) ≡ sends k a
unfolding linked
sends-linked reading l a = refl
sends-linked writing l a = refl
sends-linked sharing l a = refl
sends-linked reducing l a = refl

has-linked : (k : Kind) (l : DataAccessLink) (a : DataAccess) → has k (linked l a) ≡ has k a
unfolding linked
has-linked reading l a = refl
has-linked writing l a = refl
has-linked sharing l a = refl
has-linked reducing l a = refl

has-completed : (k : Kind) (a : DataAccess) → has k (completed a) ≡ has k a
unfolding completed
has-completed reading a = refl
has-completed writing a = refl
has-completed sharing a = refl
has-completed reducing a = refl

has-updated_access :
    (k : Kind) (u : UpdateOperation) (a : DataAccess)
    → has k (updated_access u a) ≡ has k a || carries k u
unfolding updated_access
has-updated_access reading u a = refl
has-updated_access writing u a = refl
has-updated_access sharing u a = refl
has-updated_access reducing u a = refl

received_once :
    (c : ℕ) (had got source : Bool)
    → number got + c + number had ≡ number source
    → c + number (had || got) ≡ number source
received_once c had got source e = ground arith

pub with_cpus-IsPlain : (a : DataAccess) (cpus : List Bool) → IsPlain a → IsPlain (with_cpus a cpus)
with_cpus-IsPlain a cpus p = ground arith

pub fully_satisfied-IsPlain : (a : DataAccess) → IsPlain a → IsPlain (fully_satisfied a)
unfolding fully_satisfied
fully_satisfied-IsPlain a p = ground arith

fully_satisfied-next : (a : DataAccess) → has_next (fully_satisfied a) ≡ has_next a
unfolding fully_satisfied
fully_satisfied-next a = refl

pub linked-IsPlain : (l : DataAccessLink) (a : DataAccess) → IsPlain a → IsPlain (linked l a)
unfolding linked
linked-IsPlain l a p = ground arith

linked-next : (l : DataAccessLink) (a : DataAccess) → has_next (linked l a) ≡ true
unfolding linked
linked-next l a = refl

received_all : {b : Bool} → b ≡ true → 0 + number b ≡ number true
received_all e = ground arith

-- An access that had no next sends all at once, to one that has nothing.
all_sent :
    (was is after linked still_linked received : Bool) (c : ℕ)
    → c ≡ (if still_linked then number (differs (linked && was) is) else 0)
    → linked ≡ false
    → still_linked ≡ true
    → after ≡ is
    → received ≡ false
    → c + number received ≡ number after
all_sent was is after linked still_linked received c e l s a r = ground arith

-- The source of the first access: it has everything.
abbrev pub root : Source
root k = true

-- A registered access that has and leads to nothing.
pub record Fresh (a : DataAccess) : Type 0 where
  pub plain : IsPlain a
  pub no_next : a.next ≡ none
  pub has_none : (k : Kind) → has k a ≡ false

module _ (parent : ℕ → ℕ) where
  pub registered-Fresh :
      (d : Declaration) (o : Owner) → Fresh (change parent registered_access (declared d) o).access
  unfolding registered_access create_access
  registered-Fresh d o =
      let (cpus, e) = change-access parent registered_access (declared d) o (ground arith) in
      subst Fresh (sym e) (record {
        plain = ground arith;
        no_next = refl;
        has_none =
            λ k. has-with_cpus k (registered_access (declared d)) cpus ∙ has-registered_access k d;
      })

  pub with_info-Fresh :
      (address : ℕ) (a : DataAccess) (o : Owner)
      → Fresh a
      → Fresh (change parent (with_reduction_info address) a o).access
  unfolding with_reduction_info
  with_info-Fresh address a o f =
      let p = f.plain in
      let (cpus, e) = change-access parent (with_reduction_info address) a o (ground arith) in
      subst Fresh (sym e) (record {
        plain = ground arith;
        no_next = f.no_next;
        has_none = λ k.
            has-with_cpus k (with_reduction_info address a) cpus
            ∙ has-with_reduction_info k address a
            ∙ f.has_none k;
      })

  pub prepare-Fresh : (b : Bool) (d : Declaration) → Fresh (prepare parent b d).access
  unfolding prepare
  prepare-Fresh true d =
      let c = change parent registered_access (declared d) (new_owner d) in
      with_info-Fresh d.address c.access c.owner (registered-Fresh d (new_owner d))
  prepare-Fresh false d = registered-Fresh d (new_owner d)

  pub register_first-Chained : (d : Declaration) → Chained root (register_first parent d ∷ [])
  unfolding register_first
  register_first-Chained d =
      let a = (prepare parent (is_reduction d.type) d).access in
      let o = (prepare parent (is_reduction d.type) d).owner in
      let f = prepare-Fresh (is_reduction d.type) d in
      let p = fully_satisfied-IsPlain a f.plain in
      let (cpus, e) = change-access parent fully_satisfied a o p in
      (
        subst IsPlain (sym e) (with_cpus-IsPlain (fully_satisfied a) cpus p),
        ap has_next e ∙ fully_satisfied-next a ∙ ap has_link f.no_next,
        λ k.
            received_all
              (ap (has k) e ∙ has-with_cpus k (fully_satisfied a) cpus ∙ has-fully_satisfied k a),
        tt,
      )

  pub register_after-Chained :
      (d : Declaration) (source : Source) (n : Node)
      → Chained source (n ∷ [])
      → Chained source ((register_after parent d n).0 ∷ (register_after parent d n).1 ∷ [])
  unfolding register_after
  register_after-Chained d source n h =
      let l = link_to d in
      let a = n.access in
      let c = prepare parent (allocates a (declared d)) d in
      let f = prepare-Fresh (allocates a (declared d)) d in
      let p = linked-IsPlain l a h.0 in
      let (cpus, e) = change-access parent (linked l) a n.owner p in
      (
        subst IsPlain (sym e) (with_cpus-IsPlain (linked l a) cpus p),
        ap has_next e ∙ linked-next l a,
        λ k.
            ap (λ x. carried k n.incoming + number x)
              (ap (has k) e ∙ has-with_cpus k (linked l a) cpus ∙ has-linked k l a)
            ∙ h.2 k,
        (
          f.plain,
          ap has_link f.no_next,
          λ k.
              all_sent (sends k a) (sends k (linked l a)) _ (has_next a) (has_next (linked l a)) _ _
                (carried-change parent (linked l) a n.owner k h.0 p) h.1 (linked-next l a)
                (ap (sends k) e ∙ sends-with_cpus k (linked l a) cpus) (f.has_none k),
          tt,
        ),
      )

  step-Chained :
      (source : Source) (n : Node) (ns : List Node)
      → Chained source (n ∷ ns)
      → (c : Changes) (b : DataAccess) (vs : List UpdateOperation)
      → Changed n.access b c.access c.to_next
      → ((k : Kind) → carried k vs + number (has k b) ≡ number (source k))
      → Chained source (record (changed parent c n) { incoming = vs } ∷ send c.to_next ns)
  step-Chained source n ns h c b vs ch fed =
      head-Chained source n ns b c.access c.to_next vs c.owner ch fed h

  finalize-Chained :
      (source : Source) (n : Node) (ns : List Node)
      → Chained source (n ∷ ns)
      → Chained source (
          changed parent (finalize_access parent n.access n.owner) n
          ∷ send (finalize_access parent n.access n.owner).to_next ns)
  unfolding finalize_access
  finalize-Chained source n ns h =
      let a = n.access in
      let o = n.owner in
      let P : Changes → Type 0 = λ c. Chained source (changed parent c n ∷ send c.to_next ns) in
      elim (Bool-cases a.complete) [
        | inl e ↦
            subst P (sym (ap (λ b. if b then no_changes a o else change parent completed a o) e)) (
              step-Chained source n ns h (no_changes a o) a n.incoming
                (record {
                  plain = h.0;
                  same_next = refl;
                  has_what = λ k. refl;
                  sent = λ k l. omega arith;
                })
                h.2)
        | inr e ↦
            subst P (sym (ap (λ b. if b then no_changes a o else change parent completed a o) e)) (
              step-Chained source n ns h (change parent completed a o) (completed a) n.incoming
                (change-Changed parent completed a o h.0 (completed-Grows a h.0))
                (λ k. ap (λ x. carried k n.incoming + number x) (has-completed k a) ∙ h.2 k))
      ]

  process-Chained :
      (source : Source) (n : Node) (ns : List Node) (u : UpdateOperation)
      (before after : List UpdateOperation)
      → n.incoming ≡ before ++ u ∷ after
      → Chained source (n ∷ ns)
      → Chained source (
          record (changed parent (apply_update_operation_on_access parent u n.access n.owner) n) {
            incoming = before ++ after;
          }
          ∷ send (apply_update_operation_on_access parent u n.access n.owner).to_next ns)
  unfolding apply_update_operation_on_access
  process-Chained source n ns u before after e h =
      let a = n.access in
      step-Chained source n ns h (change parent (updated_access u) a n.owner) (updated_access u a)
        (before ++ after)
        (change-Changed parent (updated_access u) a n.owner h.0 (updated_access-Grows u a h.0))
        (λ k.
          ap (λ x. carried k (before ++ after) + number x) (has-updated_access k u a)
          ∙ received_once (carried k (before ++ after)) (has k a) (carries k u) (source k) (
              ap (λ x. x + number (has k a))
                (sym (ap (carried k) e ∙ carried_middle k before after u))
              ∙ h.2 k))

  is_last-Step : {ns ms : List Node} → Step parent ns ms → is_last ns ≡ is_last ms
  is_last-Step (register_next d n) = refl
  is_last-Step (end_registration n ns e) = refl
  is_last-Step (finalize n ns) = refl
  is_last-Step (process n ns u before after e) = refl
  is_last-Step (later n st) = refl

  pub Step-Chained :
      {ns ms : List Node}
      → Step parent ns ms
      → (source : Source) → Chained source ns
      → Chained source ms
  Step-Chained (register_next d n) source h = register_after-Chained d source n h
  Step-Chained (end_registration n ns e) source h = h
  Step-Chained (finalize n ns) source h = finalize-Chained source n ns h
  Step-Chained (process n ns u before after e) source h =
      process-Chained source n ns u before after e h
  Step-Chained (later n st) source h =
      (h.0, h.1 ∙ ap not (is_last-Step st), h.2, Step-Chained st (λ k. sends k n.access) h.3)

  pub Reach-Chained : {ns : List Node} → Reach parent ns → Chained root ns
  Reach-Chained (start d) = register_first-Chained d
  Reach-Chained (next r st) = Step-Chained st root (Reach-Chained r)
