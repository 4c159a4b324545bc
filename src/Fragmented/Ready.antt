-- ===== src/Fragmented/Ready.antt =====
-- When the tasks of the chain become ready.
use nanos.Common.{
  ℕ, ◌+◌, ◌≡◌, inl, inr, Bool, true, false, ◌&&◌, not, List, [], ◌∷◌, ◌++◌, if◌then◌else◌, arith,
  ap, ◌∙◌, sym, subst, refl, Bool-cases,
}
use nanos.AccessType.{is_reduction}
use nanos.Task.Counter.{decrease_lem}
use nanos.Fragmented.Access.{DataAccess, create_access}
use nanos.Fragmented.Effects.{enforces_dependency}
use nanos.Fragmented.Changes.{UpdateOperation, Owner, Changes, discount_predecessors}
use nanos.Fragmented.Update.{
  change, updated_access, completed, registered_access, with_reduction_info, fully_satisfied,
  linked, finalize_access, no_changes, allocates, apply_update_operation_on_access,
}
use nanos.Fragmented.Sent.{IsPlain, number, reducing, carried, sends}
use nanos.Fragmented.Sends.{change-access}
use nanos.Fragmented.Chain.{
  Node, send, Declaration, declared, new_owner, link_to, prepare, register_first, register_after,
  Step, register_next, end_registration, finalize, process, later, Reach, start, next,
}
use nanos.Fragmented.Fed.{Source, Chained, updated_access-Grows, completed-Grows, carried_middle}
use nanos.Fragmented.Linked.{
  root, registered-Fresh, prepare-Fresh, fully_satisfied-IsPlain, linked-IsPlain, Reach-Chained,
}
use nanos.Fragmented.Counted.{
  Counted, IsBase, change-Counted, change_registers-Counted, completed-enforces, linked-enforces,
  updated_access-enforces, with_reduction_info-enforces, fully_satisfied-enforces,
  with_cpus-enforces,
}

abbrev pub base : Bool → ℕ
base registering = if registering then 2 else 0

abbrev pub AllCounted : List Node → Type 0
AllCounted [] = Unit {0}
AllCounted (n ∷ ns) =
    Counted (base n.registering) (enforces_dependency n.access) n.owner × AllCounted ns

base-IsBase : (b : Bool) → IsBase (base b)
base-IsBase true = inr refl
base-IsBase false = inl refl

declared-IsPlain : (d : Declaration) → IsPlain (registered_access (declared d))
unfolding registered_access create_access
declared-IsPlain d = ground arith

declared-registered : (d : Declaration) → (declared d).registered ≡ false
unfolding create_access
declared-registered d = refl

declared-topmost : (d : Declaration) → (declared d).topmost ≡ false
unfolding create_access
declared-topmost d = refl

with_reduction_info-IsPlain :
    (address : ℕ) (a : DataAccess) → IsPlain a → IsPlain (with_reduction_info address a)
unfolding with_reduction_info
with_reduction_info-IsPlain address a p = ground arith

AllCounted-send :
    (us : List UpdateOperation) (ns : List Node) → AllCounted ns → AllCounted (send us ns)
AllCounted-send us [] c = c
AllCounted-send us (n ∷ ns) c = c

end_registration-Counted :
    (e : Bool) (o : Owner) → Counted 2 e o → Counted 0 e (discount_predecessors 2 o)
unfolding discount_predecessors
end_registration-Counted e o c = ground (arith, decrease_lem o.predecessors 2)

-- An operation does not bring the news of a reduction twice.
received_before :
    (c : ℕ) (u had source : Bool)
    → number u + c + number had ≡ number source
    → u ≡ true
    → had ≡ false
received_before c u had source e t = ground arith

module _ (parent : ℕ → ℕ) where
  -- A change of an access and of its owner.
  abbrev CountedAfter : ℕ → Changes → Type 0
  CountedAfter b c = Counted b (enforces_dependency c.access) c.owner

  change-CountedAfter :
      (b : ℕ) (f : DataAccess → DataAccess) (a : DataAccess) (o : Owner)
      → IsPlain (f a)
      → Counted b (enforces_dependency (f a)) (change parent f a o).owner
      → CountedAfter b (change parent f a o)
  change-CountedAfter b f a o p c =
      let (cpus, e) = change-access parent f a o p in
      subst (λ x. Counted b x (change parent f a o).owner)
        (sym (ap enforces_dependency e ∙ with_cpus-enforces (f a) cpus)) c

  registered-CountedAfter :
      (d : Declaration)
      → CountedAfter 2 (change parent registered_access (declared d) (new_owner d))
  registered-CountedAfter d =
      let p = declared-IsPlain d in
      change-CountedAfter 2 registered_access (declared d) (new_owner d) p (
        change_registers-Counted parent (declared d) (new_owner d) refl refl (declared-registered d)
          (declared-topmost d) p)

  step-CountedAfter :
      (b : ℕ) (f : DataAccess → DataAccess) (a : DataAccess) (o : Owner)
      → IsBase b
      → IsPlain a
      → IsPlain (f a)
      → (enforces_dependency (f a) ≡ true → enforces_dependency a ≡ true)
      → Counted b (enforces_dependency a) o
      → CountedAfter b (change parent f a o)
  step-CountedAfter b f a o ib p q m c =
      change-CountedAfter b f a o q (change-Counted parent b f a o ib p q m c)

  prepare-Counted :
      (allocated : Bool) (d : Declaration) → CountedAfter 2 (prepare parent allocated d)
  unfolding prepare
  prepare-Counted false d = registered-CountedAfter d
  prepare-Counted true d =
      let c = change parent registered_access (declared d) (new_owner d) in
      let f = registered-Fresh parent d (new_owner d) in
      step-CountedAfter 2 (with_reduction_info d.address) c.access c.owner (inr refl) f.plain
        (with_reduction_info-IsPlain d.address c.access f.plain)
        (with_reduction_info-enforces d.address c.access (f.has_none reducing))
        (registered-CountedAfter d)

  register_first-Counted : (d : Declaration) → AllCounted (register_first parent d ∷ [])
  unfolding register_first
  register_first-Counted d =
      let c = prepare parent (is_reduction d.type) d in
      let f = prepare-Fresh parent (is_reduction d.type) d in
      (
        step-CountedAfter 2 fully_satisfied c.access c.owner (inr refl) f.plain
            (fully_satisfied-IsPlain c.access f.plain) (fully_satisfied-enforces c.access)
            (prepare-Counted (is_reduction d.type) d),
        tt,
      )

  register_after-Counted :
      (d : Declaration) (n : Node) (source : Source)
      → Chained source (n ∷ [])
      → AllCounted (n ∷ [])
      → AllCounted ((register_after parent d n).0 ∷ (register_after parent d n).1 ∷ [])
  unfolding register_after
  register_after-Counted d n source h c = (
    step-CountedAfter (base n.registering) (linked (link_to d)) n.access n.owner
        (base-IsBase n.registering) h.0 (linked-IsPlain (link_to d) n.access h.0)
        (linked-enforces (link_to d) n.access) c.0,
    (prepare-Counted (allocates n.access (declared d)) d, tt),
  )

  finalize-Counted :
      (n : Node)
      → IsPlain n.access
      → Counted (base n.registering) (enforces_dependency n.access) n.owner
      → CountedAfter (base n.registering) (finalize_access parent n.access n.owner)
  unfolding finalize_access
  finalize-Counted n p c =
      let a = n.access in
      let o = n.owner in
      let b = base n.registering in
      elim (Bool-cases a.complete) [
        | inl e ↦
            subst (CountedAfter b)
              (sym (ap (λ x. if x then no_changes a o else change parent completed a o) e)) c
        | inr e ↦
            subst (CountedAfter b)
              (sym (ap (λ x. if x then no_changes a o else change parent completed a o) e))
              (step-CountedAfter b completed a o (base-IsBase n.registering) p
                (completed-Grows a p).plain (completed-enforces a) c)
      ]

  process-Counted :
      (n : Node) (u : UpdateOperation)
      → IsPlain n.access
      → (u.set_reduction_info ≡ true → n.access.received_reduction_info ≡ false)
      → Counted (base n.registering) (enforces_dependency n.access) n.owner
      → CountedAfter
          (base n.registering)
          (apply_update_operation_on_access parent u n.access n.owner)
  unfolding apply_update_operation_on_access
  process-Counted n u p once c =
      step-CountedAfter (base n.registering) (updated_access u) n.access n.owner
        (base-IsBase n.registering) p (updated_access-Grows u n.access p).plain
        (updated_access-enforces u n.access once) c

  Step-Counted :
      {ns ms : List Node}
      → Step parent ns ms
      → (source : Source) → Chained source ns
      → AllCounted ns
      → AllCounted ms
  Step-Counted (register_next d n) source h c = register_after-Counted d n source h c
  Step-Counted (end_registration n ns e) source h c = (
    end_registration-Counted _ n.owner
        (subst (λ b. Counted b (enforces_dependency n.access) n.owner) (ap base e) c.0),
    c.1,
  )
  Step-Counted (finalize n ns) source h c = (finalize-Counted n h.0 c.0, AllCounted-send _ ns c.1)
  Step-Counted (process n ns u before after e) source h c = (
    process-Counted n u h.0
        (λ t.
          received_before (carried reducing (before ++ after)) u.set_reduction_info _
            (source reducing)
            (ap (λ x. x + number n.access.received_reduction_info)
                (sym (ap (carried reducing) e ∙ carried_middle reducing before after u))
              ∙ h.2 reducing)
            t)
        c.0,
    AllCounted-send _ ns c.1,
  )
  Step-Counted (later n st) source h c = (c.0, Step-Counted st (λ k. sends k n.access) h.3 c.1)

  Reach-Counted : {ns : List Node} → Reach parent ns → AllCounted ns
  Reach-Counted (start d) = register_first-Counted d
  Reach-Counted (next r st) = Step-Counted st root (Reach-Chained parent r) (Reach-Counted r)

  AllCounted-middle :
      (front : List Node) (n : Node) (back : List Node)
      → AllCounted (front ++ n ∷ back)
      → Counted (base n.registering) (enforces_dependency n.access) n.owner
  AllCounted-middle [] n back c = c.0
  AllCounted-middle (m ∷ front) n back c = AllCounted-middle front n back c.1

ready_when :
    (registering enforces : Bool) (o : Owner)
    → Counted (base registering) enforces o
    → o.ready ≡ number (not registering && not enforces)
ready_when registering enforces o c = ground arith

-- A task is put on the list of ready tasks once, as soon as it has registered its access and the access
-- does not make it wait, and not before.
pub Reach-ready :
    (parent : ℕ → ℕ) {ns : List Node}
    → Reach parent ns
    → (front back : List Node) (n : Node) → ns ≡ front ++ n ∷ back
    → n.owner.ready ≡ number (not n.registering && not (enforces_dependency n.access))
Reach-ready parent r front back n e =
    ready_when n.registering (enforces_dependency n.access) n.owner
      (AllCounted-middle parent front n back (subst AllCounted e (Reach-Counted parent r)))
