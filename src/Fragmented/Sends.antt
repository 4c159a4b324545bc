-- ===== src/Fragmented/Sends.antt =====
-- What a change of an access sends to the next one is what it then propagates and did not before
-- (`handleDataAccessStatusChanges` of the fragmented dependency system).
use nanos.Common.{
  ℕ, ◌≡◌, Bool, true, false, ◌&&◌, Option, none, some, List, if◌then◌else◌, arith, refl, ap, ◌∙◌,
}
use nanos.Fragmented.Access.{DataAccess, DataAccessLink, has_next, has_link}
use nanos.Fragmented.Effects.{StatusEffects, effects, propagation_to_next}
use nanos.Fragmented.Changes.{
  UpdateOperation, Owner, propagate_to_next, handle_data_access_status_changes, delayed, differs,
  next_operations, fragment_operations, is_empty_operation,
}
use nanos.Fragmented.Update.{change}
use nanos.Fragmented.Sent.{
  Kind, reading, writing, sharing, reducing, IsPlain, carries, carried, number, propagates, sends,
  propagates-propagation_to_next,
}

-- An operation is dropped only if it is empty.
carried-delayed : (k : Kind) (u : UpdateOperation) → carried k (delayed u) ≡ number (carries k u)
unfolding is_empty_operation
carried-delayed reading u = ground arith
carried-delayed writing u = ground arith
carried-delayed sharing u = ground arith
carried-delayed reducing u = ground arith

module _ (i u : StatusEffects) (b : DataAccess) (o : Owner) where
  propagate-access :
      (l : DataAccessLink)
      → (propagate_to_next i u b l).0
        ≡ record b { reduction_cpu_set = (propagate_to_next i u b l).0.reduction_cpu_set }
  unfolding propagate_to_next
  propagate-access l = ground arith

  carried-propagate :
      (k : Kind) (l : DataAccessLink)
      → carried k (propagate_to_next i u b l).1
        ≡ number (differs (propagates k i.to_next) (propagates k u.to_next))
  unfolding propagate_to_next
  carried-propagate reading l = carried-delayed reading _
  carried-propagate writing l = carried-delayed writing _
  carried-propagate sharing l = carried-delayed sharing _
  carried-propagate reducing l = carried-delayed reducing _

  next-access :
      (l : Option DataAccessLink)
      → (next_operations i u b l).0
        ≡ record b { reduction_cpu_set = (next_operations i u b l).0.reduction_cpu_set }
  unfolding next_operations
  next-access none = refl
  next-access (some l) = propagate-access l

  carried-next :
      (k : Kind) (l : Option DataAccessLink)
      → carried k (next_operations i u b l).1 ≡ (
          if has_link l
          then number (differs (propagates k i.to_next) (propagates k u.to_next))
          else 0)
  unfolding next_operations
  carried-next k none = refl
  carried-next k (some l) = carried-propagate k l

  handle-access :
      b.has_subaccesses ≡ false
      → u.is_registered ≡ true
      → (handle_data_access_status_changes i u b o).access ≡ (next_operations i u b b.next).0
  unfolding handle_data_access_status_changes fragment_operations
  handle-access h r = simp (r, ap (λ (a : DataAccess). a.has_subaccesses) (next-access b.next) ∙ h)

  carried-handle :
      (k : Kind)
      → u.is_registered ≡ true
      → carried k (handle_data_access_status_changes i u b o).to_next ≡ (
          if has_next b
          then number (differs (propagates k i.to_next) (propagates k u.to_next))
          else 0)
  unfolding handle_data_access_status_changes
  carried-handle k r = simp r (carried-next k b.next)

sent_if_linked :
    (linked before after was is : Bool)
    → before ≡ was
    → after ≡ linked && is
    → (if linked then number (differs before after) else 0)
      ≡ (if linked then number (differs was is) else 0)
sent_if_linked linked before after was is e f = ground arith

-- A change of one access, with what it sends on.
module _ (parent : ℕ → ℕ) where
  effects-registered : (a : DataAccess) → (effects parent a).is_registered ≡ a.registered
  unfolding effects
  effects-registered a = refl

  effects-to_next : (a : DataAccess) → (effects parent a).to_next ≡ propagation_to_next a
  unfolding effects
  effects-to_next a = refl

  -- Only the set of CPUs may differ from what the change makes of the access.
  pub change-access :
      (f : DataAccess → DataAccess) (a : DataAccess) (o : Owner)
      → IsPlain (f a)
      → (cpus : List Bool) × ((change parent f a o).access
          ≡ record (f a) { reduction_cpu_set = cpus })
  unfolding change
  change-access f a o p =
      let i = effects parent a in
      let u = effects parent (f a) in
      (
        (next_operations i u (f a) (f a).next).0.reduction_cpu_set,
        handle-access i u (f a) o p.undivided (effects-registered (f a) ∙ p.is_registered)
            ∙ next-access i u (f a) o (f a).next,
      )

  -- The next access is sent what has become true.
  pub carried-change :
      (f : DataAccess → DataAccess) (a : DataAccess) (o : Owner) (k : Kind)
      → IsPlain a
      → IsPlain (f a)
      → carried k (change parent f a o).to_next
        ≡ (if has_next (f a) then number (differs (has_next a && sends k a) (sends k (f a))) else 0)
  unfolding change
  carried-change f a o k p q =
      carried-handle (effects parent a) (effects parent (f a)) (f a) o k
        (effects-registered (f a) ∙ q.is_registered)
      ∙ sent_if_linked (has_next (f a)) _ _ (has_next a && sends k a) (sends k (f a))
          (propagates-propagation_to_next k a p) (propagates-propagation_to_next k (f a) q)
