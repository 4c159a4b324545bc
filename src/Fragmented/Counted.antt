-- ===== src/Fragmented/Counted.antt =====
-- The predecessors of a task with one access: when `decreasePredecessors` makes it ready.
use nanos.Common.{ℕ, ◌+◌, ◌≡◌, ◌⊎◌, Bool, true, false, List, ◌==◌, arith, ◌∙◌, sym, subst, refl}
use nanos.Task.Counter.{increase_lem, decrease_lem}
use nanos.Fragmented.Access.{DataAccess, DataAccessLink}
use nanos.Fragmented.Effects.{StatusEffects, effects, enforces_dependency}
use nanos.Fragmented.Changes.{
  UpdateOperation, Owner, owner_changes, registration_changes, update_dependency, discount_access,
  discount_removal, count_access, handle_data_access_status_changes,
}
use nanos.Fragmented.Update.{
  change, updated_access, completed, registered_access, with_reduction_info, fully_satisfied,
  linked,
}
use nanos.Fragmented.Sent.{IsPlain, number}

-- The owner owes `base` predecessors besides the one of its access, and has become ready once if it
-- owes none.
pub record Counted (base : ℕ) (enforces : Bool) (o : Owner) : Type 0 where
  pub predecessors : o.predecessors ≡ base + number enforces
  pub ready : o.ready ≡ number (o.predecessors == 0)

discount_removal-Counted :
    {base : ℕ} {enforces : Bool} (o : Owner)
    → Counted base enforces o
    → Counted base enforces (discount_removal o)
unfolding discount_removal
discount_removal-Counted o c = ground arith

discount_access-Counted :
    {base : ℕ} {enforces : Bool} (a : DataAccess) (o : Owner)
    → Counted base enforces o
    → Counted base enforces (discount_access a o)
unfolding discount_access
discount_access-Counted a o c = ground arith

update_dependency-Counted :
    {base : ℕ} (i u : StatusEffects) (o : Owner)
    → base ≡ 0 ⊎ base ≡ 2
    → (u.enforces_dependency ≡ true → i.enforces_dependency ≡ true)
    → Counted base i.enforces_dependency o
    → Counted base u.enforces_dependency (update_dependency i u o)
unfolding update_dependency
update_dependency-Counted i u o b m c = ground (arith, decrease_lem o.predecessors 1)

-- What the first `registerTaskDataAccesses` owes: the two predecessors that it takes back at its end.
abbrev pub IsBase : ℕ → Type 0
IsBase base = base ≡ 0 ⊎ base ≡ 2

owner_changes-Counted :
    (base : ℕ) (i u : StatusEffects) (a : DataAccess) (o : Owner)
    → IsBase base
    → i.is_registered ≡ true
    → u.is_registered ≡ true
    → (u.enforces_dependency ≡ true → i.enforces_dependency ≡ true)
    → Counted base i.enforces_dependency o
    → Counted base u.enforces_dependency (owner_changes i u a o)
unfolding owner_changes registration_changes
owner_changes-Counted base i u a o b ri ru m c = ground (
  arith,
  update_dependency-Counted i u o b m c,
  discount_access-Counted a (update_dependency i u o),
)

-- A task that declares its access: it is counted if it waits for the access.
count_access-Counted :
    (i u : StatusEffects) (a : DataAccess) (o : Owner)
    → o.predecessors ≡ 2
    → o.ready ≡ 0
    → Counted 2 u.enforces_dependency (count_access i u a o)
unfolding count_access
count_access-Counted i u a o p r = ground (arith, increase_lem 2 1)

registration-Counted :
    (i u : StatusEffects) (a : DataAccess) (o : Owner)
    → o.predecessors ≡ 2
    → o.ready ≡ 0
    → i.is_registered ≡ false
    → u.is_registered ≡ true
    → u.enforces_dependency ≡ i.enforces_dependency
    → u.is_removable ≡ i.is_removable
    → Counted 2 u.enforces_dependency (owner_changes i u a o)
unfolding owner_changes registration_changes update_dependency
registration-Counted i u a o p r ri ru e m = ground (arith, count_access-Counted i u a o p r)

handle-owner :
    (i u : StatusEffects) (a : DataAccess) (o : Owner)
    → u.is_registered ≡ true
    → (handle_data_access_status_changes i u a o).owner ≡ owner_changes i u a o
unfolding handle_data_access_status_changes
handle-owner i u a o r = simp r

-- How the changes of the chain bear on the wait for the access.
registered-enforces :
    (a : DataAccess) → enforces_dependency (registered_access a) ≡ enforces_dependency a
unfolding enforces_dependency registered_access
registered-enforces a = refl

pub completed-enforces :
    (a : DataAccess) → enforces_dependency (completed a) ≡ true → enforces_dependency a ≡ true
unfolding enforces_dependency completed
completed-enforces a e = e

pub linked-enforces :
    (l : DataAccessLink) (a : DataAccess)
    → enforces_dependency (linked l a) ≡ true
    → enforces_dependency a ≡ true
unfolding enforces_dependency linked
linked-enforces l a e = e

pub updated_access-enforces :
    (u : UpdateOperation) (a : DataAccess)
    → (u.set_reduction_info ≡ true → a.received_reduction_info ≡ false)
    → enforces_dependency (updated_access u a) ≡ true
    → enforces_dependency a ≡ true
unfolding enforces_dependency updated_access
updated_access-enforces u a once e = ground arith

pub with_reduction_info-enforces :
    (address : ℕ) (a : DataAccess)
    → a.received_reduction_info ≡ false
    → enforces_dependency (with_reduction_info address a) ≡ true
    → enforces_dependency a ≡ true
unfolding enforces_dependency with_reduction_info
with_reduction_info-enforces address a r e = ground arith

pub fully_satisfied-enforces :
    (a : DataAccess) → enforces_dependency (fully_satisfied a) ≡ true → enforces_dependency a ≡ true
unfolding enforces_dependency fully_satisfied
fully_satisfied-enforces a e = ground arith

pub with_cpus-enforces :
    (a : DataAccess) (cpus : List Bool)
    → enforces_dependency (record a { reduction_cpu_set = cpus }) ≡ enforces_dependency a
unfolding enforces_dependency
with_cpus-enforces a cpus = refl

module _ (parent : ℕ → ℕ) where
  effects-enforces :
      (a : DataAccess) → (effects parent a).enforces_dependency ≡ enforces_dependency a
  unfolding effects
  effects-enforces a = refl

  effects-is_registered : (a : DataAccess) → (effects parent a).is_registered ≡ a.registered
  unfolding effects
  effects-is_registered a = refl

  registered-removable :
      (a : DataAccess)
      → a.topmost ≡ false
      → (effects parent (registered_access a)).is_removable ≡ (effects parent a).is_removable
  unfolding effects registered_access
  registered-removable a t = ground arith

  change-owner :
      (f : DataAccess → DataAccess) (a : DataAccess) (o : Owner)
      → IsPlain (f a)
      → (change parent f a o).owner
        ≡ owner_changes (effects parent a) (effects parent (f a)) (f a) o
  unfolding change
  change-owner f a o q =
      handle-owner (effects parent a) (effects parent (f a)) (f a) o
        (effects-is_registered (f a) ∙ q.is_registered)

  effects-Counted :
      (base : ℕ) (f : DataAccess → DataAccess) (a : DataAccess) (o : Owner)
      → IsPlain (f a)
      → Counted base
          (effects parent (f a)).enforces_dependency
          (owner_changes (effects parent a) (effects parent (f a)) (f a) o)
      → Counted base (enforces_dependency (f a)) (change parent f a o).owner
  effects-Counted base f a o q c =
      subst (Counted base (enforces_dependency (f a))) (sym (change-owner f a o q)) (
        subst
          (λ b. Counted base b (owner_changes (effects parent a) (effects parent (f a)) (f a) o))
          (effects-enforces (f a)) c)

  pub change-Counted :
      (base : ℕ) (f : DataAccess → DataAccess) (a : DataAccess) (o : Owner)
      → IsBase base
      → IsPlain a
      → IsPlain (f a)
      → (enforces_dependency (f a) ≡ true → enforces_dependency a ≡ true)
      → Counted base (enforces_dependency a) o
      → Counted base (enforces_dependency (f a)) (change parent f a o).owner
  change-Counted base f a o b p q m c = effects-Counted base f a o q (
      owner_changes-Counted base (effects parent a) (effects parent (f a)) (f a) o b
        (effects-is_registered a ∙ p.is_registered) (effects-is_registered (f a) ∙ q.is_registered)
        (λ e. effects-enforces a ∙ m (sym (effects-enforces (f a)) ∙ e))
        (subst (λ x. Counted base x o) (sym (effects-enforces a)) c))

  pub change_registers-Counted :
      (a : DataAccess) (o : Owner)
      → o.predecessors ≡ 2
      → o.ready ≡ 0
      → a.registered ≡ false
      → a.topmost ≡ false
      → IsPlain (registered_access a)
      → Counted 2
          (enforces_dependency (registered_access a))
          (change parent registered_access a o).owner
  change_registers-Counted a o p r n t q = effects-Counted 2 registered_access a o q (
      registration-Counted (effects parent a) (effects parent (registered_access a))
        (registered_access a) o p r (effects-is_registered a ∙ n)
        (effects-is_registered (registered_access a) ∙ q.is_registered)
        (effects-enforces (registered_access a) ∙ registered-enforces a ∙ sym (effects-enforces a))
        (registered-removable a t))
