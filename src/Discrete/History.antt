-- ===== src/Discrete/History.antt =====
-- The accesses to one address over the life of the program: tasks register accesses, in the root
-- sequence or below the access of their parent, and release them, in any order.
use nanos.Common.{◌≡◌, sym, ◌∙◌, subst, Bool, true, false, none, []}
use nanos.Discrete.Sequence.{Accesses, nil, Position, unregister_data_access}
use nanos.Discrete.Groups.{is_registered}
use nanos.Discrete.Invariant.{Inv}
use nanos.Discrete.Register.{Request, registered, register_task_data_access, register_below}
use nanos.Discrete.Registered.{Foreign, register-Pushed}
use nanos.Discrete.RegisteredBelow.{Allows, register_below-PushedBelow}
use nanos.Discrete.Unregister.{unregister-Kept}

-- One call under the lock of the address. The registrations are those that are no upgrades.
pub data Step (s : Accesses) : Accesses → Type 0 where
  release : (x : Position) → Step s (unregister_data_access [] [] x s).0
  create :
      (r : Request) {t : Accesses} {can_start : Bool}
      → is_registered r.access_type ≡ true
      → Foreign r.task s
      → register_task_data_access r [] [] s ≡ registered t can_start true
      → Step s t
  create_below :
      (r : Request) (x : Position) {t : Accesses} {can_start : Bool}
      → is_registered r.access_type ≡ true
      → Allows r x s
      → register_below r [] [] x s ≡ registered t can_start true
      → Step s t

pub data Reach : Accesses → Type 0 where
  start : Reach nil
  next : {s t : Accesses} → Reach s → Step s t → Reach t

abbrev pub RootInv : Accesses → Type 0
RootInv = Inv false true none

registered-injective :
    {s t : Accesses} {b c d e : Bool} → registered s b c ≡ registered t d e → s ≡ t
registered-injective h = cc

-- Every call keeps the invariant of the hierarchy.
pub Step-RootInv : {s t : Accesses} → Step s t → RootInv s → RootInv t
unfolding unregister_data_access
Step-RootInv {s} (release x) i = (unregister-Kept false true [] [] x s i).inv
Step-RootInv {s} (create r {t = t} k f e) i =
    let d = register-Pushed false true r [] [] s k (λ h. absurd (cc)) f i in
    subst RootInv (registered-injective (sym d.is_result ∙ e)) d.inv
Step-RootInv {s} (create_below r x {t = t} k w e) i =
    let d = register_below-PushedBelow false true r [] [] x s k w i in
    subst RootInv (registered-injective (sym d.is_result ∙ e)) d.inv

pub Reach-RootInv : {s : Accesses} → Reach s → RootInv s
Reach-RootInv start = tt
Reach-RootInv (next r st) = Step-RootInv st (Reach-RootInv r)
