-- ===== src/Discrete/Sequence.antt =====
-- The sequences of accesses: src/dependencies/discrete/DataAccessSequenceImplementation.hpp and
-- DataAccessRegistration.hpp, without the instrumentation, under the lock of the sequence.
use nanos.Common.{ℕ, List, [], ◌∷◌, ◌++◌, Option, none, some, if◌then◌else◌}
use nanos.Discrete.Access.{Header, reevaluate_satisfiability}

-- `cons h subaccesses rest`: an access, the sequence of its subaccesses, and what follows it.
pub data Accesses : Type 0 where
  nil : Accesses
  cons : Header → Accesses → Accesses → Accesses

-- The accesses before a position, the nearest first.
abbrev pub Level : Type 0
Level = List Header

-- `getEffectivePrevious`: the position is given by what stands before it in its own sequence, in
-- that of the super-access, and so on up to the root sequence.
unfoldable pub effective_previous : List Level → Option Header
effective_previous [] = none
effective_previous ([] ∷ above) = effective_previous above
effective_previous ((p ∷ before) ∷ above) = some p

-- The loop of `reevaluateAndPropagateSatisfiability`: the accesses afterwards and the tasks that
-- it puts on the list of satisfied originators.
unfoldable pub reevaluate_and_propagate : Option Header → Accesses → Accesses × List ℕ
unfolding reevaluate_satisfiability
reevaluate_and_propagate previous nil = (nil, [])
reevaluate_and_propagate previous (cons h subs rest) =
    let (h', becomes_satisfied) = reevaluate_satisfiability previous h in
    let (weak_subs, weak_tasks) = reevaluate_and_propagate previous subs in
    let (rest', rest_tasks) = reevaluate_and_propagate (some h') rest in
    if becomes_satisfied
    then (if h.weak
        then (cons h' weak_subs rest', weak_tasks ++ rest_tasks)
        else (cons h' subs rest', h.originator ∷ rest_tasks))
    else (cons h' subs rest, [])

unfoldable pub append : Accesses → Accesses → Accesses
append nil ys = ys
append (cons h subs rest) ys = cons h subs (append rest ys)

-- The last access of a sequence, or what stands before the sequence.
unfoldable pub last_or : Option Header → Accesses → Option Header
last_or previous nil = previous
last_or previous (cons h subs rest) = last_or (some h) rest

-- The access that follows the removed one is looked at again if it is not satisfied.
unfoldable pub reevaluate_next : Option Header → Accesses → Accesses × List ℕ
unfolding reevaluate_and_propagate
reevaluate_next previous nil = (nil, [])
reevaluate_next previous (cons h subs rest) =
    if h.satisfied
    then (cons h subs rest, [])
    else reevaluate_and_propagate previous (cons h subs rest)

-- Where an access stands: first in the sequence, later in it, or inside the first one.
pub data Position : Type 0 where
  here : Position
  later : Position → Position
  inside : Position → Position

-- `unregisterDataAccess`: the subaccesses take the place of the access, and the next access gets a
-- new effective previous.
unfoldable pub unregister_data_access : Level → List Level → Position → Accesses → Accesses × List ℕ
unfolding effective_previous append last_or reevaluate_next
unregister_data_access before above p nil = (nil, [])
unregister_data_access before above here (cons h subs rest) =
    let (rest', tasks) =
      reevaluate_next (last_or (effective_previous (before ∷ above)) subs) rest in
    (append subs rest', tasks)
unregister_data_access before above (later p) (cons h subs rest) =
    let (rest', tasks) = unregister_data_access (h ∷ before) above p rest in
    (cons h subs rest', tasks)
unregister_data_access before above (inside p) (cons h subs rest) =
    let (subs', tasks) = unregister_data_access [] (before ∷ above) p subs in
    (cons h subs' rest, tasks)
