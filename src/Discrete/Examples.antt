-- ===== src/Discrete/Examples.antt =====
-- The theorems on the discrete system at concrete accesses. Task 1 writes, tasks 2 and 3 read, task
-- 4 has a weak readwrite access, below which task 5 writes.
use nanos.Common.{
  some, ℕ, ◌≡◌, refl, Bool, true, false, none, [], ◌∷◌, arith, inl, ◌==◌, if◌then◌else◌,
}
use nanos.Task.Counter.{Predecessors}
use nanos.Discrete.Access.{Header, read, write, readwrite, evaluate, DataAccessType}
use nanos.Discrete.Sequence.{Accesses, nil, cons, here, later, unregister_data_access}
use nanos.Discrete.Register.{Request, registered, register_task_data_access, register_below}
use nanos.Discrete.History.{Reach, Reach-RootInv, start, next, create, create_below, release}
use nanos.Discrete.Safety.{RaceFree, FirstReady, Reach-RaceFree, Reach-FirstReady}
use nanos.Discrete.Pending.{blocks, access_at}
use nanos.Discrete.Ready.{
  unregister_task_access, unregister_task_access-IsCounted, IsCounted, register_access,
  register_access-IsCounted,
}
use nanos.Discrete.Upgrade.{upgraded, upgrade_access}
use nanos.Discrete.UpgradeLaws.{
  access, upgrade-KeepsPromises, KeepsPromises, upgrade_uncounted, upgrade_overcounted,
}

abbrev request : ℕ → DataAccessType → Bool → Request
request task t weak = record { task = task; access_type = t; weak = weak; reduction_info = 0 }

abbrev written : Accesses
written = cons (access write false true 1) nil nil

abbrev one_reader : Accesses
one_reader = cons (access write false true 1) nil (cons (access read false false 2) nil nil)

abbrev two_readers : Accesses
two_readers =
    cons (access write false true 1) nil
      (cons (access read false false 2) nil (cons (access read false false 3) nil nil))

abbrev with_weak : Accesses
with_weak = cons (access write false true 1) nil (
    cons (access read false false 2) nil
      (cons (access read false false 3) nil (cons (access readwrite true false 4) nil nil)))

abbrev with_child : Accesses
with_child = cons (access write false true 1) nil (
    cons (access read false false 2) nil (
      cons (access read false false 3) nil
        (cons (access readwrite true false 4) (cons (access write false false 5) nil nil) nil)))

readers_run :
    (unregister_data_access [] [] here with_child).0
    ≡ cons (access read false true 2) nil (
        cons
          (access read false true 3)
          nil
          (cons (access readwrite true false 4) (cons (access write false false 5) nil nil) nil))
unfolding unregister_data_access evaluate
readers_run = refl

child_runs :
    (unregister_data_access [] [] here (
      cons
        (access read false true 2)
        nil
        (cons (access readwrite true false 4) (cons (access write false false 5) nil nil) nil))).1
    ≡ 5 ∷ []
unfolding unregister_data_access evaluate
child_runs = refl

Reach-one_reader : Reach one_reader
unfolding register_task_data_access evaluate
Reach-one_reader =
    next (next start (create (request 1 write false) refl tt refl))
      (create (request 2 read false) refl refl refl)

Reach-two_readers : Reach two_readers
unfolding register_task_data_access evaluate
Reach-two_readers = next Reach-one_reader (create (request 3 read false) refl refl refl)

Reach-with_child : Reach with_child
unfolding register_task_data_access register_below evaluate
Reach-with_child =
    next (next Reach-two_readers (create (request 4 readwrite true) refl refl refl)) (
      create_below (request 5 write false) (later (later (later here))) refl
        (inl refl, λ k e. absurd (ground arith), tt) refl)

Reach-RaceFree_example : RaceFree (unregister_data_access [] [] here with_child).0
unfolding unregister_data_access
Reach-RaceFree_example = Reach-RaceFree (next Reach-with_child (release here))

Reach-FirstReady_example : FirstReady with_child
Reach-FirstReady_example = Reach-FirstReady Reach-with_child

-- Tasks 2 and 3 wait for one access each.
abbrev waiting : Predecessors
waiting j = if j == 2 then 1 else if j == 3 then 1 else 0

abbrev nowhere : Predecessors
nowhere j = 0

abbrev reader_waiting : Predecessors
reader_waiting j = if j == 2 then 1 else 0

waiting-IsCounted : IsCounted waiting two_readers nowhere
waiting-IsCounted j = ground arith

unregister_task_access-IsCounted_example :
    IsCounted
      (unregister_task_access here two_readers waiting).1
      (unregister_task_access here two_readers waiting).0
      nowhere
unfolding access_at
unregister_task_access-IsCounted_example =
    (unregister_task_access-IsCounted here two_readers waiting nowhere waiting-IsCounted
      (λ j. ground arith)).0

-- Task 3 is final, so that its weak read is a strong one.
register_access-IsCounted_example :
    (t : Accesses) × (c : Bool) × ((register_access
        (request 3 read true)
        true
        false
        one_reader
        reader_waiting).0
      ≡ registered t c true)
    × IsCounted
        (register_access (request 3 read true) true false one_reader reader_waiting).1
        t
        nowhere
register_access-IsCounted_example =
    register_access-IsCounted (request 3 read true) true false one_reader reader_waiting nowhere
      refl refl (Reach-RootInv Reach-one_reader) (λ j. ground arith) (omega arith)

upgrade-KeepsPromises_example :
    KeepsPromises none (access write false true 1) (access readwrite false true 1) true
unfolding evaluate
upgrade-KeepsPromises_example = (upgrade-KeepsPromises none write readwrite true 1 tt (λ e. refl)).1

upgrade_uncounted_example :
    (h' : Header) × (upgrade_access
        (some (access write false true 1))
        (access readwrite true false 2)
        readwrite
        false
      ≡ upgraded h' none true)
    × (blocks 2 (access readwrite true false 2) ≡ 0)
    × (blocks 2 h' ≡ 1)
upgrade_uncounted_example =
    upgrade_uncounted (some (access write false true 1)) readwrite readwrite 2 tt tt

upgrade_overcounted_example :
    (h' : Header) × (upgrade_access
        (some (access read false true 1))
        (access read true true 2)
        write
        true
      ≡ upgraded h' none false)
    × (blocks 2 h' ≡ 0)
upgrade_overcounted_example = upgrade_overcounted (access read false true 1) write 2 tt
