-- ===== src/TicketSpinLock/Examples.antt =====
-- Witness: thread 1 takes the lock with `tryLock`, threads 2 and 3 wait, and thread 1 leaves.
use nanos.Common.{◌≡◌, ◌≤◌, ◌+◌, refl, none, some, [], ◌++◌, length, min, arith}
use nanos.TicketSpinLock.{draw_ticket, try_lock_after}
use nanos.TicketSpinLock.Exclusion.{
  State, Attempt, Reach, start, next, draws, begins, looks, attempts, leaves, unused, draw,
  begin_try, look, attempt, leave, threads, first_called, Reach-served,
}

abbrev started : Attempt
started = record { thread = 1; ticket = 0; number = 0; seen = none }

abbrev looked : Attempt
looked = record { thread = 1; ticket = 0; number = 0; seen = some 0 }

abbrev owned : State
owned = attempt 1 0 0 [] (look started [] (begin_try 1 unused))

abbrev two_wait : State
two_wait = leave [] (draw 3 (draw 2 owned))

Reach-owned : Reach owned
Reach-owned =
    next (next (next start (begins 1)) (looks started [] [] refl))
      (attempts looked [] [] 0 refl refl (omega arith))

Reach-two_wait : Reach two_wait
unfolding try_lock_after draw_ticket
Reach-two_wait =
    next (next (next Reach-owned (draws 2 (omega arith))) (draws 3 (omega arith)))
      (leaves 1 [] [] refl)

Reach-served_example :
    (length two_wait.owners ≤ 1)
    × (two_wait.drawn ≡ two_wait.granted ++ threads two_wait.waiting)
    × (min 1 (length two_wait.waiting)
        ≤ length two_wait.owners + first_called two_wait.lock two_wait.waiting)
Reach-served_example = Reach-served Reach-two_wait
