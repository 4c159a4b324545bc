-- ===== src/UserMutex/Examples.antt =====
-- Witnesses: task 1 finds no mutex and installs it, tasks 2 and 3 wait, and task 1 releases it to task 2.
use nanos.Common.{◌≡◌, ◌≤◌, refl, true, [], ◌∷◌, ◌++◌, length, min}
use nanos.UserMutex.{lock_or_queue, dequeue_or_unlock, lock_fast}
use nanos.UserMutex.Exclusion.{
  State, Reach, start, next, lock_first, lock_second, release, waiting, fast, slow, unlock,
  untouched, Reach-owner,
}

abbrev locked_by_one : State
locked_by_one = fast 1 untouched

abbrev two_waits : State
two_waits = slow 2 (record { user_mutex = true; blocked_tasks = [] }) locked_by_one

abbrev three_waits : State
three_waits = slow 3 (record { user_mutex = true; blocked_tasks = 2 ∷ [] }) two_waits

abbrev owned_by_two : State
owned_by_two = unlock [] (record { user_mutex = true; blocked_tasks = 2 ∷ 3 ∷ [] }) three_waits

Reach-owned_by_two : Reach owned_by_two
unfolding lock_fast lock_or_queue
Reach-owned_by_two =
    next
      (next
        (next (next start (lock_first 1))
          (lock_second 2 (record { user_mutex = true; blocked_tasks = [] }) refl))
        (lock_second 3 (record { user_mutex = true; blocked_tasks = 2 ∷ [] }) refl))
      (release 1 [] [] (record { user_mutex = true; blocked_tasks = 2 ∷ 3 ∷ [] }) refl refl)

Reach-owner_example :
    (length owned_by_two.owners ≡ 1)
    × (min 1 (length (waiting owned_by_two.handler)) ≤ length owned_by_two.owners)
    × (owned_by_two.queued ≡ owned_by_two.handed_over ++ waiting owned_by_two.handler)
unfolding dequeue_or_unlock
Reach-owner_example = Reach-owner Reach-owned_by_two
