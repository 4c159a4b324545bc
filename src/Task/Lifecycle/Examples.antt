-- ===== src/Task/Lifecycle/Examples.antt =====
-- A task with a wait clause that ends before its child, and one that waits for its child.
use nanos.Common.{◌-◌, ◌≤◌, ◌≡◌, ◌&&◌, ◌==◌, refl, Bool, true, false, [], arith}
use nanos.Task.Counter.{increase, decrease}
use nanos.Task.Lifecycle.{
  Turn, finishing, completing, counting, releasing, marking, disposing, new_task,
  increase_removal_blocking_count, end_task, child_deleted, take_turn,
}
use nanos.Task.Lifecycle.History.{
  State, Reach, start, next, init, create, check, mark_as_blocked, finish, apply, create_child,
  end_body, delete_child, goes_on, can_release,
}
use nanos.Task.Lifecycle.Promise.{one, is_quiet, Reach-released}

abbrev with_child : Bool → State
with_child delayed = create (init delayed)

Reach-with_child : (delayed : Bool) → Reach delayed (with_child delayed)
Reach-with_child delayed = next start (create_child refl (omega arith))

-- The only thread that goes on takes its next step.
abbrev turn : Turn → State → State
turn t s = apply (take_turn t s.task) [] s

abbrev ended : State
ended = turn finishing (finish (with_child true))

abbrev child_gone : State → State
child_gone s = apply (child_deleted s.task) s.turns (record s { children = s.children - 1 })

Reach-ended : Reach true ended
unfolding new_task increase_removal_blocking_count increase decrease end_task take_turn
Reach-ended = next (next (Reach-with_child true) (end_body refl)) (goes_on finishing [] [] refl)

-- The child was the last obstacle: with it the accesses of its parent go, and the parent itself.
abbrev completed : State
completed = turn counting (turn completing (turn disposing (child_gone ended)))

Reach-completed : Reach true completed
unfolding new_task increase_removal_blocking_count increase decrease end_task take_turn
    child_deleted
Reach-completed =
    next
      (next (next (next Reach-ended (delete_child (omega arith))) (goes_on disposing [] [] refl))
        (goes_on completing [] [] refl))
      (goes_on counting [] [] refl)

abbrev deleted : State
deleted = turn disposing (turn marking (turn releasing completed))

Reach-deleted : Reach true deleted
unfolding new_task increase_removal_blocking_count increase decrease end_task take_turn
    child_deleted
Reach-deleted =
    next (next (next Reach-completed (goes_on releasing [] [] refl)) (goes_on marking [] [] refl))
      (goes_on disposing [] [] refl)

gone : (deleted.released ≡ 1) × (deleted.disposed ≡ 1)
unfolding new_task increase_removal_blocking_count increase decrease end_task take_turn
    child_deleted
gone = (refl, refl)

Reach-released_example :
    (deleted.released ≤ one (can_release deleted))
    × (one (can_release deleted && is_quiet deleted.turns) ≤ deleted.released)
    × (deleted.disposed ≤ one (can_release deleted && deleted.children == 0))
    × (one (can_release deleted && deleted.children == 0 && is_quiet deleted.turns)
        ≤ deleted.disposed)
Reach-released_example = Reach-released Reach-deleted

abbrev waits : State
waits = mark_as_blocked (check (with_child false))

abbrev woken : State
woken = turn disposing (child_gone waits)
