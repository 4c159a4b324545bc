-- ===== src/Task/Lifecycle.antt =====
-- The life of one task: the two countdowns of src/tasks/Task.hpp and TaskImplementation.hpp, and the
-- code that moves them in WorkerThread.cpp, TaskFinalizationImplementation.hpp, EventsAPI.cpp and
-- TaskWait.cpp. The task runs on the host; the dependency system is called at `released`. Each step has
-- one atomic operation at most, with the plain accesses next to it.
pub mod History
pub mod Invariant
pub mod Turns
pub mod Kept
pub mod Promise
mod Examples
use nanos.Common.{
  ℕ, List, [], ◌∷◌, ◌+◌, ◌%◌, ◌^◌, Bool, true, false, ◌&&◌, not, ◌==◌, if◌then◌else◌,
}
use nanos.Task.Counter.{increase, decrease}

-- The fields of `Task` that count: `_thread` is null once it has finished.
pub record Task : Type 0 where
  pub countdown_to_be_woken_up : ℕ
  pub countdown_to_release : ℕ
  pub wait_flag : Bool
  pub has_finished : Bool

-- `Task::Task`
unfoldable pub new_task : Bool → Task
new_task wait_flag = record {
  countdown_to_be_woken_up = 1;
  countdown_to_release = 1;
  wait_flag = wait_flag;
  has_finished = false;
}

-- `addChild`, `increaseRemovalBlockingCount` and `markAsUnblocked`
unfoldable pub increase_removal_blocking_count : Task → Task
increase_removal_blocking_count k = record k {
  countdown_to_be_woken_up = increase k.countdown_to_be_woken_up 1;
}

-- `removeChild`, `decreaseRemovalBlockingCount`, `markAsReleased` and `markAsBlocked`: whether the
-- counter has become zero.
unfoldable pub decrease_removal_blocking_count : Task → Task × Bool
decrease_removal_blocking_count k =
    let c = decrease k.countdown_to_be_woken_up 1 in
    (record k { countdown_to_be_woken_up = c }, c == 0)

unfoldable pub increase_release_count : ℕ → Task → Task
increase_release_count n k = record k { countdown_to_release = increase k.countdown_to_release n }

unfoldable pub decrease_release_count : ℕ → Task → Task × Bool
decrease_release_count n k =
    let c = decrease k.countdown_to_release n in (record k { countdown_to_release = c }, c == 0)

-- Where a thread is in the code that follows from a countdown: in `markAsFinished`, where it is about to count
-- the body off; about to complete the delayed release; about to count the body off after that; about to
-- unregister the accesses; about to call `markAsReleased`; or at the start of a round of
-- `disposeOrUnblockTask`.
pub data Turn : Type 0 where
  finishing completing counting releasing marking disposing : Turn

-- What a step does: the task, where the thread then is, if it goes on, how often the accesses are released,
-- and whether the task is deleted, or handed to the scheduler out of a taskwait.
pub record Effects : Type 0 where
  pub task : Task
  pub next_turn : List Turn
  pub released : ℕ
  pub disposed : Bool
  pub woken : Bool

abbrev pub going_on : List Turn → Task → Effects
going_on turns k = record {
  task = k;
  next_turn = turns;
  released = 0;
  disposed = false;
  woken = false;
}

-- The thread that has brought a countdown to zero goes on.
abbrev pub if_zero : Turn → Task × Bool → Effects
if_zero t (k, is_zero) = going_on (if is_zero then t ∷ [] else []) k

-- `markAsFinished` up to its countdowns.
unfoldable pub end_task : Task → Task
end_task k = record k { has_finished = true }

-- The countdowns of `markAsFinished`.
unfoldable pub mark_as_finished : Task → Effects
unfolding decrease_removal_blocking_count decrease_release_count
mark_as_finished k =
    if k.wait_flag
    then if_zero completing (decrease_removal_blocking_count k)
    else if_zero releasing (decrease_release_count 1 k)

-- The delayed release is complete, in `markAsFinished` and `markAllChildrenAsFinished`.
unfoldable pub complete_delayed_release : Task → Effects
unfolding increase_removal_blocking_count
complete_delayed_release k =
    going_on (counting ∷ []) (increase_removal_blocking_count (record k { wait_flag = false }))

-- `unregisterTaskDataAccesses`
abbrev pub unregister_task_data_accesses : Task → Effects
unregister_task_data_accesses k = record (going_on (marking ∷ []) k) { released = 1 }

-- A round of `disposeOrUnblockTask`, at a task that has become ready or disposable.
unfoldable pub dispose_or_unblock : Task → Effects
dispose_or_unblock k =
    if k.has_finished
    then if k.wait_flag
      then going_on (completing ∷ []) k
      else record (going_on [] k) { disposed = true }
    else record (going_on [] k) { woken = true }

-- The next step of a thread.
unfoldable pub take_turn : Turn → Task → Effects
unfolding mark_as_finished complete_delayed_release decrease_release_count
    decrease_removal_blocking_count dispose_or_unblock
take_turn finishing k = mark_as_finished k
take_turn completing k = complete_delayed_release k
take_turn counting k = if_zero releasing (decrease_release_count 1 k)
take_turn releasing k = unregister_task_data_accesses k
take_turn marking k = if_zero disposing (decrease_removal_blocking_count k)
take_turn disposing k = dispose_or_unblock k

-- `nanos6_decrease_task_event_counter` up to its countdown.
unfoldable pub decrease_events : ℕ → Task → Effects
unfolding decrease_release_count
decrease_events n k =
    if n == 0 then going_on [] k else if_zero releasing (decrease_release_count n k)

-- A child has been deleted: `unlinkFromParent`.
unfoldable pub child_deleted : Task → Effects
unfolding decrease_removal_blocking_count
child_deleted k = if_zero disposing (decrease_removal_blocking_count k)

-- The fast check of `nanos6_taskwait`, `doesNotNeedToBlockForChildren`.
unfoldable pub does_not_need_to_block : Task → Bool
does_not_need_to_block k = k.countdown_to_be_woken_up == 1
