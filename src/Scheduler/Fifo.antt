-- ===== src/Scheduler/Fifo.antt =====
-- src/scheduling/schedulers/FIFOScheduler.cpp: both queues are served in order. All but `addReadyTask`
-- is the code of NaiveScheduler.cpp.
use nanos.Common.{ℕ, Bool, Option, none, some, ◌∷◌, [], ◌++◌, not, if◌then◌else◌}
use nanos.Scheduler.{Scheduler, ReadyTask, ReadyTaskHint, is_unblocked, is_host}
use nanos.Scheduler.Naive.{resume_idle}

-- `FIFOScheduler::addReadyTask`, or nothing where it fails.
unfoldable pub add_ready_task :
    ReadyTask → ReadyTaskHint → Bool → Scheduler → Option (Scheduler × Option ℕ)
unfolding resume_idle is_host
add_ready_task t hint do_get_idle s =
    if not (is_host t.device_type)
    then none
    else some (
        resume_idle do_get_idle (
          if is_unblocked hint
          then record s { unblocked_tasks = s.unblocked_tasks ++ t ∷ [] }
          else record s { ready_tasks = s.ready_tasks ++ t ∷ [] }))
