-- ===== src/Scheduler/PriorityExamples.antt =====
-- Witnesses: tasks 5 and 6 with priorities 2 ^ 63 and 2 ^ 63 + 1, which CPU 0 asks for.
use nanos.Common.{◌+◌, ◌≡◌, refl, arith, true, false, none, some, [], ◌∷◌}
use nanos.Scheduler.{
  ReadyTask, ComputePlace, host_device, child_task_hint, no_hint, take_data, is_host,
}
use nanos.Scheduler.IdleCpus.{get_idle_cpu}
use nanos.Scheduler.Interface.{queued}
use nanos.Scheduler.Priority.{
  PriorityScheduler, push, queue_task, stays, leaves_with, add_ready_task, keep_task,
  get_ready_task, choose, goes_before,
}
use nanos.Scheduler.PriorityOrder.{AtMost, IsBefore}
use nanos.Scheduler.PriorityHistory.{
  System, Reach, start, next, adds, asks, held, asked, Reach-IsBalanced,
}
use nanos.Scheduler.PriorityBest.{Reach-best}

abbrev five : ReadyTask
five = record {
  id = 5;
  device_type = host_device;
  is_taskloop = false;
  priority = 9223372036854775808;
}

abbrev six : ReadyTask
six = record {
  id = 6;
  device_type = host_device;
  is_taskloop = false;
  priority = 9223372036854775809;
}

abbrev cpu_zero : ComputePlace
cpu_zero = record { virtual_cpu_id = 0; type = host_device }

-- Task 5 stays with CPU 0, and task 6 is queued.
abbrev five_stays : PriorityScheduler
five_stays = record { tasks = []; scheduler_data = (0, five) ∷ []; idle_cpus = false ∷ [] }

abbrev six_queued : PriorityScheduler
six_queued = record {
  tasks = (9223372036854775807, six ∷ []) ∷ [];
  scheduler_data = (0, five) ∷ [];
  idle_cpus = false ∷ [];
}

abbrev both : System
both = record { scheduler = six_queued; accepted = six ∷ five ∷ []; answers = [] }

Reach-both : Reach (false ∷ []) both
unfolding add_ready_task queue_task stays leaves_with keep_task push take_data is_host get_idle_cpu
Reach-both =
    next
      (next start
        (adds five (some 0) no_hint true five_stays none (omega arith) (omega arith) refl))
      (adds six none child_task_hint true six_queued none (omega arith) (omega arith) refl)

Reach-best_example :
    AtMost six.priority both.scheduler.tasks
    × IsBefore six (take_data 0 both.scheduler.scheduler_data).1
unfolding get_ready_task choose goes_before take_data is_host
Reach-best_example = Reach-best cpu_zero true six Reach-both refl

Reach-IsBalanced_example :
    queued 5 (asked cpu_zero true both).accepted
    ≡ queued 5 (asked cpu_zero true both).answers + held 5 (asked cpu_zero true both).scheduler
Reach-IsBalanced_example = Reach-IsBalanced 5 (next Reach-both (asks cpu_zero true))
