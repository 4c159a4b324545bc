-- ===== src/Scheduler/Examples.antt =====
-- Witnesses: two CPUs, tasks 5, 6 and 7, and the calls that queue, keep and give them.
use nanos.Common.{ℕ, ◌+◌, ◌≡◌, refl, arith, true, false, none, some, List, [], ◌∷◌}
use nanos.Scheduler.{
  Scheduler, ReadyTask, ComputePlace, host_device, TaskloopView, no_hint, child_task_hint, nothing,
  is_host,
}
use nanos.Scheduler.IdleCpus.{cpu_becomes_idle, is_idle}
use nanos.Scheduler.Naive as Naive
use nanos.Scheduler.Fifo as Fifo
use nanos.Scheduler.ImmediateSuccessor as Immediate
use nanos.Scheduler.Interface.{
  immediate_successor_name, create_scheduler, adds, asks, disables, run, queued, held, Call,
  empty_scheduler,
}
use nanos.Scheduler.Bags.{all_given, run-bag}
use nanos.Scheduler.Wakeup as Wakeup
use nanos.Scheduler.Wakeup.{System, scheduled, asked}
use nanos.Scheduler.LostWakeup.{interleaved, interleaved-lost_wakeup, with_ready}

abbrev plain : ℕ → ReadyTask
plain n = record { id = n; device_type = host_device; is_taskloop = false; priority = 0 }

abbrev loop : ℕ → ReadyTask
loop n = record { id = n; device_type = host_device; is_taskloop = true; priority = 0 }

abbrev cpu : ℕ → ComputePlace
cpu n = record { virtual_cpu_id = n; type = host_device }

abbrev exhausted : TaskloopView
exhausted = record {
  is_requeue_enabled = true;
  has_pending_iterations = λ t. false;
  mark_as_finished = λ t. false;
}

-- Latest first: CPU 0 keeps 5, its child 6 is queued, 0 is disabled, and CPU 1 asks twice.
abbrev calls : List Call
calls =
    asks exhausted (cpu 1) true
    ∷ asks exhausted (cpu 1) true
    ∷ disables 0
    ∷ adds (plain 6) (some 0) child_task_hint true
    ∷ adds (plain 5) (some 0) no_hint true
    ∷ []

run-bag_example :
    let r = run (create_scheduler immediate_successor_name) (true ∷ false ∷ []) calls in
    (queued 5 r.accepted ≡ all_given 5 r.answers + held 5 r.scheduler)
run-bag_example = run-bag immediate_successor_name 5 (true ∷ false ∷ []) calls

-- A taskloop without iterations is removed, and the CPU becomes idle.
abbrev one_loop : Scheduler
one_loop = record {
  ready_tasks = loop 4 ∷ [];
  unblocked_tasks = [];
  scheduler_data = [];
  idle_cpus = false ∷ false ∷ [];
}

abbrev at_rest : System
at_rest = record {
  scheduler = empty_scheduler (false ∷ false ∷ []);
  resumed = [];
  owed = 0;
  to_ask = [];
}

-- CPUs 1 and 0 find nothing and become idle, and a task from outside is queued, for which CPU 0 is
-- resumed.
abbrev all_idle : System
all_idle = asked 0 (asked 1 at_rest)

abbrev queued_six : Scheduler × List ℕ
queued_six = (with_ready (plain 6 ∷ []) [] (false ∷ true ∷ []), 0 ∷ [])

abbrev one_resumed : System
one_resumed = scheduled child_task_hint queued_six all_idle

interleaved-lost_wakeup_example :
    let s' = with_ready (plain 6 ∷ []) [] (cpu_becomes_idle 1 (false ∷ false ∷ [])) in
    (interleaved
        (Naive.add_ready_task (plain 6) child_task_hint true)
        exhausted
        (cpu 1)
        (with_ready [] [] (false ∷ false ∷ []))
      ≡ some (s', none, nothing))
    × (interleaved
          (Fifo.add_ready_task (plain 6) child_task_hint true)
          exhausted
          (cpu 1)
          (with_ready [] [] (false ∷ false ∷ []))
        ≡ some (s', none, nothing))
    × (is_idle 1 s'.idle_cpus ≡ true)
unfolding is_host
interleaved-lost_wakeup_example =
    interleaved-lost_wakeup exhausted (cpu 1) (plain 6) child_task_hint [] (false ∷ false ∷ []) refl
      refl refl (omega arith)
