-- ===== src/Scheduler.antt =====
-- The host schedulers: src/scheduling/SchedulerInterface.hpp, src/scheduling/Scheduler.hpp and three of
-- src/scheduling/schedulers. Each lock-protected section is one step; taskloops are told apart from
-- other tasks, and what a scheduler reads of the state of a taskloop is an argument.
pub mod IdleCpus
pub mod Naive
pub mod Fifo
pub mod ImmediateSuccessor
pub mod Interface
pub mod Bags
pub mod Wakeup
pub mod Calls
pub mod Asked
pub mod Awake
pub mod LostWakeup
pub mod Polling
pub mod Priority
pub mod PriorityOrder
pub mod PriorityHistory
pub mod PriorityBest
mod PriorityExamples
pub mod Delivery
pub mod Delivered
mod PollingExamples
mod Examples
use nanos.Common.{ℕ, Bool, true, false, Option, none, some, List, ◌∷◌, []}
use nanos.Common.{◌==◌, if◌then◌else◌, ◌&&◌, not}

pub data DeviceType : Type 0 where
  host_device cuda_device : DeviceType

unfoldable pub is_host : DeviceType → Bool
is_host host_device = true
is_host cuda_device = false

-- What the schedulers read of a task; a priority, which is a long, is its value plus 2 ^ 63.
pub record ReadyTask : Type 0 where
  pub id : ℕ
  pub device_type : DeviceType
  pub is_taskloop : Bool
  pub priority : ℕ

pub data ReadyTaskHint : Type 0 where
  no_hint child_task_hint sibling_task_hint busy_compute_place_task_hint unblocked_task_hint :
      ReadyTaskHint

abbrev pub is_unblocked : ReadyTaskHint → Bool
is_unblocked unblocked_task_hint = true
is_unblocked _ = false

abbrev pub is_child : ReadyTaskHint → Bool
is_child child_task_hint = true
is_child _ = false

pub record ComputePlace : Type 0 where
  pub virtual_cpu_id : ℕ
  pub type : DeviceType

-- What a scheduler finds when it reads a taskloop: whether requeueing is enabled, whether the taskloop
-- has pending iterations, and the result of `markAsFinished`.
pub record TaskloopView : Type 0 where
  pub is_requeue_enabled : Bool
  pub has_pending_iterations : ReadyTask → Bool
  pub mark_as_finished : ReadyTask → Bool

-- The queues of a scheduler, `_schedulerData` of the compute places where it is not null, and
-- `CPUManager::_idleCPUs`.
pub record Scheduler : Type 0 where
  pub ready_tasks : List ReadyTask
  pub unblocked_tasks : List ReadyTask
  pub scheduler_data : List (ℕ × ReadyTask)
  pub idle_cpus : List Bool

-- The answer to a compute place that asks for a task; `recheck` is a new call of the scheduler.
pub data Answer : Type 0 where
  nothing recheck : Answer
  task collaborator : ReadyTask → Answer

unfoldable pub get_replacement_task : Scheduler → Scheduler × Option ReadyTask
get_replacement_task s = elim s.unblocked_tasks [
  | [] ↦ (s, none)
  | t ∷ rest ↦ (record s { unblocked_tasks = rest }, some t)
]

-- `_schedulerData` of a compute place, and what is left if it is reset.
unfoldable pub take_data : ℕ → List (ℕ × ReadyTask) → List (ℕ × ReadyTask) × Option ReadyTask
take_data cpu [] = ([], none)
take_data cpu ((owner, t) ∷ rest) =
    let (others, found) = take_data cpu rest in
    if cpu == owner then (rest, some t) else ((owner, t) ∷ others, found)

abbrev pub is_empty : List ReadyTask → Bool
is_empty [] = true
is_empty (t ∷ rest) = false
