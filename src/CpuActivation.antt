-- ===== src/CpuActivation.antt =====
-- The activation status of a CPU: src/executors/threads/CPU.hpp and CPUActivation.hpp. Each loop reads
-- the status and then replaces it by a compare-exchange, which fails if it has changed meanwhile.
pub mod Rounds
mod Examples
use nanos.Common.{ℕ, Bool, true, false, ◌&&◌, not, Option, none, some, if◌then◌else◌, ◌==◌}

pub data Status : Type 0 where
  uninitialized starting enabled enabling disabling disabled : Status

-- The value of the enumerator.
abbrev pub status_code : Status → ℕ
status_code uninitialized = 0
status_code starting = 1
status_code enabled = 2
status_code enabling = 3
status_code disabling = 4
status_code disabled = 5

-- What one round of a loop does with the status that it has read: replace it (and whether the loop
-- ends if that succeeds), end the loop without a change, go round again, give up the CPU, or fail an
-- assertion.
pub data Action : Type 0 where
  exchange : Bool → Status → Action
  done : Action
  again : Action
  yield : Action
  unreachable : Action

-- `CPUActivation::enable`
unfoldable pub enable : Status → Action
enable uninitialized = unreachable
enable starting = again
enable enabled = done
enable enabling = done
enable disabling = exchange true enabled
enable disabled = exchange true enabling

-- `CPUActivation::disable`
unfoldable pub disable : Status → Action
disable uninitialized = unreachable
disable starting = again
disable enabled = exchange true disabling
disable enabling = exchange true disabled
disable disabling = done
disable disabled = done

-- `CPUActivation::activationCheck`; the argument says whether the thread has a pending shutdown.
unfoldable pub activation_check : Bool → Status → Action
activation_check shutdown uninitialized = unreachable
activation_check shutdown starting = exchange false enabled
activation_check shutdown enabled = done
activation_check shutdown enabling = exchange true enabled
activation_check shutdown disabling = exchange false disabled
activation_check shutdown disabled = if shutdown then done else yield

-- `CPU::initializeIfNeeded`
unfoldable pub initialize_if_needed : Status → Status
initialize_if_needed uninitialized = starting
initialize_if_needed s = s

unfoldable pub accepts_work : Status → Bool
accepts_work starting = true
accepts_work enabled = true
accepts_work enabling = true
accepts_work _ = false

unfoldable pub has_started : Status → Bool
has_started s = not (status_code s == 1)

unfoldable pub is_being_initialized : Status → Bool
is_being_initialized s = status_code s == 1

-- The compare-exchange of a round that has read `seen`, at the status `now`: the status afterwards.
unfoldable pub commit : Status → Action → Status → Status
commit seen (exchange ends s) now = if status_code seen == status_code now then s else now
commit seen done now = now
commit seen again now = now
commit seen yield now = now
commit seen unreachable now = now

-- Whether the loop ends with the round.
unfoldable pub has_ended : Status → Action → Status → Bool
has_ended seen (exchange ends s) now = ends && (status_code seen == status_code now)
has_ended seen done now = true
has_ended seen again now = false
has_ended seen yield now = false
has_ended seen unreachable now = false
