-- ===== src/CpuActivation/Rounds.antt =====
-- The rounds of any number of threads, each a read followed later by its compare-exchange.
use nanos.Common.{ℕ, ◌≡◌, ◌≢◌, Bool, true, false, ◌==◌, refl, if◌then◌else◌}
use nanos.CpuActivation.{
  Status, uninitialized, starting, enabled, enabling, disabling, disabled, status_code, Action,
  exchange, enable, disable, activation_check, accepts_work, has_started, commit, has_ended,
  initialize_if_needed,
}

-- The status with a given value.
unfoldable from_code : ℕ → Status
from_code n =
    if n == 0
    then uninitialized
    else if n == 1
    then starting
    else if n == 2
    then enabled
    else if n == 3
    then enabling
    else if n == 4
    then disabling
    else disabled

-- Which loop a thread is in.
pub data Loop : Type 0 where
  enabling_loop : Loop
  disabling_loop : Loop
  checking_loop : Bool → Loop

abbrev pub action : Loop → Status → Action
action enabling_loop s = enable s
action disabling_loop s = disable s
action (checking_loop shutdown) s = activation_check shutdown s

-- Whether the round changes the status.
abbrev pub takes_effect : Status → Action → Status → Bool
takes_effect seen (exchange ends s) now = status_code seen == status_code now
takes_effect seen _ now = false

-- The status, and whether the last call that took effect was to switch the CPU on.
pub record State : Type 0 where
  pub status : Status
  pub wanted : Bool

-- What a round that takes effect asks for: a worker that checks asks for nothing new.
abbrev pub asks_for : Loop → Bool → Bool
asks_for enabling_loop wanted = true
asks_for disabling_loop wanted = false
asks_for (checking_loop shutdown) wanted = wanted

abbrev pub after_round : Loop → Status → State → State
after_round l seen s = record {
  status = commit seen (action l seen) s.status;
  wanted = if takes_effect seen (action l seen) s.status then asks_for l s.wanted else s.wanted;
}

-- The CPU is initialized by a call that switches it on, and any thread makes a round of its loop with a
-- status that it has read at any time before.
pub data Step (s : State) : State → Type 0 where
  initializes :
      s.status ≡ uninitialized
      → Step s (record { status = initialize_if_needed s.status; wanted = true })
  rounds : (l : Loop) (seen : Status) → Step s (after_round l seen s)

pub data Reach : State → Type 0 where
  start : Reach (record { status = uninitialized; wanted = false })
  next : {s t : State} → Reach s → Step s t → Reach t

abbrev AsWanted : Status → Bool → Type 0
AsWanted status wanted = accepts_work status ≡ wanted

-- A round in which `enable` ends has seen or made a status that accepts work, and a round in which
-- `disable` ends has seen or made one that does not.
pub switch_ends :
    (seen now : Status)
    → (has_ended seen (enable seen) now ≡ true
        → accepts_work (commit seen (enable seen) seen) ≡ true)
      × (has_ended seen (disable seen) now ≡ true
          → accepts_work (commit seen (disable seen) seen) ≡ false)
unfolding has_ended enable disable accepts_work commit
switch_ends uninitialized now = (λ e. absurd (cc), λ e. absurd (cc))
switch_ends starting now = (λ e. absurd (cc), λ e. absurd (cc))
switch_ends enabled now = (λ e. refl, λ e. refl)
switch_ends enabling now = (λ e. refl, λ e. refl)
switch_ends disabling now = (λ e. refl, λ e. refl)
switch_ends disabled now = (λ e. refl, λ e. refl)

-- Once a CPU has started, a round that no other thread disturbs ends both `enable` and
-- `disable`.
pub undisturbed :
    (s : Status)
    → has_started s ≡ true
    → s ≢ uninitialized
    → (has_ended s (enable s) s ≡ true) × (has_ended s (disable s) s ≡ true)
unfolding has_ended enable disable has_started
undisturbed uninitialized h u = absurd (u refl)
undisturbed starting h u = absurd (cc)
undisturbed enabled h u = (refl, refl)
undisturbed enabling h u = (refl, refl)
undisturbed disabling h u = (refl, refl)
undisturbed disabled h u = (refl, refl)
