-- ===== src/CpuActivation/Examples.antt =====
-- Witness: a CPU that one thread switches off while another switches it on again.
use nanos.Common.{false, true}
use nanos.CpuActivation.{starting, enabled, disabling, uninitialized, initialize_if_needed}
use nanos.CpuActivation.Rounds.{State, enabling_loop, disabling_loop, checking_loop, after_round}

-- A worker has read `disabling`; meanwhile `enable` has put the status back to `enabled`.
abbrev switched : State
switched = after_round (checking_loop false) disabling (
    after_round enabling_loop disabling (
      after_round disabling_loop enabled (
        after_round (checking_loop false) starting
          (record { status = initialize_if_needed uninitialized; wanted = true }))))
