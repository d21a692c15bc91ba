-- ===== src/Handlers/Simulation.antt =====
-- src/handlers/handlerBehaviour.ts: the simulated outcomes, with Math.random() = r / 2 ^ 53, and the
-- delay that an abort signal cuts short.
use zolt.Prelude.{ℕ, ◌+◌, ◌*◌, ◌^◌, Option, none, some, Text, codes, ltb, if◌then◌else◌}

pub data SimulationOutcome : Type 0 where
  success slow_success failure timeout : SimulationOutcome

-- random < 0.6, random < 0.8, random < 0.9, multiplied out
unfoldable pub select_outcome : ℕ → SimulationOutcome
select_outcome r =
    if ltb (10 * r) (6 * 2 ^ 53)
    then success
    else if ltb (10 * r) (8 * 2 ^ 53)
    then slow_success
    else if ltb (10 * r) (9 * 2 ^ 53)
    then failure
    else timeout

-- How a promise settles, and after how many milliseconds.
pub data Settled : Type 0 where
  resolves : ℕ → Settled
  aborts : ℕ → Settled
  throws : Text → Settled

-- `abort_at` is the time from the call to the abort: 0 if the signal is aborted already, none if it
-- never is.
unfoldable pub delay : ℕ → Option ℕ → Settled
delay duration none = resolves duration
delay duration (some t) = if ltb duration t then resolves duration else aborts t

unfoldable pub behave : ℕ → ℕ → ℕ → Option ℕ → SimulationOutcome → Settled
unfolding delay
behave normal slow timeout_ms abort_at success = delay normal abort_at
behave normal slow timeout_ms abort_at slow_success = delay slow abort_at
behave normal slow timeout_ms abort_at failure =
    throws (codes "Simulated transient handler failure")
behave normal slow timeout_ms abort_at timeout = delay (timeout_ms + 5000) abort_at

unfoldable pub simulate_handler_behaviour : ℕ → ℕ → ℕ → Option ℕ → ℕ → Settled
unfolding behave select_outcome
simulate_handler_behaviour normal slow timeout_ms abort_at r =
    behave normal slow timeout_ms abort_at (select_outcome r)
