-- ===== src/Processes.antt =====
-- How the processes begin and end: startServer of src/app/server.ts and gracefulShutdown of
-- src/app/scheduler-runner.ts. Whether a call of Node, BullMQ, ioredis or pg settles
-- well is a parameter. A rejection that nobody catches ends the process with the code 1, as Node documents.
pub mod Ends
use zolt.Prelude.{
  Bool, true, false, ◌&&◌, if◌then◌else◌, ℕ, Option, none, some, List, [], ◌∷◌, ◌++◌,
}
use zolt.Timers.{Timers, stop_scheduler}

pub data ProcessCall : Type 0 where
  configure_queue create_app start_metrics_server listen : ProcessCall
  close_metrics_server close_queue close_redis close_database : ProcessCall

-- The calls that are made, up to the first that fails, and whether none does.
pub record Attempt : Type 0 where
  pub calls : List ProcessCall
  pub succeeds : Bool

unfoldable pub attempt : (ProcessCall → Bool) → List ProcessCall → Attempt
attempt settles [] = record { calls = []; succeeds = true }
attempt settles (c ∷ cs) =
    let rest = attempt settles cs in
    if settles c
    then record { calls = c ∷ rest.calls; succeeds = rest.succeeds }
    else record { calls = c ∷ []; succeeds = false }

-- `serving`: the server listens, and the signals lead to its shutdown.
pub record Startup : Type 0 where
  pub calls : List ProcessCall
  pub serving : Bool
  pub exit_code : Option ℕ

-- The body of the try block.
abbrev pub startup_calls : List ProcessCall
startup_calls = configure_queue ∷ create_app ∷ start_metrics_server ∷ listen ∷ []

abbrev pub resource_calls : List ProcessCall
resource_calls = close_queue ∷ close_redis ∷ close_database ∷ []

-- The server does not listen in the catch block, since listening is the last call that may fail.
unfoldable pub start_server : (ProcessCall → Bool) → Startup
unfolding attempt
start_server settles =
    let body = attempt settles startup_calls in
    let cleanup = attempt settles resource_calls in
    if body.succeeds
    then record { calls = body.calls; serving = true; exit_code = none }
    else record { calls = body.calls ++ cleanup.calls; serving = false; exit_code = some 1 }

-- What one signal leads to.
pub record Ended : Type 0 where
  pub calls : List ProcessCall
  pub timers : Timers
  pub exit_code : ℕ

abbrev pub exit_of : Bool → ℕ
exit_of true = 0
exit_of false = 1

-- gracefulShutdown of the scheduler
unfoldable pub shutdown_scheduler : (ProcessCall → Bool) → Timers → Ended
unfolding attempt stop_scheduler
shutdown_scheduler settles t =
    let closing = attempt settles (close_metrics_server ∷ resource_calls) in
    record {
      calls = closing.calls;
      timers = stop_scheduler t;
      exit_code = exit_of closing.succeeds;
    }
