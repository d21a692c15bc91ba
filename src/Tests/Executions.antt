-- ===== src/Tests/Executions.antt =====
-- The end of an attempt at concrete rows.
use zolt.Prelude.{
  drop, zero, suc, Text, ◌*◌, ◌≤◌, ◌+◌, exists, arith, ℕ, ◌≡◌, refl, true, some, [], ◌∷◌, codes,
}
use zolt.Schema.{not_space, JobStatus, ExecutionStatus}
use zolt.Monad.{database_error, err, ok, calm}
use zolt.Executions.Service.{complete, settle, run_leased}
use zolt.Handlers.{Outcome}
use zolt.Executions.Repository.{succeed, has_id, get_execution_by_id}
use zolt.Jobs.Repository.{get_job_by_id}
use zolt.Executions.Faults.{settle-long_message, run_leased-tracked, failing}
use zolt.Heartbeat.{has}
use zolt.Retry.{max_delay, retry_time, capped_delay}
use zolt.Retry.Bounds.{retry_time-bounds}
use zolt.Executions.Success.{complete-succeeds}
use zolt.Jobs.Rows.{finish}
use zolt.Tests.Data.{
  execution_config, quick, env_at, email, first_try, due_db, before, running_db, one_claimed,
  try_runs, email_runs,
}

retry_time-bounds_example :
    (1000 + capped_delay 5 ≤ retry_time 5 12345 1000)
    × (2 * retry_time 5 12345 1000 ≤ 2 * 1000 + 3 * capped_delay 5)
    × (capped_delay 5 ≤ max_delay)
retry_time-bounds_example = retry_time-bounds 5 12345 1000 (omega arith)

run_leased-tracked_example :
    ((run_leased execution_config quick first_try 8 (failing due_db (env_at 200) [])).0
      ≡ err database_error)
    × (has 3
          (run_leased execution_config quick first_try 8
            (failing due_db (env_at 200) [])).1.env.active
        ≡ true)
run_leased-tracked_example =
    run_leased-tracked execution_config quick first_try 8 due_db (env_at 200) []

abbrev repeated : ℕ → Text
repeated zero = []
repeated (suc n) = 120 ∷ repeated n

long_excess : exists not_space (drop 255 (repeated 300)) ≡ true
unfolding exists
long_excess = refl

first_try_exists : exists (has_id 3) due_db.executions ≡ true
unfolding exists
first_try_exists = refl

settle-long_message_example :
    let r =
      settle execution_config 5
        (Outcome.rejected (some (repeated 300)))
        first_try
        email
        (codes "welcome-1")
        before in
    (r.0 ≡ err database_error) × (r.1.db ≡ due_db)
settle-long_message_example =
    settle-long_message execution_config 5 (repeated 300) first_try email (codes "welcome-1") due_db
      (env_at 200) (omega arith) long_excess first_try_exists

complete-succeeds_example :
    let r = complete first_try email (codes "welcome-1") (calm running_db (env_at 200)) in
    (r.0 ≡ ok true)
    × (get_job_by_id 1 r.1.db
        ≡ some (finish JobStatus.completed 200 (record email { status = JobStatus.running })))
    × (get_execution_by_id 3 r.1.db
        ≡ some (
            succeed 200
              (record first_try { status = ExecutionStatus.running; started_at = some 150 })))
complete-succeeds_example =
    complete-succeeds first_try email (codes "welcome-1") running_db (env_at 200) one_claimed
      try_runs email_runs refl
