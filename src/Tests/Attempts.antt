-- ===== src/Tests/Attempts.antt =====
-- The attempts of a job, their claims and their recovery, at concrete rows.
use zolt.Prelude.{
  ◌==◌, ◌≤◌, ◌&&◌, ◌≤◌, ◌&&◌, text_eq, Text, ◌≡◌, refl, true, false, none, some, [], ◌∷◌, codes,
  length, arith, update, updated, exists, select_first,
}
use zolt.Tests.Data.{
  running_db, due_db, env_at, email, first_try, email_key, held, execution_config, try_runs,
  email_runs,
}
use zolt.Monad.{type_error, err, calm, ok}
use zolt.Executions.Recovery.{recover_expired_execution}
use zolt.Executions.Repository.{succeed, crash, is_attempt, get_execution_by_id}
use zolt.Executions.Service.{settle, error_message}
use zolt.Idempotency.{moved_to, keyed, get_by_job_id}
use zolt.Jobs.Repository.{not_terminal, get_job_by_id}
use zolt.Leases.{find_lease_by_execution_id}
use zolt.Handlers.{Outcome}
use zolt.Schema.{
  record_processing, record_pending, JobStatus, IdempotencyStatus, ExecutionStatus, Job,
  IdempotencyRecord, Execution, Db,
}
use zolt.Executions.Recovery.Crashes.{
  recover_expired_execution-replaces, recover_expired_execution-gives_up,
  recover_expired_execution-completes, replacement, lapsed, recover_expired_execution-keeps,
}
use zolt.Jobs.Rows.{finish}
use zolt.Executions.Attempts.{settle-retries, settle-gives_up}
use zolt.Executions.Closing.{next_row, closing}

abbrev key : Text
key = codes "welcome-1"

one_reset :
    length (
      updated
        (keyed key record_processing)
        (moved_to IdempotencyStatus.pending none 200)
        running_db.idempotency_records)
    ≡ 1
unfolding updated text_eq
one_reset = refl

no_second : exists (is_attempt 1 2) running_db.executions ≡ false
unfolding exists
no_second = refl

abbrev first_run : Execution
first_run = record first_try { status = ExecutionStatus.running; started_at = some 150 }

abbrev email_running : Job
email_running = record email { status = JobStatus.running }

short_reason : length (error_message (some (codes "no connection"))) ≤ 255
unfolding error_message
short_reason = omega arith

settle-retries_example :
    let r =
      settle execution_config 5
        (Outcome.rejected (some (codes "no connection")))
        first_try
        email
        key
        (calm running_db (env_at 200)) in
    (r.0 ≡ ok false)
    × (get_execution_by_id 3 r.1.db
        ≡ some (closing execution_config 5 (some (codes "no connection")) 200 first_run))
    × (select_first (is_attempt 1 2) r.1.db.executions
        ≡ some (next_row first_try email running_db (env_at 200)))
    × (r.1.db.idempotency_records
        ≡ update
            (keyed key record_processing)
            (moved_to IdempotencyStatus.pending none 200)
            running_db.idempotency_records)
    × (r.1.db.jobs ≡ running_db.jobs)
settle-retries_example =
    settle-retries execution_config 5 (some (codes "no connection")) first_try email key running_db
      (env_at 200) short_reason (omega arith) one_reset try_runs no_second

abbrev one_attempt : Job
one_attempt = record email { max_attempts = 1 }

settle-gives_up_example :
    let r =
      settle execution_config 5
        (Outcome.rejected (some (codes "no connection")))
        first_try
        one_attempt
        key
        (calm running_db (env_at 200)) in
    (r.0 ≡ ok false)
    × (get_execution_by_id 3 r.1.db
        ≡ some (closing execution_config 5 (some (codes "no connection")) 200 first_run))
    × (get_job_by_id 1 r.1.db ≡ some (finish JobStatus.failed 200 email_running))
    × (length r.1.db.executions ≡ length running_db.executions)
    × (r.1.db.idempotency_records ≡ running_db.idempotency_records)
settle-gives_up_example =
    settle-gives_up execution_config 5 (some (codes "no connection")) first_try one_attempt key
      running_db (env_at 200) short_reason (omega arith) try_runs email_runs refl

one_pending :
    length (
      updated
        (keyed key record_pending)
        (moved_to IdempotencyStatus.processing (some 200) 200)
        due_db.idempotency_records)
    ≡ 1
unfolding updated text_eq
one_pending = refl

key_there :
    select_first (λ r. text_eq r.idempotency_key key) due_db.idempotency_records ≡ some email_key
unfolding select_first text_eq
key_there = refl

held_by_runner : find_lease_by_execution_id 3 running_db ≡ some held
unfolding find_lease_by_execution_id select_first
held_by_runner = refl

abbrev processing_key : IdempotencyRecord
processing_key = record email_key {
  status = IdempotencyStatus.processing;
  processing_started_at = some 150;
}

key_in_use : get_by_job_id 1 running_db ≡ some processing_key
unfolding get_by_job_id select_first
key_in_use = refl

one_crashed :
    length (
      updated
        (keyed key record_processing)
        (moved_to IdempotencyStatus.pending none 600)
        running_db.idempotency_records)
    ≡ 1
unfolding updated text_eq
one_crashed = refl

valid_lease : (true && lapsed 200 (find_lease_by_execution_id 3 running_db)) ≡ false
unfolding find_lease_by_execution_id select_first
valid_lease = refl

recover_expired_execution-keeps_example :
    recover_expired_execution 3 (calm running_db (env_at 200))
    ≡ (ok false, calm running_db (env_at 200))
recover_expired_execution-keeps_example =
    recover_expired_execution-keeps 3 running_db (env_at 200) try_runs valid_lease

recover_expired_execution-replaces_example :
    let r = recover_expired_execution 3 (calm running_db (env_at 600)) in
    (r.0 ≡ ok true)
    × (get_execution_by_id 3 r.1.db ≡ some (crash 500 600 first_run))
    × (select_first (is_attempt 1 2) r.1.db.executions
        ≡ some (replacement first_run running_db (env_at 600)))
    × (r.1.db.idempotency_records
        ≡ update
            (keyed key record_processing)
            (moved_to IdempotencyStatus.pending none 600)
            running_db.idempotency_records)
    × (r.1.db.jobs ≡ running_db.jobs)
    × (r.1.saved ≡ none)
recover_expired_execution-replaces_example =
    recover_expired_execution-replaces running_db (env_at 600) try_runs refl held_by_runner refl
      key_in_use email_runs refl (omega arith) no_second one_crashed

-- The same rows, where the job has only one attempt.
abbrev last_db : Db
last_db = record running_db { jobs = record email_running { max_attempts = 1 } ∷ [] }

last_try_runs : get_execution_by_id 3 last_db ≡ some first_run
unfolding get_execution_by_id select_first
last_try_runs = refl

last_held : find_lease_by_execution_id 3 last_db ≡ some held
unfolding find_lease_by_execution_id select_first
last_held = refl

last_key : get_by_job_id 1 last_db ≡ some processing_key
unfolding get_by_job_id select_first
last_key = refl

last_job : get_job_by_id 1 last_db ≡ some (record email_running { max_attempts = 1 })
unfolding get_job_by_id select_first
last_job = refl

recover_expired_execution-gives_up_example :
    let r = recover_expired_execution 3 (calm last_db (env_at 600)) in
    (r.0 ≡ ok true)
    × (get_execution_by_id 3 r.1.db ≡ some (crash 500 600 first_run))
    × (get_job_by_id 1 r.1.db
        ≡ some (finish JobStatus.failed 600 (record email_running { max_attempts = 1 })))
    × (length r.1.db.executions ≡ length last_db.executions)
    × (r.1.db.idempotency_records ≡ last_db.idempotency_records)
    × (r.1.saved ≡ none)
recover_expired_execution-gives_up_example =
    recover_expired_execution-gives_up last_db (env_at 600) last_try_runs refl last_held refl
      last_key last_job refl (omega arith) refl

-- The handler has resolved in another attempt, and the job is COMPLETED.
abbrev done_db : Db
done_db = record running_db {
  idempotency_records = record email_key { status = IdempotencyStatus.completed } ∷ [];
  jobs = record email { status = JobStatus.completed } ∷ [];
}

done_try : get_execution_by_id 3 done_db ≡ some first_run
unfolding get_execution_by_id select_first
done_try = refl

done_held : find_lease_by_execution_id 3 done_db ≡ some held
unfolding find_lease_by_execution_id select_first
done_held = refl

done_key :
    get_by_job_id 1 done_db ≡ some (record email_key { status = IdempotencyStatus.completed })
unfolding get_by_job_id select_first
done_key = refl

done_job : exists (λ x. x.id == 1 && not_terminal x.status) done_db.jobs ≡ false
unfolding exists
done_job = refl

recover_expired_execution-completes_example :
    let r = recover_expired_execution 3 (calm done_db (env_at 600)) in
    (r.0 ≡ err type_error)
    × (get_execution_by_id 3 r.1.db ≡ some (succeed 600 first_run))
    × (r.1.db.jobs ≡ done_db.jobs)
    × (r.1.db.idempotency_records ≡ done_db.idempotency_records)
    × (r.1.saved ≡ none)
recover_expired_execution-completes_example =
    recover_expired_execution-completes done_db (env_at 600) done_try refl done_held refl done_key
      refl done_job
