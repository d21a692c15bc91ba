-- ===== src/Executions/Closing.antt =====
-- The two ways in which src/modules/executions/execution.service.ts closes a failed attempt: their statements.
use zolt.Prelude.{
  ◌&&◌, ℕ, ◌+◌, ◌-◌, ◌<◌, ◌≤◌, ◌≡◌, refl, Bool, true, false, Option, none, some, Text, length,
  arith, select_first, updated, update, insert, exists, ltb, leb, ◌==◌, if◌then◌else◌, ◌∙◌, ap,
  updated_first-found, exists-update,
}
use zolt.Schema.{
  fits_varchar, cut_varchar, Db, Job, JobStatus, Execution, ExecutionStatus, IdempotencyStatus,
  record_processing,
}
use zolt.Monad.{calm, Env, ok, M}
use zolt.Monad
use zolt.Retry.{retry_time, next_random, calculate_retry_at}
use zolt.Idempotency.{keyed, moved_to, reset_to_pending, reset_processing, update_records}
use zolt.Executions.Service.{
  schedule_retry, fail_finally, guarded, observe, error_message, ExecutionConfig,
}
use zolt.Executions.Repository.{
  has_id, is_attempt, attempt_row, fail_with, time_out, failed_execution, fail_execution,
  timed_out_execution, update_execution, new_execution, insert_execution,
}
use zolt.Jobs.Repository.{set_job_status, failed_job, not_terminal}
use zolt.Jobs.Rows.{finish, job_updated}

-- The UPDATE that closes the attempt, by its SET list.
abbrev pub mark : (ℕ → Execution → Execution) → ℕ → M (Option Execution)
mark set id = Monad.query (update_execution (has_id id) set)

-- The execution of the next attempt.
abbrev pub next_row : Execution → Job → Db → Env → Execution
next_row e j d env =
    attempt_row j.id (e.attempt + 1) ExecutionStatus.scheduled
      (some (retry_time (e.attempt + 1 - 1) (next_random env.randoms) env.now)) d.next_id env.now

pub retry-result :
    (set : ℕ → Execution → Execution) (e : Execution) (j : Job) (k : Text) (d : Db) (env : Env)
    {row : Execution}
    → ((now : ℕ) (x : Execution)
        → is_attempt j.id (e.attempt + 1) (set now x) ≡ is_attempt j.id (e.attempt + 1) x)
    → length (
        updated
          (keyed k record_processing)
          (moved_to IdempotencyStatus.pending none env.now)
          d.idempotency_records)
      ≡ 1
    → select_first (has_id e.id) d.executions ≡ some row
    → exists (is_attempt j.id (e.attempt + 1)) d.executions ≡ false
    → let r = schedule_retry (mark set e.id) e j k (calm d env) in
      (r.0 ≡ ok false)
      × (r.1.db.jobs ≡ d.jobs)
      × (r.1.db.executions
          ≡ insert (next_row e j d env) (update (has_id e.id) (set env.now) d.executions))
      × (r.1.db.idempotency_records
          ≡ update
              (keyed k record_processing)
              (moved_to IdempotencyStatus.pending none env.now)
              d.idempotency_records)
unfolding schedule_retry guarded observe reset_to_pending reset_processing update_records
    update_execution calculate_retry_at new_execution insert_execution Monad.running
retry-result set e j k d env {row = row} keeps one found free =
    rw
      (
        updated_first-found (has_id e.id) (set env.now) d.executions found,
        one,
        exists-update (is_attempt j.id (e.attempt + 1)) (has_id e.id) (set env.now) d.executions
              (keeps env.now)
            ∙ free,
      )
      (refl, refl, refl, refl)

pub final-result :
    (set : ℕ → Execution → Execution) (e : Execution) (j : Job) (d : Db) (env : Env)
    {row : Execution} {job : Job}
    → select_first (has_id e.id) d.executions ≡ some row
    → select_first (λ x. x.id == j.id) d.jobs ≡ some job
    → not_terminal job.status ≡ true
    → let r = fail_finally (mark set e.id) e j (calm d env) in
      (r.0 ≡ ok false)
      × (r.1.db.jobs
          ≡ update
              (λ x. x.id == j.id && not_terminal x.status)
              (finish JobStatus.failed env.now)
              d.jobs)
      × (r.1.db.executions ≡ update (has_id e.id) (set env.now) d.executions)
      × (r.1.db.idempotency_records ≡ d.idempotency_records)
unfolding fail_finally guarded observe update_execution failed_job set_job_status Monad.running
final-result set e j d env found_e found_j live =
    rw
      (
        updated_first-found (has_id e.id) (set env.now) d.executions found_e,
        job_updated not_terminal JobStatus.failed j.id env.now d.jobs found_j live,
      )
      (refl, refl, refl, refl)

-- How the attempt is closed: TIMED_OUT if the timer has fired, FAILED with the message otherwise.
abbrev pub closing : ExecutionConfig → ℕ → Option Text → ℕ → Execution → Execution
closing config duration reason =
    if leb config.timeout duration then time_out else fail_with (error_message reason)

fits : (n : ℕ) → n ≤ 255 → leb n 255 ≡ true
fits n h = ground arith

short_statement :
    (id : ℕ) (message : Text)
    → length message ≤ 255
    → (now : ℕ) (d : Db)
    → fail_execution id message now d ≡ update_execution (has_id id) (fail_with message) now d
unfolding fail_execution fits_varchar cut_varchar
short_statement id message short now d = rw (fits (length message) short)

-- A message that fits is stored.
short_message :
    (id : ℕ) (message : Text)
    → length message ≤ 255
    → failed_execution id message ≡ mark (fail_with message) id
unfolding failed_execution
short_message id message short =
    λ i. Monad.query (λ now d. short_statement id message short now d i)

-- Of the two ways to close an attempt, one is taken, by the timer.
pub timer_case :
    (b : Bool) (close : M (Option Execution) → M Bool) (id : ℕ) (message : Text) (d : Db)
    (env : Env)
    → length message ≤ 255
    → Monad.branch b
        (close (timed_out_execution id))
        (close (failed_execution id message))
        (calm d env)
      ≡ close (mark (if b then time_out else fail_with message) id) (calm d env)
unfolding Monad.branch timed_out_execution
timer_case true close id message d env short = refl
timer_case false close id message d env short =
    ap (λ m. close m (calm d env)) (short_message id message short)

pub keeps_attempt :
    (b : Bool) (message : Text) (id attempt now : ℕ) (x : Execution)
    → is_attempt id attempt ((if b then time_out else fail_with message) now x)
      ≡ is_attempt id attempt x
keeps_attempt true message id attempt now x = refl
keeps_attempt false message id attempt now x = refl

pub keeps_id :
    (b : Bool) (message : Text) (id now : ℕ) (x : Execution)
    → has_id id ((if b then time_out else fail_with message) now x) ≡ has_id id x
keeps_id true message id now x = refl
keeps_id false message id now x = refl

pub more_case :
    (attempt max_attempts : ℕ) (m n : M Bool)
    → attempt < max_attempts
    → Monad.branch (ltb attempt max_attempts) m n ≡ m
unfolding Monad.branch
more_case attempt max_attempts m n h = rw (more attempt max_attempts h)
  where
    more : (a b : ℕ) → a < b → ltb a b ≡ true
    more a b h = ground arith

pub last_case :
    (attempt max_attempts : ℕ) (m n : M Bool)
    → max_attempts ≤ attempt
    → Monad.branch (ltb attempt max_attempts) m n ≡ n
unfolding Monad.branch
last_case attempt max_attempts m n h = rw (last attempt max_attempts h)
  where
    last : (a b : ℕ) → b ≤ a → ltb a b ≡ false
    last a b h = ground arith
