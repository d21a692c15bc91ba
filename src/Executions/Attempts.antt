-- ===== src/Executions/Attempts.antt =====
-- How a failed attempt is closed, in src/modules/executions/execution.service.ts: by a retry, or by the
-- failure of the job.
use zolt.Prelude.{
  length-update, same_number, both, ℕ, ◌+◌, ◌<◌, ◌≤◌, ◌≡◌, true, false, Option, none, some, Text,
  length, select_first, updated, update, exists, ltb, leb, ◌==◌, ◌∙◌, ap, select_first-updated,
  select_first-test, select_first-insert, select_first-insert_found, exists-update, none-exists,
}
use zolt.Schema.{Db, Job, JobStatus, Execution, IdempotencyStatus, record_processing}
use zolt.Executions.Closing.{
  keeps_id, more_case, mark, last_case, keeps_attempt, timer_case, retry-result, next_row,
  final-result, closing,
}
use zolt.Monad.{calm, Env, ok, M}
use zolt.Monad
use zolt.Idempotency.{keyed, moved_to}
use zolt.Executions.Service.{
  schedule_retry, fail_finally, close_attempt, settle, error_message, ExecutionConfig,
}
use zolt.Executions.Repository.{get_execution_by_id, has_id, is_attempt}
use zolt.Jobs.Repository.{get_job_by_id, not_terminal}
use zolt.Jobs.Rows.{finish, job_found}
use zolt.Handlers.{Outcome}

-- Where no round trip fails: if a handler rejects before the last attempt, with a message of at most 255
-- characters, and one record with the key is PROCESSING, the execution is there and there is no next
-- attempt yet, then the service answers false, the execution is TIMED_OUT if the timer has fired and
-- FAILED with the message otherwise, the next attempt is SCHEDULED at the time of the back-off, the record
-- is PENDING again, and the jobs are what they were.
pub settle-retries :
    (config : ExecutionConfig) (duration : ℕ) (reason : Option Text) (e : Execution) (j : Job)
    (k : Text) (d : Db) (env : Env) {row : Execution}
    → length (error_message reason) ≤ 255
    → e.attempt < j.max_attempts
    → length (
        updated
          (keyed k record_processing)
          (moved_to IdempotencyStatus.pending none env.now)
          d.idempotency_records)
      ≡ 1
    → get_execution_by_id e.id d ≡ some row
    → exists (is_attempt j.id (e.attempt + 1)) d.executions ≡ false
    → let r = settle config duration (Outcome.rejected reason) e j k (calm d env) in
      (r.0 ≡ ok false)
      × (get_execution_by_id e.id r.1.db ≡ some (closing config duration reason env.now row))
      × (select_first (is_attempt j.id (e.attempt + 1)) r.1.db.executions
          ≡ some (next_row e j d env))
      × (r.1.db.idempotency_records
          ≡ update
              (keyed k record_processing)
              (moved_to IdempotencyStatus.pending none env.now)
              d.idempotency_records)
      × (r.1.db.jobs ≡ d.jobs)
unfolding settle close_attempt get_execution_by_id
settle-retries config duration reason e j k d env {row = row} short more one found free =
    let late = leb config.timeout duration in
    let msg = error_message reason in
    let set = closing config duration reason in
    let next = is_attempt j.id (e.attempt + 1) in
    let closed =
      retry-result set e j k d env (keeps_attempt late msg j.id (e.attempt + 1)) one found free in
    rw
      (
        timer_case late
            (λ m.
              Monad.branch (ltb e.attempt j.max_attempts) (schedule_retry m e j k)
                (fail_finally m e j))
            e.id msg d env short,
        more_case e.attempt j.max_attempts (schedule_retry (mark set e.id) e j k)
            (fail_finally (mark set e.id) e j) more,
      )
      (
        closed.0,
        ap (select_first (has_id e.id)) closed.2
            ∙ select_first-insert_found (has_id e.id) (next_row e j d env)
                (closing config duration reason env.now row)
                (update (has_id e.id) (set env.now) d.executions)
                (select_first-updated (has_id e.id) (has_id e.id) (set env.now) d.executions
                  (keeps_id late msg e.id env.now) found
                  (select_first-test (has_id e.id) d.executions found)),
        ap (select_first next) closed.2
            ∙ select_first-insert next (next_row e j d env)
                (update (has_id e.id) (set env.now) d.executions)
                (none-exists next (update (has_id e.id) (set env.now) d.executions) (
                  exists-update next (has_id e.id) (set env.now) d.executions
                    (keeps_attempt late msg j.id (e.attempt + 1) env.now)
                  ∙ free))
                (both (j.id == j.id) ((e.attempt + 1) == (e.attempt + 1)) (same_number j.id)
                  (same_number (e.attempt + 1))),
        closed.3,
        closed.1,
      )

-- Where no round trip fails: if a handler rejects in the last attempt of a job that is not COMPLETED, FAILED or CANCELLED,
-- with a message of at most 255 characters, and the execution is there, then the service answers false, the
-- execution is TIMED_OUT if the timer has fired and FAILED with the message otherwise, the job is FAILED,
-- no attempt is added, and the idempotency records are what they were.
pub settle-gives_up :
    (config : ExecutionConfig) (duration : ℕ) (reason : Option Text) (e : Execution) (j : Job)
    (k : Text) (d : Db) (env : Env) {row : Execution} {job : Job}
    → length (error_message reason) ≤ 255
    → j.max_attempts ≤ e.attempt
    → get_execution_by_id e.id d ≡ some row
    → get_job_by_id j.id d ≡ some job
    → not_terminal job.status ≡ true
    → let r = settle config duration (Outcome.rejected reason) e j k (calm d env) in
      (r.0 ≡ ok false)
      × (get_execution_by_id e.id r.1.db ≡ some (closing config duration reason env.now row))
      × (get_job_by_id j.id r.1.db ≡ some (finish JobStatus.failed env.now job))
      × (length r.1.db.executions ≡ length d.executions)
      × (r.1.db.idempotency_records ≡ d.idempotency_records)
unfolding settle close_attempt get_execution_by_id get_job_by_id
settle-gives_up config duration reason e j k d env {row = row} {job = job} short last found found_j
      live =
    let late = leb config.timeout duration in
    let msg = error_message reason in
    let set = closing config duration reason in
    let closed = final-result set e j d env found found_j live in
    rw
      (
        timer_case late
            (λ m.
              Monad.branch (ltb e.attempt j.max_attempts) (schedule_retry m e j k)
                (fail_finally m e j))
            e.id msg d env short,
        last_case e.attempt j.max_attempts (schedule_retry (mark set e.id) e j k)
            (fail_finally (mark set e.id) e j) last,
      )
      (
        closed.0,
        ap (select_first (has_id e.id)) closed.2
            ∙ select_first-updated (has_id e.id) (has_id e.id) (set env.now) d.executions
                (keeps_id late msg e.id env.now) found
                (select_first-test (has_id e.id) d.executions found),
        ap (select_first (λ x. x.id == j.id)) closed.1
            ∙ job_found not_terminal JobStatus.failed j.id env.now d.jobs found_j live,
        ap length closed.2 ∙ length-update (has_id e.id) (set env.now) d.executions,
        closed.3,
      )
