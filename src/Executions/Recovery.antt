-- ===== src/Executions/Recovery.antt =====
-- recoverExpiredExecution and getJobExecutionsService of
-- src/modules/executions/execution.service.ts.
pub mod Crashes
use zolt.Prelude.{ℕ, ◌+◌, ◌-◌, Bool, true, false, not, Option, none, some, List, ltb, leb}
use zolt.Schema.{
  Job, JobStatus, Execution, ExecutionStatus, IdempotencyRecord, IdempotencyStatus, Lease,
  execution_running,
}
use zolt.Monad.{
  Env, M, pure, throw, try_catch, ◌>>=◌, ◌>>◌, on_row, branch, get_env, set_env, field, read,
  read_committed, with_client, begin, commit, rollback, app_error, execution_not_found,
  error_generating_recovery, error_finding_job,
}
use zolt.Metrics.{observe_execution_duration, record_execution_retry, count_final}
use zolt.Retry.{calculate_retry_at}
use zolt.Jobs.Repository.{get_job_by_id, success_job, failed_job}
use zolt.Executions.Repository.{
  get_execution_by_id, new_execution, success_execution, mark_worker_crashed,
  get_executions_by_job_id,
}
use zolt.Idempotency.{get_by_job_id, reset_to_pending}
use zolt.Leases.{find_lease_by_execution_id}

unfoldable pub give_up : M Bool
give_up = rollback >> pure false

-- if (result) jobsTotalFinalState...inc()
abbrev pub count_success : Option Job → Env → Env
count_success none e = e
count_success (some job) e = count_final (some job) job JobStatus.completed e

abbrev pub observe_success : Option Job → Execution → Env → Env
observe_success none closed e = e
observe_success (some job) closed e =
    observe_execution_duration job.type closed.status closed.started_at closed.completed_at e

-- The metrics are recorded only where successJob has updated the job; the log entries then read
-- fields of both rows.
unfoldable pub recover_completed : Execution → M Bool
recover_completed execution = do
  row ← success_execution execution.id
  result ← success_job execution.job_id
  commit
  set_env (count_success result)
  closed ← field row
  set_env (observe_success result closed)
  field result
  pure true

-- (SELECT type FROM jobs ...) AS job_type of the crashed row
abbrev pub observe_crash : Option Job → Execution → Env → Env
observe_crash none crashed e = e
observe_crash (some job) crashed e =
    observe_execution_duration job.type crashed.status crashed.started_at crashed.completed_at e

abbrev pub count_failed : Option Job → Env → Env
count_failed none e = e
count_failed (some job) e = count_final (some job) job JobStatus.failed e

unfoldable pub recover_exhausted : Execution → Execution → Option Job → M Bool
recover_exhausted execution crashed job = do
  result ← failed_job execution.job_id
  commit
  set_env (λ e. count_failed result (observe_crash job crashed e))
  pure true

abbrev pub count_retry : Option Job → Env → Env
count_retry none e = e
count_retry (some job) e = record_execution_retry job.type e

unfoldable pub replace_crashed : Execution → Execution → Option Job → IdempotencyRecord → M Bool
replace_crashed execution crashed job guard = do
  retry_at ← calculate_retry_at (execution.attempt + 1 - 1)
  row ←
      new_execution execution.job_id (execution.attempt + 1) (some retry_at)
        ExecutionStatus.scheduled
  on_row row (throw (app_error error_generating_recovery 500)) λ _. do
    reset_to_pending guard.idempotency_key
    commit
    set_env (λ e. count_retry job (observe_crash job crashed e))
    pure true

-- job?.max_attempts ?? execution.attempt
abbrev pub max_attempts_or : ℕ → Option Job → ℕ
max_attempts_or attempt none = attempt
max_attempts_or attempt (some job) = job.max_attempts

unfoldable pub recover_processing : Execution → Lease → IdempotencyRecord → M Bool
unfolding give_up recover_exhausted replace_crashed
recover_processing execution lease guard = do
  row ← mark_worker_crashed execution.id lease.lease_expires_at
  on_row row give_up λ crashed. do
    job ← read_committed (get_job_by_id execution.job_id)
    branch (leb (max_attempts_or execution.attempt job) execution.attempt)
        (recover_exhausted execution crashed job) (replace_crashed execution crashed job guard)

unfoldable pub recover_by_status :
    IdempotencyStatus → Execution → Lease → IdempotencyRecord → M Bool
unfolding give_up recover_completed recover_processing
recover_by_status IdempotencyStatus.completed execution lease guard = recover_completed execution
recover_by_status IdempotencyStatus.pending execution lease guard = give_up
recover_by_status IdempotencyStatus.processing execution lease guard =
    recover_processing execution lease guard

unfoldable pub recover_expired_lease : Execution → Lease → M Bool
unfolding give_up recover_by_status
recover_expired_lease execution lease = do
  row ← read (λ now db. get_by_job_id execution.job_id db)
  on_row row give_up (λ guard. recover_by_status guard.status execution lease guard)

unfoldable pub recover_running : Execution → M Bool
unfolding give_up recover_expired_lease
recover_running execution = do
  row ← read (λ now db. find_lease_by_execution_id execution.id db)
  now ← get_env (λ e. e.now)
  on_row row give_up λ lease.
      branch (ltb now lease.lease_expires_at) give_up (recover_expired_lease execution lease)

unfoldable pub recover_locked : ℕ → M Bool
unfolding give_up recover_running
recover_locked execution_id = do
  begin
  row ← read (λ now db. get_execution_by_id execution_id db)
  on_row row (throw (app_error (execution_not_found execution_id) 404)) λ execution.
      branch (not (execution_running execution.status)) give_up (recover_running execution)

unfoldable pub recover_expired_execution : ℕ → M Bool
unfolding recover_locked
recover_expired_execution execution_id =
    with_client (try_catch (recover_locked execution_id) (λ e. rollback >> throw e))

unfoldable pub get_job_executions_service : ℕ → M (List Execution)
get_job_executions_service id = do
  row ← read (λ now db. get_job_by_id id db)
  on_row row (throw (app_error error_finding_job 404))
      (λ _. read (λ now db. get_executions_by_job_id id db))
