-- ===== src/Executions/Service.antt =====
-- executeExistingExecution and createNewExecution of src/modules/executions/execution.service.ts.
-- The branches of the function are definitions of their own; `execution` and `job` are the rows that
-- it read at its beginning, which the code goes on using.
use zolt.Prelude.{
  ℕ, ◌+◌, ◌-◌, Bool, true, false, not, Option, none, some, Text, codes, ◌++◌, ltb, leb,
}
use zolt.Schema.{Job, JobStatus, Execution, ExecutionStatus, job_terminal, execution_queued}
use zolt.Monad.{
  M, ok, pure, throw, try_catch, ◌>>=◌, ◌>>◌, on_row, branch, set_env, field, read, with_client,
  begin, commit, rollback, app_error, execution_not_found, job_not_found,
  idempotency_record_missing, no_handler, error_generating_execution, error_generating_retry,
}
use zolt.Metrics.{observe_execution_duration, record_execution_retry, count_final}
use zolt.Retry.{calculate_retry_at}
use zolt.Jobs.Repository.{get_job_by_id, success_job, failed_job, start_job}
use zolt.Executions.Repository.{
  get_execution_by_id, get_or_create_initial_execution, new_execution, failed_execution,
  success_execution, start_execution, timed_out_execution,
}
use zolt.Idempotency.{
  ClaimResult, claimed, already_processing, already_completed, get_by_job_id, claim_idempotency,
  complete_idempotency, reset_to_pending,
}
use zolt.Leases.{acquire_execution_lease}
use zolt.Heartbeat.{register_execution, unregister_execution}
use zolt.Handlers.{is_registered, type_name, Outcome, resolved, rejected, Handling}

pub record ExecutionConfig : Type 0 where
  pub lease_duration : ℕ
  pub timeout : ℕ

unfoldable pub unregister : ℕ → M (Unit {0})
unregister id = set_env (unregister_execution id)

-- pool.connect(), and the try of a transaction with its catch and finally.
unfoldable pub guarded : {A : Type 0} → ℕ → M A → M A
unfolding unregister
guarded id m = with_client (try_catch m (λ e. rollback >> (unregister id >> throw e)))

unfoldable pub observe : Job → Option Execution → M (Unit {0})
observe job row = do
  e ← field row
  set_env (observe_execution_duration job.type e.status e.started_at e.completed_at)

-- job.status is FAILED or CANCELLED
abbrev pub is_refused : JobStatus → Bool
is_refused JobStatus.scheduled = false
is_refused JobStatus.queued = false
is_refused JobStatus.running = false
is_refused JobStatus.completed = false
is_refused JobStatus.failed = true
is_refused JobStatus.cancelled = true

abbrev refusal : JobStatus → Text
refusal JobStatus.failed = codes "job_failed"
refusal _ = codes "job_cancelled"

unfoldable pub close_stranded : Execution → Job → M Bool
unfolding guarded unregister
close_stranded execution job = do
  guarded execution.id (begin >> (failed_execution execution.id (refusal job.status) >> commit))
  unregister execution.id
  pure false

unfoldable pub complete_without_running : Execution → Job → M Bool
unfolding guarded observe unregister
complete_without_running execution job = guarded execution.id (do
  begin
  completed_execution ← success_execution execution.id
  completed_job ← success_job job.id
  commit
  observe job completed_execution
  set_env (count_final completed_job job JobStatus.completed)
  unregister execution.id
  pure true)

no_handler_text : Job → Text
no_handler_text job = codes "No handler registered for type: " ++ type_name job.type

unfoldable pub fail_without_handler : Execution → Job → M Bool
unfolding guarded observe unregister no_handler_text
fail_without_handler execution job = do
  result ← guarded execution.id (do
    begin
    failed ← failed_execution execution.id (no_handler_text job)
    result ← failed_job job.id
    commit
    observe job failed
    set_env (count_final result job JobStatus.failed)
    pure result)
  field result
  unregister execution.id
  throw (app_error (no_handler job.type) 500)

-- The transaction of both paths with a retry; `mark` closes the attempt.
unfoldable pub schedule_retry : M (Option Execution) → Execution → Job → Text → M Bool
unfolding guarded observe unregister
schedule_retry mark execution job key = guarded execution.id (do
  begin
  closed ← mark
  reset_to_pending key
  retry_at ← calculate_retry_at (execution.attempt + 1 - 1)
  row ← new_execution job.id (execution.attempt + 1) (some retry_at) ExecutionStatus.scheduled
  on_row row (throw (app_error error_generating_retry 500)) λ _. do
    commit
    observe job closed
    set_env (record_execution_retry job.type)
    unregister execution.id
    pure false)

-- The transaction of both paths without a retry.
unfoldable pub fail_finally : M (Option Execution) → Execution → Job → M Bool
unfolding guarded observe unregister
fail_finally mark execution job = guarded execution.id (do
  begin
  closed ← mark
  result ← failed_job job.id
  commit
  observe job closed
  set_env (count_final result job JobStatus.failed)
  field result
  unregister execution.id
  pure false)

unfoldable pub close_attempt : M (Option Execution) → Execution → Job → Text → M Bool
unfolding schedule_retry fail_finally
close_attempt mark execution job key =
    branch (ltb execution.attempt job.max_attempts) (schedule_retry mark execution job key)
      (fail_finally mark execution job)

unfoldable pub error_message : Option Text → Text
error_message (some message) = message
error_message none = codes "Unknown execution error"

unfoldable pub complete : Execution → Job → Text → M Bool
unfolding guarded observe unregister
complete execution job key = guarded execution.id (do
  begin
  complete_idempotency key
  closed ← success_execution execution.id
  result ← success_job job.id
  commit
  observe job closed
  set_env (count_final result job JobStatus.completed)
  field result
  unregister execution.id
  pure true)

-- While the handler runs, time passes and the other sessions commit.
unfoldable pub elapse : Handling → M (Unit {0})
elapse h w =
    (ok tt, record w { db = h.others w.db; env = record (w.env) { now = w.env.now + h.duration } })

unfoldable pub settle : ExecutionConfig → ℕ → Outcome → Execution → Job → Text → M Bool
unfolding close_attempt complete error_message
settle config duration resolved execution job key = complete execution job key
settle config duration (rejected reason) execution job key =
    branch (leb config.timeout duration)
      (close_attempt (timed_out_execution execution.id) execution job key)
      (close_attempt (failed_execution execution.id (error_message reason)) execution job key)

module _ (config : ExecutionConfig) (handle : Job → ℕ → Handling) where
  unfoldable pub start_and_run : Execution → Job → Text → M Bool
  unfolding fail_without_handler elapse settle
  start_and_run execution job key = do
    started ← start_execution execution.id
    field started
    start_job job.id
    branch (not (is_registered job.type)) (fail_without_handler execution job) (do
      elapse (handle job execution.id)
      settle config (handle job execution.id).duration (handle job execution.id).outcome execution
          job key)

  unfoldable pub after_claim : ClaimResult → Execution → Job → Text → M Bool
  unfolding complete_without_running unregister start_and_run
  after_claim already_completed execution job key = complete_without_running execution job
  after_claim already_processing execution job key = unregister execution.id >> pure false
  after_claim claimed execution job key = start_and_run execution job key

  unfoldable pub claim_and_run : Execution → Job → M Bool
  unfolding unregister after_claim
  claim_and_run execution job = do
    row ← read (λ now db. get_by_job_id job.id db)
    on_row row
        (unregister execution.id >> throw (app_error (idempotency_record_missing job.id) 500))
        λ found. do
          result ← claim_idempotency found.idempotency_key
          after_claim result execution job found.idempotency_key

  unfoldable pub run_leased : Execution → ℕ → M Bool
  unfolding unregister close_stranded claim_and_run
  run_leased execution worker_id = do
    set_env (register_execution execution.id worker_id)
    row ← read (λ now db. get_job_by_id execution.job_id db)
    on_row row (unregister execution.id >> throw (app_error (job_not_found execution.job_id) 404))
        λ job.
          branch (is_refused job.status) (close_stranded execution job)
            (claim_and_run execution job)

  unfoldable pub execute_existing_execution : ℕ → ℕ → M Bool
  unfolding run_leased
  execute_existing_execution execution_id worker_id = do
    row ← read (λ now db. get_execution_by_id execution_id db)
    on_row row (throw (app_error (execution_not_found execution_id) 404)) λ execution.
        branch (not (execution_queued execution.status)) (pure false) (do
          lease ← acquire_execution_lease execution.id worker_id config.lease_duration
          on_row lease (pure false) (λ _. run_leased execution worker_id))

  unfoldable pub create_new_execution : Job → ℕ → M Bool
  unfolding execute_existing_execution
  create_new_execution job worker_id = branch (job_terminal job.status) (pure false) (do
    row ← get_or_create_initial_execution job.id
    on_row row (throw (app_error error_generating_execution 500))
        (λ execution. execute_existing_execution execution.id worker_id))
