-- ===== src/Executions/Lifecycle.antt =====
-- What running and recovering an execution may do to the rows of the tables, with round trips that
-- fail anywhere and other sessions that commit while the handler runs.
use zolt.Prelude.{ℕ, Option, Text}
use zolt.Schema.{Db, Job, Execution, IdempotencyRecord, IdempotencyStatus, Lease}
use zolt.Monad.{M}
use zolt.Lifecycle.{DbStep}
use zolt.Lifecycle.Rules.{branch-Lives, foreign-Lives, Lives, lives}
use zolt.Handlers.{Handling, Outcome, resolved, rejected}
use zolt.Executions.Service.{
  schedule_retry, fail_finally, claim_and_run, run_leased, unregister, execute_existing_execution,
  after_claim, elapse, close_stranded, complete, complete_without_running, observe,
  fail_without_handler, guarded, create_new_execution, settle, close_attempt, start_and_run,
  ExecutionConfig,
}
use zolt.Executions.Recovery.{
  recover_processing, recover_expired_execution, recover_completed, recover_by_status, give_up,
}
use zolt.Idempotency.{ClaimResult, already_completed, already_processing, claimed}
use zolt.Lifecycle.Repositories.{
  success_job-Lives, start_job-Lives, new_execution-Lives, mark_worker_crashed-Lives,
  failed_job-Lives, timed_out_execution-Lives, success_execution-Lives, start_execution-Lives,
  reset_to_pending-Lives, get_or_create_initial_execution-Lives, failed_execution-Lives,
  complete_idempotency-Lives, claim_idempotency-Lives, acquire_execution_lease-Lives,
}
use zolt.Retry.{calculate_retry_at}

unregister-Lives : (id : ℕ) → Lives (unregister id)
unfolding unregister
unregister-Lives id = search lives

guarded-Lives : {A : Type 0} (id : ℕ) {m : M A} → Lives m → Lives (guarded id m)
unfolding guarded
guarded-Lives id h = search lives depth 12

observe-Lives : (job : Job) (row : Option Execution) → Lives (observe job row)
unfolding observe
observe-Lives job row = search lives

calculate_retry_at-Lives : (attempt : ℕ) → Lives (calculate_retry_at attempt)
unfolding calculate_retry_at
calculate_retry_at-Lives attempt = search lives depth 8

ruleset parts = (lives, unregister-Lives, guarded-Lives, observe-Lives, calculate_retry_at-Lives)

close_stranded-Lives : (e : Execution) (j : Job) → Lives (close_stranded e j)
unfolding close_stranded
close_stranded-Lives e j = search (parts, failed_execution-Lives) depth 20

complete_without_running-Lives : (e : Execution) (j : Job) → Lives (complete_without_running e j)
unfolding complete_without_running
complete_without_running-Lives e j =
    search (parts, success_execution-Lives, success_job-Lives) depth 20

fail_without_handler-Lives : (e : Execution) (j : Job) → Lives (fail_without_handler e j)
unfolding fail_without_handler
fail_without_handler-Lives e j = search (parts, failed_execution-Lives, failed_job-Lives) depth 24

schedule_retry-Lives :
    (mark : M (Option Execution)) (e : Execution) (j : Job) (k : Text)
    → Lives mark
    → Lives (schedule_retry mark e j k)
unfolding schedule_retry
schedule_retry-Lives mark e j k h =
    search (parts, reset_to_pending-Lives, new_execution-Lives) depth 24

fail_finally-Lives :
    (mark : M (Option Execution)) (e : Execution) (j : Job)
    → Lives mark
    → Lives (fail_finally mark e j)
unfolding fail_finally
fail_finally-Lives mark e j h = search (parts, failed_job-Lives) depth 24

close_attempt-Lives :
    (mark : M (Option Execution)) (e : Execution) (j : Job) (k : Text)
    → Lives mark
    → Lives (close_attempt mark e j k)
unfolding close_attempt
close_attempt-Lives mark e j k h =
    branch-Lives _ (schedule_retry-Lives mark e j k h) (fail_finally-Lives mark e j h)

complete-Lives : (e : Execution) (j : Job) (k : Text) → Lives (complete e j k)
unfolding complete
complete-Lives e j k =
    search (parts, complete_idempotency-Lives, success_execution-Lives, success_job-Lives) depth 24

settle-Lives :
    (config : ExecutionConfig) (duration : ℕ) (o : Outcome) (e : Execution) (j : Job) (k : Text)
    → Lives (settle config duration o e j k)
unfolding settle
settle-Lives config duration resolved e j k = complete-Lives e j k
settle-Lives config duration (rejected reason) e j k =
    search (parts, close_attempt-Lives, timed_out_execution-Lives, failed_execution-Lives) depth 8

module _ (config : ExecutionConfig) (handle : Job → ℕ → Handling)
    (others : (j : Job) (id : ℕ) (d : Db) → DbStep d ((handle j id).others d)) where
  elapse-Lives : (j : Job) (id : ℕ) → Lives (elapse (handle j id))
  unfolding elapse
  elapse-Lives j id = foreign-Lives (handle j id).others _ (others j id)

  start_and_run-Lives :
      (e : Execution) (j : Job) (k : Text) → Lives (start_and_run config handle e j k)
  unfolding start_and_run
  start_and_run-Lives e j k =
      search
        (
          parts, start_execution-Lives, start_job-Lives, fail_without_handler-Lives, elapse-Lives,
          settle-Lives,
        )
        depth 12

  after_claim-Lives :
      (c : ClaimResult) (e : Execution) (j : Job) (k : Text)
      → Lives (after_claim config handle c e j k)
  unfolding after_claim
  after_claim-Lives already_completed e j k = complete_without_running-Lives e j
  after_claim-Lives already_processing e j k = search parts
  after_claim-Lives claimed e j k = start_and_run-Lives e j k

  run_leased-Lives : (e : Execution) (worker : ℕ) → Lives (run_leased config handle e worker)
  unfolding run_leased claim_and_run
  run_leased-Lives e worker =
      search (parts, close_stranded-Lives, claim_idempotency-Lives, after_claim-Lives) depth 20

  -- Whatever happens on the way, running an execution takes the durable rows along their lives: a
  -- terminal job stays as it is, a started execution never waits again, a completed record stays so.
  pub execute_existing_execution-Lives :
      (id worker : ℕ) → Lives (execute_existing_execution config handle id worker)
  unfolding execute_existing_execution
  execute_existing_execution-Lives id worker =
      search (parts, acquire_execution_lease-Lives, run_leased-Lives) depth 12

  pub create_new_execution-Lives :
      (j : Job) (worker : ℕ) → Lives (create_new_execution config handle j worker)
  unfolding create_new_execution
  create_new_execution-Lives j worker =
      search (parts, get_or_create_initial_execution-Lives, execute_existing_execution-Lives) depth
        8

give_up-Lives : Lives give_up
unfolding give_up
give_up-Lives = search lives

ruleset recovery = (lives, give_up-Lives, calculate_retry_at-Lives)

recover_completed-Lives : (e : Execution) → Lives (recover_completed e)
unfolding recover_completed
recover_completed-Lives e = search (recovery, success_execution-Lives, success_job-Lives) depth 12

recover_processing-Lives :
    (e : Execution) (l : Lease) (r : IdempotencyRecord) → Lives (recover_processing e l r)
unfolding recover_processing
recover_processing-Lives e l r =
    search
      (
        recovery, mark_worker_crashed-Lives, failed_job-Lives, new_execution-Lives,
        reset_to_pending-Lives,
      )
      depth 20

recover_by_status-Lives :
    (s : IdempotencyStatus) (e : Execution) (l : Lease) (r : IdempotencyRecord)
    → Lives (recover_by_status s e l r)
unfolding recover_by_status
recover_by_status-Lives IdempotencyStatus.completed e l r = recover_completed-Lives e
recover_by_status-Lives IdempotencyStatus.pending e l r = give_up-Lives
recover_by_status-Lives IdempotencyStatus.processing e l r = recover_processing-Lives e l r

pub recover_expired_execution-Lives : (id : ℕ) → Lives (recover_expired_execution id)
unfolding recover_expired_execution
recover_expired_execution-Lives id = search (recovery, recover_by_status-Lives) depth 24
