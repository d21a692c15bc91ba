-- ===== src/Balance/Executions.antt =====
-- Running and recovering an execution (src/modules/executions/execution.service.ts).
use zolt.Prelude.{refl, ℕ, Option, Text}
use zolt.Schema.{Job, Execution, ExecutionStatus, IdempotencyRecord, IdempotencyStatus, Lease}
use zolt.Monad.{M}
use zolt.Balance.Rules.{query-Balanced, Balanced, balance, branch-Balanced}
use zolt.Executions.Recovery.{
  recover_processing, recover_expired_execution, recover_completed, recover_by_status, give_up,
}
use zolt.Executions.Repository.{
  timed_out_execution, success_execution, start_execution, new_execution, mark_worker_crashed,
  get_or_create_initial_execution, failed_execution,
}
use zolt.Executions.Service.{
  claim_and_run, start_and_run, run_leased, execute_existing_execution, elapse,
  create_new_execution, after_claim, unregister, settle, schedule_retry, observe, guarded,
  fail_without_handler, fail_finally, complete_without_running, complete, close_stranded,
  close_attempt, ExecutionConfig,
}
use zolt.Idempotency.{
  claimed, already_processing, already_completed, ClaimResult, reset_to_pending,
  complete_idempotency, claim_idempotency,
}
use zolt.Jobs.Repository.{success_job, start_job, failed_job}
use zolt.Leases.{acquire_execution_lease}
use zolt.Retry.{calculate_retry_at}
use zolt.Handlers.{resolved, rejected, Outcome, Handling}
use zolt.Balance.Effects.{
  crash_retry-Keeps, crash_failed-Keeps, observe_success-Keeps, count_success-Keeps, effects,
}

success_job-Balanced : (id : ℕ) → Balanced (success_job id)
unfolding success_job
success_job-Balanced id = query-Balanced _

start_job-Balanced : (id : ℕ) → Balanced (start_job id)
unfolding start_job
start_job-Balanced id = query-Balanced _

new_execution-Balanced :
    (job attempt : ℕ) (at : Option ℕ) (s : ExecutionStatus)
    → Balanced (new_execution job attempt at s)
unfolding new_execution
new_execution-Balanced job attempt at s = query-Balanced _

mark_worker_crashed-Balanced : (id at : ℕ) → Balanced (mark_worker_crashed id at)
unfolding mark_worker_crashed
mark_worker_crashed-Balanced id at = query-Balanced _

failed_job-Balanced : (id : ℕ) → Balanced (failed_job id)
unfolding failed_job
failed_job-Balanced id = query-Balanced _

timed_out_execution-Balanced : (id : ℕ) → Balanced (timed_out_execution id)
unfolding timed_out_execution
timed_out_execution-Balanced id = query-Balanced _

success_execution-Balanced : (id : ℕ) → Balanced (success_execution id)
unfolding success_execution
success_execution-Balanced id = query-Balanced _

start_execution-Balanced : (id : ℕ) → Balanced (start_execution id)
unfolding start_execution
start_execution-Balanced id = query-Balanced _

failed_execution-Balanced : (id : ℕ) (message : Text) → Balanced (failed_execution id message)
unfolding failed_execution
failed_execution-Balanced id message = query-Balanced _

reset_to_pending-Balanced : (k : Text) → Balanced (reset_to_pending k)
unfolding reset_to_pending
reset_to_pending-Balanced k = search balance depth 30

get_or_create_initial_execution-Balanced : (id : ℕ) → Balanced (get_or_create_initial_execution id)
unfolding get_or_create_initial_execution
get_or_create_initial_execution-Balanced id = search balance depth 30

complete_idempotency-Balanced : (k : Text) → Balanced (complete_idempotency k)
unfolding complete_idempotency
complete_idempotency-Balanced k = search balance depth 30

claim_idempotency-Balanced : (k : Text) → Balanced (claim_idempotency k)
unfolding claim_idempotency
claim_idempotency-Balanced k = search balance depth 30

acquire_execution_lease-Balanced :
    (id worker duration : ℕ) → Balanced (acquire_execution_lease id worker duration)
unfolding acquire_execution_lease
acquire_execution_lease-Balanced id worker duration = search balance depth 30

unregister-Balanced : (id : ℕ) → Balanced (unregister id)
unfolding unregister
unregister-Balanced id = search (balance, effects)

guarded-Balanced : {A : Type 0} (id : ℕ) {m : M A} → Balanced m → Balanced (guarded id m)
unfolding guarded
guarded-Balanced id h = search (balance, effects) depth 12

observe-Balanced : (job : Job) (row : Option Execution) → Balanced (observe job row)
unfolding observe
observe-Balanced job row = search (balance, effects)

pub calculate_retry_at-Balanced : (attempt : ℕ) → Balanced (calculate_retry_at attempt)
unfolding calculate_retry_at
calculate_retry_at-Balanced attempt = search (balance, effects) depth 8

ruleset parts = (
  balance, effects, unregister-Balanced, guarded-Balanced, observe-Balanced,
  calculate_retry_at-Balanced,
)

close_stranded-Balanced : (e : Execution) (j : Job) → Balanced (close_stranded e j)
unfolding close_stranded
close_stranded-Balanced e j = search (parts, failed_execution-Balanced) depth 20

complete_without_running-Balanced :
    (e : Execution) (j : Job) → Balanced (complete_without_running e j)
unfolding complete_without_running
complete_without_running-Balanced e j =
    search (parts, success_execution-Balanced, success_job-Balanced) depth 20

fail_without_handler-Balanced : (e : Execution) (j : Job) → Balanced (fail_without_handler e j)
unfolding fail_without_handler
fail_without_handler-Balanced e j =
    search (parts, failed_execution-Balanced, failed_job-Balanced) depth 24

schedule_retry-Balanced :
    (mark : M (Option Execution)) (e : Execution) (j : Job) (k : Text)
    → Balanced mark
    → Balanced (schedule_retry mark e j k)
unfolding schedule_retry
schedule_retry-Balanced mark e j k h =
    search (parts, reset_to_pending-Balanced, new_execution-Balanced) depth 24

fail_finally-Balanced :
    (mark : M (Option Execution)) (e : Execution) (j : Job)
    → Balanced mark
    → Balanced (fail_finally mark e j)
unfolding fail_finally
fail_finally-Balanced mark e j h = search (parts, failed_job-Balanced) depth 24

close_attempt-Balanced :
    (mark : M (Option Execution)) (e : Execution) (j : Job) (k : Text)
    → Balanced mark
    → Balanced (close_attempt mark e j k)
unfolding close_attempt
close_attempt-Balanced mark e j k h =
    branch-Balanced _ (schedule_retry-Balanced mark e j k h) (fail_finally-Balanced mark e j h)

complete-Balanced : (e : Execution) (j : Job) (k : Text) → Balanced (complete e j k)
unfolding complete
complete-Balanced e j k =
    search (parts, complete_idempotency-Balanced, success_execution-Balanced, success_job-Balanced)
      depth 24

settle-Balanced :
    (config : ExecutionConfig) (duration : ℕ) (o : Outcome) (e : Execution) (j : Job) (k : Text)
    → Balanced (settle config duration o e j k)
unfolding settle
settle-Balanced config duration resolved e j k = complete-Balanced e j k
settle-Balanced config duration (rejected reason) e j k =
    search (parts, close_attempt-Balanced, timed_out_execution-Balanced, failed_execution-Balanced)
      depth 8

module _ (config : ExecutionConfig) (handle : Job → ℕ → Handling) where
  elapse-Balanced : (j : Job) (id : ℕ) → Balanced (elapse (handle j id))
  unfolding elapse
  elapse-Balanced j id = record { run = λ w. record { same_connections = refl; counts = λ c. c } }

  start_and_run-Balanced :
      (e : Execution) (j : Job) (k : Text) → Balanced (start_and_run config handle e j k)
  unfolding start_and_run
  start_and_run-Balanced e j k =
      search
        (
          parts, start_execution-Balanced, start_job-Balanced, fail_without_handler-Balanced,
          elapse-Balanced, settle-Balanced,
        )
        depth 12

  after_claim-Balanced :
      (c : ClaimResult) (e : Execution) (j : Job) (k : Text)
      → Balanced (after_claim config handle c e j k)
  unfolding after_claim
  after_claim-Balanced already_completed e j k = complete_without_running-Balanced e j
  after_claim-Balanced already_processing e j k = search parts
  after_claim-Balanced claimed e j k = start_and_run-Balanced e j k

  run_leased-Balanced : (e : Execution) (worker : ℕ) → Balanced (run_leased config handle e worker)
  unfolding run_leased claim_and_run
  run_leased-Balanced e worker =
      search (parts, close_stranded-Balanced, claim_idempotency-Balanced, after_claim-Balanced)
        depth 20

  pub execute_existing_execution-Balanced :
      (id worker : ℕ) → Balanced (execute_existing_execution config handle id worker)
  unfolding execute_existing_execution
  execute_existing_execution-Balanced id worker =
      search (parts, acquire_execution_lease-Balanced, run_leased-Balanced) depth 12

  pub create_new_execution-Balanced :
      (j : Job) (worker : ℕ) → Balanced (create_new_execution config handle j worker)
  unfolding create_new_execution
  create_new_execution-Balanced j worker =
      search (parts, get_or_create_initial_execution-Balanced, execute_existing_execution-Balanced)
        depth 8

give_up-Balanced : Balanced give_up
unfolding give_up
give_up-Balanced = search (balance, effects)

ruleset recovery = (
  balance, effects, count_success-Keeps, observe_success-Keeps, crash_failed-Keeps,
  crash_retry-Keeps, give_up-Balanced, calculate_retry_at-Balanced,
)

recover_completed-Balanced : (e : Execution) → Balanced (recover_completed e)
unfolding recover_completed
recover_completed-Balanced e =
    search (recovery, success_execution-Balanced, success_job-Balanced) depth 12

recover_processing-Balanced :
    (e : Execution) (l : Lease) (r : IdempotencyRecord) → Balanced (recover_processing e l r)
unfolding recover_processing
recover_processing-Balanced e l r =
    search
      (
        recovery, mark_worker_crashed-Balanced, failed_job-Balanced, new_execution-Balanced,
        reset_to_pending-Balanced,
      )
      depth 20

recover_by_status-Balanced :
    (s : IdempotencyStatus) (e : Execution) (l : Lease) (r : IdempotencyRecord)
    → Balanced (recover_by_status s e l r)
unfolding recover_by_status
recover_by_status-Balanced IdempotencyStatus.completed e l r = recover_completed-Balanced e
recover_by_status-Balanced IdempotencyStatus.pending e l r = give_up-Balanced
recover_by_status-Balanced IdempotencyStatus.processing e l r = recover_processing-Balanced e l r

pub recover_expired_execution-Balanced : (id : ℕ) → Balanced (recover_expired_execution id)
unfolding recover_expired_execution
recover_expired_execution-Balanced id = search (recovery, recover_by_status-Balanced) depth 24
