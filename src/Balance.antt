-- ===== src/Balance.antt =====
-- The connections of the pool and the gauge of the heartbeat, over the handlers of the API (src/modules/jobs),
-- the worker (src/workers/worker.ts) and the heartbeat.
pub mod Rules
pub mod Effects
pub mod Executions
pub mod Scheduler
use zolt.Prelude.{ℕ, Bool, true, false, Option, none, some, List, [], ◌∷◌, ◌≡◌, refl, Text}
use zolt.Balance.Rules.{seq-Balanced, pure-Balanced, Balanced, Keeps, balance}
use zolt.Executions.Service.{ExecutionConfig}
use zolt.Heartbeat.{renew_one, renew_all, renew_active_leases}
use zolt.Jobs.Repository.{cancel_job_status, CreateJobData, create_job_with_idempotency}
use zolt.Jobs.Service.{
  CreateJobInput, resolve_run_at, resolve_idempotency_key, create_job_controller,
  cancel_job_service,
}
use zolt.Leases.{renew_lease}
use zolt.Schema.{once, immediate, ScheduleType, Job}
use zolt.Balance.Effects.{effects}
use zolt.Handlers.{Handling}
use zolt.Worker.{process_entry, dispatch}
use zolt.Monad.{execute_execution, execute_job, other_name, QueueJobName, QueueEntry}
use zolt.Balance.Executions.{execute_existing_execution-Balanced, create_new_execution-Balanced}

cancel_job_service-Balanced : (id : ℕ) → Balanced (cancel_job_service id)
unfolding cancel_job_service cancel_job_status
cancel_job_service-Balanced id = search (balance, effects) depth 10

resolve_run_at-Balanced : (s : ScheduleType) (t : Option (Option ℕ)) → Balanced (resolve_run_at s t)
unfolding resolve_run_at
resolve_run_at-Balanced immediate t = search balance
resolve_run_at-Balanced once t = search balance

resolve_idempotency_key-Balanced :
    (u : Text) (k : Option Text) → Balanced (resolve_idempotency_key u k)
unfolding resolve_idempotency_key
resolve_idempotency_key-Balanced u none = search balance
resolve_idempotency_key-Balanced u (some k) = search balance

create_job_with_idempotency-Balanced :
    (c : CreateJobData) (k : Text) → Balanced (create_job_with_idempotency c k)
unfolding create_job_with_idempotency
create_job_with_idempotency-Balanced c k = search balance depth 30

-- Creating a job leaves the number of the taken connections and the gauge of the owned executions as
-- they should be: the connections that were taken are released, on every path and whatever round trip
-- fails, and a gauge that counts the owned executions goes on doing so.
pub create_job_controller-Balanced :
    (u : Text) (i : CreateJobInput) (k : Option Text) → Balanced (create_job_controller u i k)
unfolding create_job_controller
create_job_controller-Balanced u i k =
    search
      (
        balance, effects, resolve_run_at-Balanced, resolve_idempotency_key-Balanced,
        create_job_with_idempotency-Balanced,
      )
      depth 14

renew_one-Balanced : (duration : ℕ) (x : ℕ × ℕ) → Balanced (renew_one duration x)
unfolding renew_one renew_lease
renew_one-Balanced duration (id, worker) = search (balance, effects) depth 8

renew_all-Balanced : (duration : ℕ) (xs : List (ℕ × ℕ)) → Balanced (renew_all duration xs)
unfolding renew_all
renew_all-Balanced duration [] = pure-Balanced tt
renew_all-Balanced duration (x ∷ xs) =
    seq-Balanced (renew_one-Balanced duration x) (renew_all-Balanced duration xs)

-- A pass of the heartbeat takes no connection that it keeps, and the gauge of the owned executions,
-- if it counts them, still counts them when the executions whose lease is lost are dropped.
pub renew_active_leases-Balanced : (duration : ℕ) → Balanced (renew_active_leases duration)
unfolding renew_active_leases
renew_active_leases-Balanced duration = record {
  run = λ w. (renew_all-Balanced duration w.env.active).run w;
}

module _ (config : ExecutionConfig) (handle : Job → ℕ → Handling) (worker_id : ℕ) where
  dispatch-Balanced :
      (n : QueueJobName) (j e : Option ℕ) → Balanced (dispatch config handle worker_id n j e)
  unfolding dispatch
  dispatch-Balanced execute_job j e = search (balance, create_new_execution-Balanced) depth 10
  dispatch-Balanced execute_execution j e =
      search (balance, execute_existing_execution-Balanced) depth 10
  dispatch-Balanced (other_name _) j e = search balance

  -- What a worker does with a queue entry releases every connection it takes, on every path and
  -- whatever round trip or handler fails, and a gauge that counts the owned executions goes on doing
  -- so.
  pub process_entry-Balanced :
      (entry : QueueEntry) → Balanced (process_entry config handle worker_id entry)
  unfolding process_entry
  process_entry-Balanced entry = dispatch-Balanced entry.name entry.job_id entry.execution_id
