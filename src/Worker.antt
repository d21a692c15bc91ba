-- ===== src/Worker.antt =====
-- The processor of src/workers/worker.ts: what a queue entry makes the worker do.
use zolt.Prelude.{ℕ, Option}
use zolt.Schema.{Job}
use zolt.Monad.{
  M, pure, throw, ◌>>=◌, ◌>>◌, on_row, read, app_error, job_not_found, job_id_missing,
  execution_id_missing, unknown_job_name, QueueJobName, execute_job, execute_execution, other_name,
  QueueEntry,
}
use zolt.Jobs.Repository.{get_job_by_id}
use zolt.Handlers.{Handling}
use zolt.Executions.Service.{ExecutionConfig, create_new_execution, execute_existing_execution}

module _ (config : ExecutionConfig) (handle : Job → ℕ → Handling) (worker_id : ℕ) where
  unfoldable pub execute_job_entry : Option ℕ → M (Unit {0})
  execute_job_entry job_id = on_row job_id (throw (app_error job_id_missing 400)) λ id. do
    row ← read (λ now db. get_job_by_id id db)
    on_row row (throw (app_error (job_not_found id) 404))
        (λ job. create_new_execution config handle job worker_id >> pure tt)

  unfoldable pub execute_execution_entry : Option ℕ → M (Unit {0})
  execute_execution_entry execution_id =
      on_row execution_id (throw (app_error execution_id_missing 400))
        (λ id. execute_existing_execution config handle id worker_id >> pure tt)

  -- switch (job.name)
  unfoldable pub dispatch : QueueJobName → Option ℕ → Option ℕ → M (Unit {0})
  unfolding execute_job_entry execute_execution_entry
  dispatch execute_job job_id execution_id = execute_job_entry job_id
  dispatch execute_execution job_id execution_id = execute_execution_entry execution_id
  dispatch (other_name _) job_id execution_id = throw (app_error unknown_job_name 400)

  unfoldable pub process_entry : QueueEntry → M (Unit {0})
  unfolding dispatch
  process_entry entry = dispatch entry.name entry.job_id entry.execution_id
