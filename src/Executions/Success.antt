-- ===== src/Executions/Success.antt =====
-- What a successful handler leaves behind, in src/modules/executions/execution.service.ts.
use zolt.Prelude.{
  select_first-updated, updated_first-found, select_first-test, ◌≡◌, refl, true, none, some, Text,
  length, select_first, updated, update, ◌&&◌, ◌∙◌, ap, ◌==◌,
}
use zolt.Jobs.Rows.{finish, job_updated, job_found}
use zolt.Schema.{Db, Job, JobStatus, Execution, IdempotencyStatus, record_processing}
use zolt.Monad.{calm, Env, ok}
use zolt.Monad
use zolt.Idempotency.{keyed, moved_to, complete_idempotency, complete_processing, update_records}
use zolt.Executions.Service.{complete, guarded, observe}
use zolt.Executions.Repository.{
  get_execution_by_id, has_id, succeed, success_execution, update_execution,
}
use zolt.Jobs.Repository.{get_job_by_id, set_job_status, success_job, not_terminal}

complete-result :
    (e : Execution) (j : Job) (k : Text) (d : Db) (env : Env) {row : Execution} {job : Job}
    → length (
        updated
          (keyed k record_processing)
          (moved_to IdempotencyStatus.completed none env.now)
          d.idempotency_records)
      ≡ 1
    → select_first (has_id e.id) d.executions ≡ some row
    → select_first (λ x. x.id == j.id) d.jobs ≡ some job
    → not_terminal job.status ≡ true
    → let r = complete e j k (calm d env) in
      (r.0 ≡ ok true)
      × (r.1.db.jobs
          ≡ update
              (λ x. x.id == j.id && not_terminal x.status)
              (finish JobStatus.completed env.now)
              d.jobs)
      × (r.1.db.executions ≡ update (has_id e.id) (succeed env.now) d.executions)
unfolding complete guarded observe complete_idempotency complete_processing update_records
    success_execution update_execution success_job set_job_status Monad.running
complete-result e j k d env {row} {job} one found_e found_j live =
    rw
      (
        one,
        updated_first-found (has_id e.id) (succeed env.now) d.executions found_e,
        job_updated not_terminal JobStatus.completed j.id env.now d.jobs found_j live,
      )
      (refl, refl, refl)

-- Where no round trip fails: when the handler has resolved, and one record with the key is PROCESSING, the
-- execution is there, and the job is there and not terminal, then the service answers true, and the job
-- and the execution are COMPLETED.
pub complete-succeeds :
    (e : Execution) (j : Job) (k : Text) (d : Db) (env : Env) {row : Execution} {job : Job}
    → length (
        updated
          (keyed k record_processing)
          (moved_to IdempotencyStatus.completed none env.now)
          d.idempotency_records)
      ≡ 1
    → get_execution_by_id e.id d ≡ some row
    → get_job_by_id j.id d ≡ some job
    → not_terminal job.status ≡ true
    → let r = complete e j k (calm d env) in
      (r.0 ≡ ok true)
      × (get_job_by_id j.id r.1.db ≡ some (finish JobStatus.completed env.now job))
      × (get_execution_by_id e.id r.1.db ≡ some (succeed env.now row))
unfolding get_execution_by_id get_job_by_id
complete-succeeds e j k d env one found_e found_j live =
    let r = complete-result e j k d env one found_e found_j live in
    (
      r.0,
      ap (select_first (λ x. x.id == j.id)) r.1
          ∙ job_found not_terminal JobStatus.completed j.id env.now d.jobs found_j live,
      ap (select_first (has_id e.id)) r.2
          ∙ select_first-updated (has_id e.id) (has_id e.id) (succeed env.now) d.executions
              (λ x. refl) found_e (select_first-test (has_id e.id) d.executions found_e),
    )
