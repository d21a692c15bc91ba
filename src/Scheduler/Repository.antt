-- ===== src/Scheduler/Repository.antt =====
-- The claims of src/modules/scheduler/scheduler.repository.ts. `locked` are the rows that other
-- sessions hold, which FOR UPDATE SKIP LOCKED passes over. Without ORDER BY the LIMIT may keep any due
-- rows: each choice is that of the first rows which some `locked` leaves.
use zolt.Prelude.{
  ℕ, Bool, false, not, ◌&&◌, Option, none, some, List, [], ◌∷◌, map, leb, take, select, update,
  updated, contains,
}
use zolt.Schema.{Job, JobStatus, Execution, ExecutionStatus, job_scheduled, execution_scheduled}
use zolt.Monad.{
  M, Sql, pure, throw, try_catch, ◌>>=◌, ◌>>◌, query, with_client, begin, commit, rollback,
}
use zolt.Outbox.{create_job_outbox, create_execution_outbox}

abbrev pub due_job : (ℕ → Bool) → ℕ → Job → Bool
due_job locked now j = job_scheduled j.status && (leb j.run_at now && not (locked j.id))

abbrev pub queue_job : ℕ → Job → Job
queue_job now j = record j { status = JobStatus.queued; updated_at = now }

unfoldable pub due_job_ids : (ℕ → Bool) → ℕ → ℕ → List Job → List ℕ
due_job_ids locked batch now rows = map (λ j. j.id) (take batch (select (due_job locked now) rows))

unfoldable pub claim_jobs : (ℕ → Bool) → ℕ → Sql (List Job)
unfolding due_job_ids
claim_jobs locked batch now db =
    let ids = due_job_ids locked batch now db.jobs in
    some (
      updated (λ j. contains ids j.id) (queue_job now) db.jobs,
      record db { jobs = update (λ j. contains ids j.id) (queue_job now) db.jobs },
    )

unfoldable pub create_job_outboxes : List Job → M (Unit {0})
create_job_outboxes [] = pure tt
create_job_outboxes (j ∷ js) = create_job_outbox j.id >> create_job_outboxes js

unfoldable pub process_job_transaction : (ℕ → Bool) → ℕ → M (List Job)
process_job_transaction locked batch = with_client (
    try_catch
      (do
        begin
        rows ← query (claim_jobs locked batch)
        create_job_outboxes rows
        commit
        pure rows)
      (λ e. rollback >> throw e))

abbrev pub retry_due : ℕ → Option ℕ → Bool
retry_due now none = false
retry_due now (some t) = leb t now

abbrev pub due_execution : (ℕ → Bool) → ℕ → Execution → Bool
due_execution locked now e =
    execution_scheduled e.status && (retry_due now e.retry_at && not (locked e.id))

abbrev pub queue_execution : ℕ → Execution → Execution
queue_execution now e = record e { status = ExecutionStatus.queued; updated_at = now }

unfoldable pub due_execution_ids : (ℕ → Bool) → ℕ → ℕ → List Execution → List ℕ
due_execution_ids locked batch now rows =
    map (λ e. e.id) (take batch (select (due_execution locked now) rows))

unfoldable pub claim_executions : (ℕ → Bool) → ℕ → Sql (List Execution)
unfolding due_execution_ids
claim_executions locked batch now db =
    let ids = due_execution_ids locked batch now db.executions in
    some (
      updated (λ e. contains ids e.id) (queue_execution now) db.executions,
      record db {
        executions = update (λ e. contains ids e.id) (queue_execution now) db.executions;
      },
    )

unfoldable pub create_execution_outboxes : List Execution → M (Unit {0})
create_execution_outboxes [] = pure tt
create_execution_outboxes (e ∷ es) = create_execution_outbox e.id >> create_execution_outboxes es

unfoldable pub process_execution_transactions : (ℕ → Bool) → ℕ → M (List Execution)
process_execution_transactions locked batch = with_client (
    try_catch
      (do
        begin
        rows ← query (claim_executions locked batch)
        create_execution_outboxes rows
        commit
        pure rows)
      (λ e. rollback >> throw e))
