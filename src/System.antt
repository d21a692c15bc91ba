-- ===== src/System.antt =====
-- The whole system: the API, the workers with their heartbeat, and the scheduler, on one database and
-- one queue. A step is a handler that runs to its end or its failure; what other processes commit
-- while a job's handler runs is part of that step. Between the steps the surroundings of the processes
-- change at will, and a process may die with its transaction open.
use zolt.Prelude.{◌==◌, ◌∷◌, ℕ, ◌≡◌, Option, none, some, List, [], Text, Rows-select_first}
use zolt.Heartbeat.{renew_one, renew_all, renew_active_leases}
use zolt.Jobs.Service.{
  CreateJobInput, resolve_run_at, resolve_idempotency_key, create_job_controller,
  cancel_job_service,
}
use zolt.Queue.{Bullmq}
use zolt.Lifecycle.Rules.{seq-Lives, pure-Lives, lives, Lives}
use zolt.Scheduler.Service.{run_scheduler_tick, Locks, SchedulerConfig}
use zolt.Schema.{IdempotencyRecord, Execution, Db, once, immediate, Job, ScheduleType}
use zolt.Executions.Service.{ExecutionConfig}
use zolt.Lifecycle.Repositories.{
  renew_lease-Lives, create_job_with_idempotency-Lives, cancel_job_status-Lives,
}
use zolt.Handlers.{Handling}
use zolt.Monad.{execute_execution, execute_job, other_name, Env, QueueJobName, QueueEntry, World}
use zolt.Lifecycle.{
  DbStep-trans, RecordMoves, JobMoves, ExecutionMoves, DbStep-refl, DbMoves, IsWellFormed, DbStep,
}
use zolt.Monad.Evolves.{Evolves-then, quiet-Evolves, Evolves-here, durable, Evolves}
use zolt.Worker.{dispatch, process_entry}
use zolt.Executions.Repository.{has_id, get_execution_by_id}
use zolt.Idempotency.{get_by_job_id}
use zolt.Jobs.Repository.{get_job_by_id}
use zolt.Scheduler.Lifecycle.{run_scheduler_tick-Lives}
use zolt.Executions.Lifecycle.{execute_existing_execution-Lives, create_new_execution-Lives}

cancel_job_service-Lives : (id : ℕ) → Lives (cancel_job_service id)
unfolding cancel_job_service
cancel_job_service-Lives id = search (lives, cancel_job_status-Lives) depth 10

resolve_run_at-Lives : (s : ScheduleType) (t : Option (Option ℕ)) → Lives (resolve_run_at s t)
unfolding resolve_run_at
resolve_run_at-Lives immediate t = search lives
resolve_run_at-Lives once t = search lives

resolve_idempotency_key-Lives : (u : Text) (k : Option Text) → Lives (resolve_idempotency_key u k)
unfolding resolve_idempotency_key
resolve_idempotency_key-Lives u none = search lives
resolve_idempotency_key-Lives u (some k) = search lives

create_job_controller-Lives :
    (u : Text) (i : CreateJobInput) (k : Option Text) → Lives (create_job_controller u i k)
unfolding create_job_controller
create_job_controller-Lives u i k =
    search
      (
        lives, resolve_run_at-Lives, resolve_idempotency_key-Lives,
        create_job_with_idempotency-Lives,
      )
      depth 14

renew_one-Lives : (duration : ℕ) (x : ℕ × ℕ) → Lives (renew_one duration x)
unfolding renew_one
renew_one-Lives duration (id, worker) = search (lives, renew_lease-Lives) depth 8

renew_all-Lives : (duration : ℕ) (xs : List (ℕ × ℕ)) → Lives (renew_all duration xs)
unfolding renew_all
renew_all-Lives duration [] = pure-Lives tt
renew_all-Lives duration (x ∷ xs) =
    seq-Lives (renew_one-Lives duration x) (renew_all-Lives duration xs)

renew_active_leases-Lives : (duration : ℕ) → Lives (renew_active_leases duration)
unfolding renew_active_leases
renew_active_leases-Lives duration = record {
  run = λ w. (renew_all-Lives duration w.env.active).run w;
}

module _ (bull : Bullmq) (scheduler : SchedulerConfig) (config : ExecutionConfig)
    (handle : Job → ℕ → Handling) where
  pub data Step (w : World) : World → Type 0 where
    creates :
        (uuid : Text) (input : CreateJobInput) (key : Option Text)
        → Step w (create_job_controller uuid input key w).1
    cancels : (id : ℕ) → Step w (cancel_job_service id w).1
    processes :
        (worker_id : ℕ) (entry : QueueEntry)
        → Step w (process_entry config handle worker_id entry w).1
    renews : Step w (renew_active_leases config.lease_duration w).1
    ticks : (locks : Locks) → Step w (run_scheduler_tick bull scheduler locks w).1
    surroundings : (env : Env) → Step w (record w { env = env })
    dies : (env : Env) → Step w (record { db = durable w; saved = none; env = env })

  pub data Reach (w : World) : World → Type 0 where
    start : Reach w w
    after : {u v : World} → Reach w u → Step u v → Reach w v

  module _ (others : (j : Job) (id : ℕ) (d : Db) → DbStep d ((handle j id).others d)) where
    process_entry-Lives :
        (worker_id : ℕ) (entry : QueueEntry) → Lives (process_entry config handle worker_id entry)
    unfolding process_entry
    process_entry-Lives worker_id entry = dispatch-Lives entry.name entry.job_id entry.execution_id
      where
        dispatch-Lives :
            (n : QueueJobName) (j e : Option ℕ) → Lives (dispatch config handle worker_id n j e)
        dispatch-Lives execute_job j e =
            search (lives, create_new_execution-Lives config handle others) depth 10
        dispatch-Lives execute_execution j e =
            search (lives, execute_existing_execution-Lives config handle others) depth 10
        dispatch-Lives (other_name _) j e = search lives

    Step-Evolves : {u v : World} → Step u v → Evolves DbStep u v
    Step-Evolves {u} (creates uuid input key) = (create_job_controller-Lives uuid input key).run u
    Step-Evolves {u} (cancels id) = (cancel_job_service-Lives id).run u
    Step-Evolves {u} (processes worker_id entry) = (process_entry-Lives worker_id entry).run u
    Step-Evolves {u} renews = (renew_active_leases-Lives config.lease_duration).run u
    Step-Evolves {u} (ticks locks) = (run_scheduler_tick-Lives bull scheduler locks).run u
    Step-Evolves {u} (surroundings env) = λ h. (DbStep-refl (durable u), h)
    Step-Evolves {u} (dies env) = λ h. (DbStep-refl (durable u), DbStep-refl (durable u))

    Reach-Evolves : {u v : World} → Reach u v → Evolves DbStep u v
    Reach-Evolves {u} start = Evolves-here DbStep DbStep-refl DbStep-trans u
    Reach-Evolves {u} (after {u = t} {v} r s) =
        Evolves-then DbStep DbStep-refl DbStep-trans u t v (Reach-Evolves r) (Step-Evolves s)

    Reach-DbStep : {u v : World} → u.saved ≡ none → Reach u v → DbStep u.db (durable v)
    Reach-DbStep {u} {v} quiet r =
        quiet-Evolves DbStep DbStep-refl DbStep-trans u v quiet (Reach-Evolves r)

    -- After any history that begins in a well-formed database with no transaction open, the ids of jobs
    -- and of executions still name one row each, and no job has two executions of one attempt.
    pub Reach-IsWellFormed :
        {u v : World} → u.saved ≡ none → IsWellFormed u.db → Reach u v → IsWellFormed (durable v)
    Reach-IsWellFormed quiet wf r = (Reach-DbStep quiet r wf).0

    job_row :
        (id : ℕ) (c d : Db) (j : Job)
        → DbMoves c d
        → get_job_by_id id c ≡ some j
        → (j' : Job) × (get_job_by_id id d ≡ some j') × JobMoves j j'
    unfolding get_job_by_id
    job_row id c d j moves found =
        Rows-select_first JobMoves (λ x. x.id == id) (λ x y m. rw (m.same_id)) c.jobs d.jobs j
          moves.jobs found

    -- A job that is there stays, with its type, its time and its number of attempts; and its status is
    -- one that the earlier status leads to. So a COMPLETED, FAILED or CANCELLED job keeps its status, a
    -- job that has been claimed is never cancelled, and none becomes SCHEDULED again.
    pub Reach-JobMoves :
        {u v : World} (id : ℕ) {j : Job}
        → u.saved ≡ none
        → IsWellFormed u.db
        → Reach u v
        → get_job_by_id id u.db ≡ some j
        → (j' : Job) × (get_job_by_id id (durable v) ≡ some j') × JobMoves j j'
    Reach-JobMoves {u} {v} id {j} quiet wf r found =
        job_row id u.db (durable v) j (Reach-DbStep quiet r wf).1 found

    execution_row :
        (id : ℕ) (c d : Db) (e : Execution)
        → DbMoves c d
        → get_execution_by_id id c ≡ some e
        → (e' : Execution) × (get_execution_by_id id d ≡ some e') × ExecutionMoves e e'
    unfolding get_execution_by_id
    execution_row id c d e moves found =
        Rows-select_first ExecutionMoves (has_id id) (λ x y m. rw (m.same_id)) c.executions
          d.executions e moves.executions found

    -- An execution stays the same attempt of the same job, one that is QUEUED never becomes SCHEDULED
    -- again, and one that was started or closed never waits again.
    pub Reach-ExecutionMoves :
        {u v : World} (id : ℕ) {e : Execution}
        → u.saved ≡ none
        → IsWellFormed u.db
        → Reach u v
        → get_execution_by_id id u.db ≡ some e
        → (e' : Execution) × (get_execution_by_id id (durable v) ≡ some e') × ExecutionMoves e e'
    Reach-ExecutionMoves {u} {v} id {e} quiet wf r found =
        execution_row id u.db (durable v) e (Reach-DbStep quiet r wf).1 found

    record_row :
        (id : ℕ) (c d : Db) (x : IdempotencyRecord)
        → DbMoves c d
        → get_by_job_id id c ≡ some x
        → (y : IdempotencyRecord) × (get_by_job_id id d ≡ some y) × RecordMoves x y
    unfolding get_by_job_id
    record_row id c d x moves found =
        Rows-select_first RecordMoves (λ r. r.job_id == id) (λ x y m. rw (m.same_job))
          c.idempotency_records d.idempotency_records x moves.records found

    -- The idempotency record of a job stays, with its key, and one that is COMPLETED stays so: no later
    -- attempt can claim it.
    pub Reach-RecordMoves :
        {u v : World} (job_id : ℕ) {x : IdempotencyRecord}
        → u.saved ≡ none
        → IsWellFormed u.db
        → Reach u v
        → get_by_job_id job_id u.db ≡ some x
        → (y : IdempotencyRecord) × (get_by_job_id job_id (durable v) ≡ some y) × RecordMoves x y
    Reach-RecordMoves {u} {v} id {x} quiet wf r found =
        record_row id u.db (durable v) x (Reach-DbStep quiet r wf).1 found
