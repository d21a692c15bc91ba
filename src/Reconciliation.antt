-- ===== src/Reconciliation.antt =====
-- src/modules/queue-reconciliation: QUEUED jobs and executions that BullMQ does not hold are enqueued
-- again.
use zolt.Prelude.{
  ℕ, ◌+◌, Bool, true, false, ◌&&◌, List, [], ◌∷◌, map, ltb, leb, length, take, select, sort_by,
}
use zolt.Schema.{Db, Job, Execution, job_queued, execution_queued}
use zolt.Monad.{
  M, pure, try_catch, ◌>>=◌, ◌>>◌, branch, read, QueueId, job_queue_id, execution_queue_id,
}
use zolt.Queue.{
  Bullmq, get_entry, is_queue_entry_runnable, remove_terminal_queue_entry, enqueue_jobs,
  enqueue_executions,
}

abbrev pub old_queued_job : ℕ → ℕ → Job → Bool
old_queued_job min_age now j = job_queued j.status && ltb (j.updated_at + min_age) now

unfoldable pub reconciliation_candidates_for_jobs : ℕ → ℕ → ℕ → Db → List Job
reconciliation_candidates_for_jobs batch min_age now db =
    take batch
      (sort_by (λ a b. leb a.updated_at b.updated_at) (select (old_queued_job min_age now) db.jobs))

abbrev pub old_queued_execution : ℕ → ℕ → Execution → Bool
old_queued_execution min_age now e = execution_queued e.status && ltb (e.updated_at + min_age) now

unfoldable pub reconciliation_candidates_for_executions : ℕ → ℕ → ℕ → Db → List Execution
reconciliation_candidates_for_executions batch min_age now db = take batch (
    sort_by (λ a b. leb a.updated_at b.updated_at)
      (select (old_queued_execution min_age now) db.executions))

abbrev and_these : ℕ → Bool → List ℕ → List ℕ
and_these id true ids = id ∷ ids
and_these id false ids = ids

module _ (bull : Bullmq) where
  -- The body of one turn: whether the suspect is missing from the queue. A lookup that fails is
  -- logged, and the suspect is left for the next pass.
  unfoldable pub is_missing : QueueId → M Bool
  is_missing id =
      try_catch
        (do
          entry ← get_entry bull id
          runnable ← is_queue_entry_runnable bull id entry
          branch runnable (pure false) (remove_terminal_queue_entry bull id entry >> pure true))
        (λ _. pure false)

  unfoldable pub missing : (ℕ → QueueId) → List ℕ → M (List ℕ)
  unfolding is_missing
  missing queue_id [] = pure []
  missing queue_id (id ∷ ids) = do
    gone ← is_missing (queue_id id)
    rest ← missing queue_id ids
    pure (and_these id gone rest)

  unfoldable pub requeue : M (Unit {0}) → M (Unit {0})
  requeue m = try_catch m (λ _. pure tt)

  unfoldable pub process_queue_reconciliation : ℕ → ℕ → M ℕ
  unfolding missing requeue
  process_queue_reconciliation batch min_age =
      try_catch
        (do
          jobs ← read (reconciliation_candidates_for_jobs batch min_age)
          executions ← read (reconciliation_candidates_for_executions batch min_age)
          missing_jobs ← missing job_queue_id (map (λ j. j.id) jobs)
          missing_executions ← missing execution_queue_id (map (λ e. e.id) executions)
          requeue (enqueue_jobs bull missing_jobs)
          requeue (enqueue_executions bull missing_executions)
          pure (length missing_jobs + length missing_executions))
        (λ _. pure 0)
