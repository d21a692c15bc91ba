-- ===== src/Queue.antt =====
-- src/infrastructure/queue/queue.ts: the entries of the BullMQ queue `jobs`. BullMQ itself is not
-- under src/: what its calls do to the entries is a parameter.
pub mod Ids
use zolt.Prelude.{ℕ, Bool, true, false, Option, none, some, List, [], ◌∷◌, map}
use zolt.Monad.{
  World, M, Result, ok, err, queue_error, pure, ◌>>=◌, branch, QueueId, job_queue_id,
  execution_queue_id, QueueState, waiting, active, delayed, prioritized, waiting_children,
  completed, failed, unknown, QueueJobName, execute_job, execute_execution, QueueEntry,
}

pub record BulkJob : Type 0 where
  pub queue_id : QueueId
  pub name : QueueJobName
  pub job_id : Option ℕ
  pub execution_id : Option ℕ

-- How addBulk settles: `duplicate` is an error whose message says `already exists` or `duplicate`.
pub data AddResult : Type 0 where
  added duplicate rejected : List QueueEntry → AddResult

-- `none`: the call rejects. `get_job` says whether the id is held, `get_state` reads its state.
pub record Bullmq : Type 0 where
  pub add_bulk : List BulkJob → List QueueEntry → AddResult
  pub get_job : QueueId → List QueueEntry → Option Bool
  pub get_state : QueueId → List QueueEntry → Option QueueState
  pub remove : QueueId → List QueueEntry → Option (List QueueEntry)
  pub get_job_counts : List QueueState → List QueueEntry → Option (QueueState → Option ℕ)

abbrev pub job_bulk : ℕ → BulkJob
job_bulk id = record {
  queue_id = job_queue_id id;
  name = execute_job;
  job_id = some id;
  execution_id = none;
}

abbrev pub execution_bulk : ℕ → BulkJob
execution_bulk id = record {
  queue_id = execution_queue_id id;
  name = execute_execution;
  job_id = none;
  execution_id = some id;
}

-- The queue entry was completed or has failed, and is only retained.
abbrev pub is_terminal_state : QueueState → Bool
is_terminal_state completed = true
is_terminal_state failed = true
is_terminal_state waiting = false
is_terminal_state active = false
is_terminal_state delayed = false
is_terminal_state prioritized = false
is_terminal_state waiting_children = false
is_terminal_state unknown = false

unfoldable pub is_runnable_state : QueueState → Bool
is_runnable_state waiting = true
is_runnable_state active = true
is_runnable_state delayed = true
is_runnable_state prioritized = true
is_runnable_state waiting_children = true
is_runnable_state completed = false
is_runnable_state failed = false
is_runnable_state unknown = false

abbrev pub set_queue : List QueueEntry → World → World
set_queue q w = record w { env = record (w.env) { queue = q } }

abbrev pub bulk_result : AddResult → World → Result (Unit {0}) × World
bulk_result (added q) w = (ok tt, set_queue q w)
bulk_result (duplicate q) w = (ok tt, set_queue q w)
bulk_result (rejected q) w = (err queue_error, set_queue q w)

abbrev pub answer : {A : Type 0} → Option A → World → Result A × World
answer none w = (err queue_error, w)
answer (some a) w = (ok a, w)

abbrev pub removal : Option (List QueueEntry) → World → Result Bool × World
removal none w = (ok false, w)
removal (some q) w = (ok true, set_queue q w)

module _ (bull : Bullmq) where
  -- A duplicate error is swallowed.
  unfoldable pub add_entries : List BulkJob → M (Unit {0})
  add_entries entries w = bulk_result (bull.add_bulk entries w.env.queue) w

  unfoldable pub enqueue_jobs : List ℕ → M (Unit {0})
  unfolding add_entries
  enqueue_jobs [] = pure tt
  enqueue_jobs (id ∷ ids) = add_entries (map job_bulk (id ∷ ids))

  unfoldable pub enqueue_executions : List ℕ → M (Unit {0})
  unfolding add_entries
  enqueue_executions [] = pure tt
  enqueue_executions (id ∷ ids) = add_entries (map execution_bulk (id ∷ ids))

  unfoldable pub get_queue_job_counts : M (QueueState → Option ℕ)
  get_queue_job_counts w =
      answer (bull.get_job_counts (waiting ∷ active ∷ delayed ∷ failed ∷ []) w.env.queue) w

  -- getQueueJob and getQueueExecution, by the queue id
  unfoldable pub get_entry : QueueId → M Bool
  get_entry id w = answer (bull.get_job id w.env.queue) w

  unfoldable pub get_entry_state : QueueId → M QueueState
  get_entry_state id w = answer (bull.get_state id w.env.queue) w

  unfoldable pub is_queue_entry_runnable : QueueId → Bool → M Bool
  unfolding get_entry_state is_runnable_state
  is_queue_entry_runnable id false = pure false
  is_queue_entry_runnable id true = do state ← get_entry_state id; pure (is_runnable_state state)

  -- entry.remove(), whose failure is only logged
  unfoldable pub remove_entry : QueueId → M Bool
  remove_entry id w = removal (bull.remove id w.env.queue) w

  unfoldable pub remove_terminal_queue_entry : QueueId → Bool → M Bool
  unfolding get_entry_state remove_entry
  remove_terminal_queue_entry id false = pure false
  remove_terminal_queue_entry id true = do
    state ← get_entry_state id
    branch (is_terminal_state state) (remove_entry id) (pure false)
