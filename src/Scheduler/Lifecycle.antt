-- ===== src/Scheduler/Lifecycle.antt =====
-- What a tick of the scheduler (src/modules/scheduler) does to the rows of the tables.
use zolt.Prelude.{
  none, some, chosen-AllRows, AllRows-map, map, Rows-update_all, Option, Distinct-update, refl, [],
  Ascends-update, ◌∷◌, List, ℕ, ◌≡◌, Bool, true, false, arith,
}
use zolt.Scheduler.Repository.{
  queue_job, queue_execution, due_job, due_execution, process_job_transaction,
  process_execution_transactions, create_job_outboxes, create_execution_outboxes, claim_jobs,
  claim_executions,
}
use zolt.Scheduler.Service.{
  update_queue_metrics, Locks, SchedulerConfig, throttled_reconciliation, run_scheduler_tick,
  process_pending_outbox, process_expired_leases, process_due_jobs, process_due_executions,
  reset_all_stale, recover_all, process_stale_idempotency, logged,
}
use zolt.Schema.{JobStatus, Lease, IdempotencyRecord, Job, Execution}
use zolt.Lifecycle.Rules.{
  finally-Lives, bind-Lives, seq-Lives, query-Lives, try_catch-Lives, pure-Lives, lives, Lives,
}
use zolt.Monad.{World, QueueId, QueueEntry, M}
use zolt.Monad.Evolves.{Evolves, lands, Follows}
use zolt.Lifecycle.{
  status-JobMoves, DbStep-refl, JobMoves-refl, JobMoves, ExecutionMoves-refl, same_attempt_row,
  job_key, execution_key, jobs-DbStep, executions-DbStep, job_reaches, ExecutionMoves, DbStep,
}
use zolt.Idempotency.{get_stale_processing_records}
use zolt.Executions.Lifecycle.{recover_expired_execution-Lives}
use zolt.Lifecycle.Repositories.{
  delete_published_outbox_before-Lives, reset_outbox_to_pending-Lives, claim_pending_outbox-Lives,
  reset_stale_processing_record-Lives, create_job_outbox-Lives, create_execution_outbox-Lives,
}
use zolt.Queue.{
  get_queue_job_counts, rejected, duplicate, added, removal, bulk_result, answer, job_bulk,
  execution_bulk, BulkJob, remove_terminal_queue_entry, remove_entry, is_queue_entry_runnable,
  get_entry_state, get_entry, enqueue_jobs, enqueue_executions, add_entries, AddResult, Bullmq,
}
use zolt.Leases.{find_expired_leases}
use zolt.Reconciliation.{process_queue_reconciliation, missing}

job_due_reaches :
    (locked : ℕ → Bool) (now : ℕ) (j : Job)
    → due_job locked now j ≡ true
    → job_reaches j.status JobStatus.queued ≡ true
job_due_reaches locked now j h = ground arith

-- The claimed jobs were SCHEDULED: the ids of the inner SELECT name no other rows.
claim_jobs-Follows : (locked : ℕ → Bool) (batch : ℕ) → Follows DbStep (claim_jobs locked batch)
unfolding claim_jobs
claim_jobs-Follows locked batch now d = lands (
    jobs-DbStep d d.next_id _ (omega arith) (λ wf. (
      Ascends-update job_key _ (queue_job now) (λ j. refl) 0 d.next_id d.jobs wf.job_ids,
      Rows-update_all JobMoves _ (queue_job now) JobMoves-refl d.jobs (
          AllRows-map d.jobs
            (λ j due h.
              status-JobMoves j JobStatus.queued now (job_due_reaches locked now j (due h)))
            (chosen-AllRows job_key (due_job locked now) 0 d.next_id d.jobs batch wf.job_ids)),
    )))

execution_due_moves :
    (locked : ℕ → Bool) (now : ℕ) (e : Execution)
    → due_execution locked now e ≡ true
    → ExecutionMoves e (queue_execution now e)
execution_due_moves locked now e h = record {
  same_id = refl;
  same_job = refl;
  same_attempt = refl;
  forward = ground arith;
}

claim_executions-Follows :
    (locked : ℕ → Bool) (batch : ℕ) → Follows DbStep (claim_executions locked batch)
unfolding claim_executions
claim_executions-Follows locked batch now d = lands (
    executions-DbStep d d.next_id _ (omega arith) (λ wf. (
      Ascends-update execution_key _ (queue_execution now) (λ e. refl) 0 d.next_id d.executions
          wf.execution_ids,
      Distinct-update same_attempt_row _ (queue_execution now) (λ x y. refl) (λ x y. refl)
          d.executions wf.attempts,
      Rows-update_all ExecutionMoves _ (queue_execution now) ExecutionMoves-refl d.executions (
          AllRows-map d.executions (λ e due h. execution_due_moves locked now e (due h))
            (chosen-AllRows execution_key (due_execution locked now) 0 d.next_id d.executions batch
              wf.execution_ids)),
    )))

create_job_outboxes-Lives : (js : List Job) → Lives (create_job_outboxes js)
unfolding create_job_outboxes
create_job_outboxes-Lives [] = pure-Lives tt
create_job_outboxes-Lives (j ∷ js) =
    seq-Lives (create_job_outbox-Lives j.id) (create_job_outboxes-Lives js)

create_execution_outboxes-Lives : (es : List Execution) → Lives (create_execution_outboxes es)
unfolding create_execution_outboxes
create_execution_outboxes-Lives [] = pure-Lives tt
create_execution_outboxes-Lives (e ∷ es) =
    seq-Lives (create_execution_outbox-Lives e.id) (create_execution_outboxes-Lives es)

pub process_job_transaction-Lives :
    (locked : ℕ → Bool) (batch : ℕ) → Lives (process_job_transaction locked batch)
unfolding process_job_transaction
process_job_transaction-Lives locked batch =
    search (lives, query-Lives, claim_jobs-Follows, create_job_outboxes-Lives) depth 16

pub process_execution_transactions-Lives :
    (locked : ℕ → Bool) (batch : ℕ) → Lives (process_execution_transactions locked batch)
unfolding process_execution_transactions
process_execution_transactions-Lives locked batch =
    search (lives, query-Lives, claim_executions-Follows, create_execution_outboxes-Lives) depth 16

logged-Lives : {A : Type 0} (a : A) {m : M A} → Lives m → Lives (logged a m)
unfolding logged
logged-Lives a h = try_catch-Lives h (λ _. pure-Lives a)

reset_all_stale-Lives :
    (timeout : ℕ) (rs : List IdempotencyRecord) → Lives (reset_all_stale timeout rs)
unfolding reset_all_stale
reset_all_stale-Lives timeout [] = pure-Lives tt
reset_all_stale-Lives timeout (r ∷ rs) =
    seq-Lives (reset_stale_processing_record-Lives r.id timeout) (reset_all_stale-Lives timeout rs)

recover_all-Lives : (ls : List Lease) → Lives (recover_all ls)
unfolding recover_all
recover_all-Lives [] = pure-Lives tt
recover_all-Lives (l ∷ ls) =
    seq-Lives
      (logged-Lives tt (seq-Lives (recover_expired_execution-Lives l.execution_id) (pure-Lives tt)))
      (recover_all-Lives ls)

process_stale_idempotency-Lives : (timeout : ℕ) → Lives (process_stale_idempotency timeout)
unfolding process_stale_idempotency get_stale_processing_records
process_stale_idempotency-Lives timeout =
    search (lives, logged-Lives, reset_all_stale-Lives) depth 10

process_expired_leases-Lives : Lives process_expired_leases
unfolding process_expired_leases find_expired_leases
process_expired_leases-Lives = search (lives, logged-Lives, recover_all-Lives) depth 10

process_due_jobs-Lives : (locked : ℕ → Bool) (batch : ℕ) → Lives (process_due_jobs locked batch)
unfolding process_due_jobs
process_due_jobs-Lives locked batch =
    search (lives, logged-Lives, process_job_transaction-Lives) depth 8

process_due_executions-Lives :
    (locked : ℕ → Bool) (batch : ℕ) → Lives (process_due_executions locked batch)
unfolding process_due_executions
process_due_executions-Lives locked batch =
    search (lives, logged-Lives, process_execution_transactions-Lives) depth 8

module _ (bull : Bullmq) where
  bulk_result-Evolves : (r : AddResult) (w : World) → Evolves DbStep w (bulk_result r w).1
  bulk_result-Evolves (added q) w h = (DbStep-refl _, h)
  bulk_result-Evolves (duplicate q) w h = (DbStep-refl _, h)
  bulk_result-Evolves (rejected q) w h = (DbStep-refl _, h)

  add_entries-Lives : (bs : List BulkJob) → Lives (add_entries bull bs)
  unfolding add_entries
  add_entries-Lives bs = record { run = λ w. bulk_result-Evolves (bull.add_bulk bs w.env.queue) w }

  pub enqueue_jobs-Lives : (ids : List ℕ) → Lives (enqueue_jobs bull ids)
  unfolding enqueue_jobs
  enqueue_jobs-Lives [] = pure-Lives tt
  enqueue_jobs-Lives (id ∷ ids) = add_entries-Lives (map job_bulk (id ∷ ids))

  pub enqueue_executions-Lives : (ids : List ℕ) → Lives (enqueue_executions bull ids)
  unfolding enqueue_executions
  enqueue_executions-Lives [] = pure-Lives tt
  enqueue_executions-Lives (id ∷ ids) = add_entries-Lives (map execution_bulk (id ∷ ids))

  process_pending_outbox-Lives :
      (locked : ℕ → Bool) (batch retention : ℕ)
      → Lives (process_pending_outbox bull locked batch retention)
  unfolding process_pending_outbox
  process_pending_outbox-Lives locked batch retention =
      search
        (
          lives, logged-Lives, claim_pending_outbox-Lives, enqueue_jobs-Lives,
          enqueue_executions-Lives, reset_outbox_to_pending-Lives,
          delete_published_outbox_before-Lives,
        )
        depth 24

  answer-Evolves : {A : Type 0} (o : Option A) (w : World) → Evolves DbStep w (answer o w).1
  answer-Evolves none w h = (DbStep-refl _, h)
  answer-Evolves (some a) w h = (DbStep-refl _, h)

  removal-Evolves : (o : Option (List QueueEntry)) (w : World) → Evolves DbStep w (removal o w).1
  removal-Evolves none w h = (DbStep-refl _, h)
  removal-Evolves (some q) w h = (DbStep-refl _, h)

  get_entry-Lives : (id : QueueId) → Lives (get_entry bull id)
  unfolding get_entry
  get_entry-Lives id = record { run = λ w. answer-Evolves (bull.get_job id w.env.queue) w }

  get_entry_state-Lives : (id : QueueId) → Lives (get_entry_state bull id)
  unfolding get_entry_state
  get_entry_state-Lives id = record { run = λ w. answer-Evolves (bull.get_state id w.env.queue) w }

  get_queue_job_counts-Lives : Lives (get_queue_job_counts bull)
  unfolding get_queue_job_counts
  get_queue_job_counts-Lives = record {
    run = λ w. answer-Evolves (bull.get_job_counts _ w.env.queue) w;
  }

  update_queue_metrics-Lives : Lives (update_queue_metrics bull)
  unfolding update_queue_metrics
  update_queue_metrics-Lives = search (lives, logged-Lives, get_queue_job_counts-Lives) depth 8

  remove_entry-Lives : (id : QueueId) → Lives (remove_entry bull id)
  unfolding remove_entry
  remove_entry-Lives id = record { run = λ w. removal-Evolves (bull.remove id w.env.queue) w }

  is_queue_entry_runnable-Lives :
      (id : QueueId) (found : Bool) → Lives (is_queue_entry_runnable bull id found)
  unfolding is_queue_entry_runnable
  is_queue_entry_runnable-Lives id false = pure-Lives false
  is_queue_entry_runnable-Lives id true = search (lives, get_entry_state-Lives)

  remove_terminal_queue_entry-Lives :
      (id : QueueId) (found : Bool) → Lives (remove_terminal_queue_entry bull id found)
  unfolding remove_terminal_queue_entry
  remove_terminal_queue_entry-Lives id false = pure-Lives false
  remove_terminal_queue_entry-Lives id true =
      search (lives, get_entry_state-Lives, remove_entry-Lives) depth 8

  missing-Lives : (queue_id : ℕ → QueueId) (ids : List ℕ) → Lives (missing bull queue_id ids)
  unfolding missing
  missing-Lives queue_id [] = pure-Lives []
  missing-Lives queue_id (id ∷ ids) =
      bind-Lives
        (search
          (lives, get_entry-Lives, is_queue_entry_runnable-Lives, remove_terminal_queue_entry-Lives)
          depth 10)
        (λ gone. bind-Lives (missing-Lives queue_id ids) (λ rest. pure-Lives _))

  pub process_queue_reconciliation-Lives :
      (batch min_age : ℕ) → Lives (process_queue_reconciliation bull batch min_age)
  unfolding process_queue_reconciliation
  process_queue_reconciliation-Lives batch min_age =
      search (lives, missing-Lives, enqueue_jobs-Lives, enqueue_executions-Lives) depth 16

  throttled_reconciliation-Lives :
      (config : SchedulerConfig) → Lives (throttled_reconciliation bull config)
  unfolding throttled_reconciliation
  throttled_reconciliation-Lives config =
      search (lives, process_queue_reconciliation-Lives) depth 10

  pub run_scheduler_tick-Lives :
      (config : SchedulerConfig) (locks : Locks) → Lives (run_scheduler_tick bull config locks)
  unfolding run_scheduler_tick
  run_scheduler_tick-Lives config locks =
      search
        (
          lives, finally-Lives, process_due_jobs-Lives, process_due_executions-Lives,
          process_pending_outbox-Lives, process_stale_idempotency-Lives,
          process_expired_leases-Lives, update_queue_metrics-Lives, throttled_reconciliation-Lives,
        )
        depth 16
