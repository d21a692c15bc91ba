-- ===== src/Balance/Scheduler.antt =====
-- A tick of the scheduler (src/modules/scheduler).
use zolt.Prelude.{[], ◌∙◌, map, ◌∷◌, List, ℕ, Bool, true, false, Option, none, some, refl}
use zolt.Balance.Rules.{
  set_env-Balanced, read-Balanced, seq-Balanced, bind-Balanced, try_catch-Balanced, query-Balanced,
  Balanced, Keeps, balance, pure-Balanced, Tidily,
}
use zolt.Balance.Effects.{effects}
use zolt.Idempotency.{get_stale_processing_records, reset_stale_processing_record}
use zolt.Monad.{QueueState, set_env, Result, QueueId, QueueEntry, World, M, finally, Env}
use zolt.Outbox.{
  pending_outbox_stats, reset_outbox_to_pending, delete_published_outbox_before, create_job_outbox,
  create_execution_outbox, claim_pending_outbox, OutboxStats,
}
use zolt.Queue.{
  get_queue_job_counts, rejected, job_bulk, execution_bulk, duplicate, removal, added, bulk_result,
  answer, BulkJob, remove_terminal_queue_entry, remove_entry, is_queue_entry_runnable,
  get_entry_state, get_entry, enqueue_jobs, enqueue_executions, add_entries, AddResult, Bullmq,
}
use zolt.Scheduler.Repository.{
  process_job_transaction, process_execution_transactions, create_job_outboxes,
  create_execution_outboxes,
}
use zolt.Scheduler.Service.{
  set_queue_jobs, update_queue_metrics, update_outbox_metrics, Locks, SchedulerConfig,
  throttled_reconciliation, set_gauges, run_scheduler_tick, process_pending_outbox, reset_all_stale,
  recover_all, process_stale_idempotency, process_expired_leases, process_due_jobs,
  process_due_executions, logged, end_tick,
}
use zolt.Leases.{find_expired_leases}
use zolt.Reconciliation.{process_queue_reconciliation, missing}
use zolt.Schema.{Lease, Job, IdempotencyRecord, Execution}
use zolt.Balance.Executions.{recover_expired_execution-Balanced}

create_job_outbox-Balanced : (id : ℕ) → Balanced (create_job_outbox id)
unfolding create_job_outbox
create_job_outbox-Balanced id = query-Balanced _

create_execution_outbox-Balanced : (id : ℕ) → Balanced (create_execution_outbox id)
unfolding create_execution_outbox
create_execution_outbox-Balanced id = query-Balanced _

reset_stale_processing_record-Balanced :
    (id timeout : ℕ) → Balanced (reset_stale_processing_record id timeout)
unfolding reset_stale_processing_record
reset_stale_processing_record-Balanced id timeout = query-Balanced _

claim_pending_outbox-Balanced :
    (locked : ℕ → Bool) (limit : ℕ) → Balanced (claim_pending_outbox locked limit)
unfolding claim_pending_outbox
claim_pending_outbox-Balanced locked limit = query-Balanced _

delete_published_outbox_before-Balanced :
    (retention : ℕ) → Balanced (delete_published_outbox_before retention)
unfolding delete_published_outbox_before
delete_published_outbox_before-Balanced retention = query-Balanced _

reset_outbox_to_pending-Balanced : (ids : List ℕ) → Balanced (reset_outbox_to_pending ids)
unfolding reset_outbox_to_pending
reset_outbox_to_pending-Balanced ids = search balance depth 12

tick_started-Keeps : Keeps (λ e. record e { tick_in_flight = true })
tick_started-Keeps = record { keeps = λ e. record { same_connections = refl; counts = λ c. c } }

reconciled-Keeps : (now : ℕ) → Keeps (λ e. record e { last_reconciliation_at = now })
reconciled-Keeps now = record { keeps = λ e. record { same_connections = refl; counts = λ c. c } }

set_gauges-Keeps : (s : OutboxStats) → Keeps (set_gauges s)
set_gauges-Keeps s = record { keeps = λ e. record { same_connections = refl; counts = λ c. c } }

set_queue_jobs-Keeps : (counts : QueueState → Option ℕ) → Keeps (set_queue_jobs counts)
set_queue_jobs-Keeps counts = record {
  keeps = λ e. record { same_connections = refl; counts = λ c. c };
}

end_tick-Keeps : Keeps end_tick
end_tick-Keeps = record { keeps = λ e. record { same_connections = refl; counts = λ c. c } }

finally_case :
    {A : Type 0} (f : Env → Env) (u : World) (r : Result A × World)
    → Keeps f
    → Tidily u r.1
    → Tidily u (record (r.1) { env = f (r.1).env })
finally_case f u (r, w) h g = record {
  same_connections = (h.keeps w.env).same_connections ∙ g.same_connections;
  counts = λ c. (h.keeps w.env).counts (g.counts c);
}

finally-Balanced :
    {A : Type 0} {m : M A} (f : Env → Env) → Keeps f → Balanced m → Balanced (finally m f)
unfolding finally
finally-Balanced {m} f h g = record { run = λ w. finally_case f w (m w) h (g.run w) }

ended_tick-Balanced : {A : Type 0} {m : M A} → Balanced m → Balanced (finally m end_tick)
ended_tick-Balanced h = finally-Balanced end_tick end_tick-Keeps h

update_outbox_metrics-Balanced : Balanced update_outbox_metrics
unfolding update_outbox_metrics logged
update_outbox_metrics-Balanced =
    try_catch-Balanced
      (bind-Balanced (read-Balanced (λ now db. pending_outbox_stats db))
        (λ s. set_env-Balanced (set_gauges s) (set_gauges-Keeps s)))
      (λ _. pure-Balanced tt)

start_tick-Balanced : Balanced (set_env (λ e. record e { tick_in_flight = true }))
start_tick-Balanced = set_env-Balanced _ tick_started-Keeps

ruleset tick =
    (balance, effects, tick_started-Keeps, reconciled-Keeps, set_gauges-Keeps, end_tick-Keeps)

create_job_outboxes-Balanced : (js : List Job) → Balanced (create_job_outboxes js)
unfolding create_job_outboxes
create_job_outboxes-Balanced [] = pure-Balanced tt
create_job_outboxes-Balanced (j ∷ js) =
    seq-Balanced (create_job_outbox-Balanced j.id) (create_job_outboxes-Balanced js)

create_execution_outboxes-Balanced : (es : List Execution) → Balanced (create_execution_outboxes es)
unfolding create_execution_outboxes
create_execution_outboxes-Balanced [] = pure-Balanced tt
create_execution_outboxes-Balanced (e ∷ es) =
    seq-Balanced (create_execution_outbox-Balanced e.id) (create_execution_outboxes-Balanced es)

pub process_job_transaction-Balanced :
    (locked : ℕ → Bool) (batch : ℕ) → Balanced (process_job_transaction locked batch)
unfolding process_job_transaction
process_job_transaction-Balanced locked batch = search (tick, create_job_outboxes-Balanced) depth 16

pub process_execution_transactions-Balanced :
    (locked : ℕ → Bool) (batch : ℕ) → Balanced (process_execution_transactions locked batch)
unfolding process_execution_transactions
process_execution_transactions-Balanced locked batch =
    search (tick, create_execution_outboxes-Balanced) depth 16

logged-Balanced : {A : Type 0} (a : A) {m : M A} → Balanced m → Balanced (logged a m)
unfolding logged
logged-Balanced a h = try_catch-Balanced h (λ _. pure-Balanced a)

reset_all_stale-Balanced :
    (timeout : ℕ) (rs : List IdempotencyRecord) → Balanced (reset_all_stale timeout rs)
unfolding reset_all_stale
reset_all_stale-Balanced timeout [] = pure-Balanced tt
reset_all_stale-Balanced timeout (r ∷ rs) =
    seq-Balanced (reset_stale_processing_record-Balanced r.id timeout)
      (reset_all_stale-Balanced timeout rs)

recover_all-Balanced : (ls : List Lease) → Balanced (recover_all ls)
unfolding recover_all
recover_all-Balanced [] = pure-Balanced tt
recover_all-Balanced (l ∷ ls) =
    seq-Balanced
      (logged-Balanced tt
        (seq-Balanced (recover_expired_execution-Balanced l.execution_id) (pure-Balanced tt)))
      (recover_all-Balanced ls)

process_stale_idempotency-Balanced : (timeout : ℕ) → Balanced (process_stale_idempotency timeout)
unfolding process_stale_idempotency get_stale_processing_records
process_stale_idempotency-Balanced timeout =
    search (tick, logged-Balanced, reset_all_stale-Balanced) depth 10

process_expired_leases-Balanced : Balanced process_expired_leases
unfolding process_expired_leases find_expired_leases
process_expired_leases-Balanced = search (tick, logged-Balanced, recover_all-Balanced) depth 10

process_due_jobs-Balanced :
    (locked : ℕ → Bool) (batch : ℕ) → Balanced (process_due_jobs locked batch)
unfolding process_due_jobs
process_due_jobs-Balanced locked batch =
    search (tick, logged-Balanced, process_job_transaction-Balanced) depth 8

process_due_executions-Balanced :
    (locked : ℕ → Bool) (batch : ℕ) → Balanced (process_due_executions locked batch)
unfolding process_due_executions
process_due_executions-Balanced locked batch =
    search (tick, logged-Balanced, process_execution_transactions-Balanced) depth 8

module _ (bull : Bullmq) where
  bulk_result-Tidily : (r : AddResult) (w : World) → Tidily w (bulk_result r w).1
  bulk_result-Tidily (added q) w = record { same_connections = refl; counts = λ c. c }
  bulk_result-Tidily (duplicate q) w = record { same_connections = refl; counts = λ c. c }
  bulk_result-Tidily (rejected q) w = record { same_connections = refl; counts = λ c. c }

  add_entries-Balanced : (bs : List BulkJob) → Balanced (add_entries bull bs)
  unfolding add_entries
  add_entries-Balanced bs = record {
    run = λ w. bulk_result-Tidily (bull.add_bulk bs w.env.queue) w;
  }

  pub enqueue_jobs-Balanced : (ids : List ℕ) → Balanced (enqueue_jobs bull ids)
  unfolding enqueue_jobs
  enqueue_jobs-Balanced [] = pure-Balanced tt
  enqueue_jobs-Balanced (id ∷ ids) = add_entries-Balanced (map job_bulk (id ∷ ids))

  pub enqueue_executions-Balanced : (ids : List ℕ) → Balanced (enqueue_executions bull ids)
  unfolding enqueue_executions
  enqueue_executions-Balanced [] = pure-Balanced tt
  enqueue_executions-Balanced (id ∷ ids) = add_entries-Balanced (map execution_bulk (id ∷ ids))

  process_pending_outbox-Balanced :
      (locked : ℕ → Bool) (batch retention : ℕ)
      → Balanced (process_pending_outbox bull locked batch retention)
  unfolding process_pending_outbox
  process_pending_outbox-Balanced locked batch retention =
      search
        (
          tick, logged-Balanced, claim_pending_outbox-Balanced, enqueue_jobs-Balanced,
          enqueue_executions-Balanced, reset_outbox_to_pending-Balanced,
          delete_published_outbox_before-Balanced,
        )
        depth 24

  answer-Tidily : {A : Type 0} (o : Option A) (w : World) → Tidily w (answer o w).1
  answer-Tidily none w = record { same_connections = refl; counts = λ c. c }
  answer-Tidily (some a) w = record { same_connections = refl; counts = λ c. c }

  removal-Tidily : (o : Option (List QueueEntry)) (w : World) → Tidily w (removal o w).1
  removal-Tidily none w = record { same_connections = refl; counts = λ c. c }
  removal-Tidily (some q) w = record { same_connections = refl; counts = λ c. c }

  get_entry-Balanced : (id : QueueId) → Balanced (get_entry bull id)
  unfolding get_entry
  get_entry-Balanced id = record { run = λ w. answer-Tidily (bull.get_job id w.env.queue) w }

  get_entry_state-Balanced : (id : QueueId) → Balanced (get_entry_state bull id)
  unfolding get_entry_state
  get_entry_state-Balanced id = record {
    run = λ w. answer-Tidily (bull.get_state id w.env.queue) w;
  }

  get_queue_job_counts-Balanced : Balanced (get_queue_job_counts bull)
  unfolding get_queue_job_counts
  get_queue_job_counts-Balanced = record {
    run = λ w. answer-Tidily (bull.get_job_counts _ w.env.queue) w;
  }

  remove_entry-Balanced : (id : QueueId) → Balanced (remove_entry bull id)
  unfolding remove_entry
  remove_entry-Balanced id = record { run = λ w. removal-Tidily (bull.remove id w.env.queue) w }

  is_queue_entry_runnable-Balanced :
      (id : QueueId) (found : Bool) → Balanced (is_queue_entry_runnable bull id found)
  unfolding is_queue_entry_runnable
  is_queue_entry_runnable-Balanced id false = pure-Balanced false
  is_queue_entry_runnable-Balanced id true = search (tick, get_entry_state-Balanced)

  remove_terminal_queue_entry-Balanced :
      (id : QueueId) (found : Bool) → Balanced (remove_terminal_queue_entry bull id found)
  unfolding remove_terminal_queue_entry
  remove_terminal_queue_entry-Balanced id false = pure-Balanced false
  remove_terminal_queue_entry-Balanced id true =
      search (tick, get_entry_state-Balanced, remove_entry-Balanced) depth 8

  missing-Balanced : (queue_id : ℕ → QueueId) (ids : List ℕ) → Balanced (missing bull queue_id ids)
  unfolding missing
  missing-Balanced queue_id [] = pure-Balanced []
  missing-Balanced queue_id (id ∷ ids) =
      bind-Balanced
        (search
          (
            tick, get_entry-Balanced, is_queue_entry_runnable-Balanced,
            remove_terminal_queue_entry-Balanced,
          )
          depth 10)
        (λ gone. bind-Balanced (missing-Balanced queue_id ids) (λ rest. pure-Balanced _))

  pub process_queue_reconciliation-Balanced :
      (batch min_age : ℕ) → Balanced (process_queue_reconciliation bull batch min_age)
  unfolding process_queue_reconciliation
  process_queue_reconciliation-Balanced batch min_age =
      search (tick, missing-Balanced, enqueue_jobs-Balanced, enqueue_executions-Balanced) depth 16

  update_queue_metrics-Balanced : Balanced (update_queue_metrics bull)
  unfolding update_queue_metrics
  update_queue_metrics-Balanced =
      search (tick, logged-Balanced, get_queue_job_counts-Balanced, set_queue_jobs-Keeps) depth 8

  throttled_reconciliation-Balanced :
      (config : SchedulerConfig) → Balanced (throttled_reconciliation bull config)
  unfolding throttled_reconciliation
  throttled_reconciliation-Balanced config =
      search (tick, process_queue_reconciliation-Balanced) depth 10

  -- A tick of the scheduler releases every connection it takes, whatever round trip or queue call fails,
  -- and a gauge that counts the owned executions goes on doing so.
  pub run_scheduler_tick-Balanced :
      (config : SchedulerConfig) (locks : Locks) → Balanced (run_scheduler_tick bull config locks)
  unfolding run_scheduler_tick
  run_scheduler_tick-Balanced config locks =
      search
        (
          tick, ended_tick-Balanced, process_due_jobs-Balanced, process_due_executions-Balanced,
          process_pending_outbox-Balanced, process_stale_idempotency-Balanced,
          process_expired_leases-Balanced, update_queue_metrics-Balanced,
          throttled_reconciliation-Balanced,
        )
        depth 16
