-- ===== src/Scheduler/Service.antt =====
-- src/modules/scheduler/scheduler.service.ts: the parts of a tick and the tick. The log entries
-- are left out; a tick is one pass of the timer.
use zolt.Prelude.{
  map, ℕ, ◌-◌, Bool, true, false, Option, none, some, List, [], ◌∷◌, ◌++◌, ltb, length, is_some,
  select,
}
use zolt.Schema.{Outbox, IdempotencyRecord, Lease}
use zolt.Monad.{
  failed, delayed, active, waiting, QueueState, Env, M, pure, throw, try_catch, finally, ◌>>=◌,
  ◌>>◌, branch, get_env, set_env, read,
}
use zolt.Outbox.{
  ids_of, claim_pending_outbox, pending_outbox_stats, OutboxStats, delete_published_outbox_before,
  reset_outbox_to_pending,
}
use zolt.Idempotency.{get_stale_processing_records, reset_stale_processing_record}
use zolt.Leases.{find_expired_leases}
use zolt.Queue.{get_queue_job_counts, Bullmq, enqueue_jobs, enqueue_executions}
use zolt.Executions.Recovery.{recover_expired_execution}
use zolt.Reconciliation.{process_queue_reconciliation}
use zolt.Scheduler.Repository.{process_job_transaction, process_execution_transactions}

pub record SchedulerConfig : Type 0 where
  pub batch : ℕ
  pub processing_timeout : ℕ
  pub retention : ℕ
  pub reconciliation_interval : ℕ
  pub reconciliation_batch : ℕ
  pub reconciliation_min_age : ℕ

-- catch (error) { logger.error(...) }
unfoldable pub logged : {A : Type 0} → A → M A → M A
logged a m = try_catch m (λ _. pure a)

-- The rows that other sessions hold, in each of the three claims of a tick.
pub record Locks : Type 0 where
  pub jobs : ℕ → Bool
  pub executions : ℕ → Bool
  pub outbox : ℕ → Bool

unfoldable pub process_due_jobs : (ℕ → Bool) → ℕ → M (Unit {0})
unfolding logged
process_due_jobs locked batch = logged tt (process_job_transaction locked batch >> pure tt)

unfoldable pub process_due_executions : (ℕ → Bool) → ℕ → M (Unit {0})
unfolding logged
process_due_executions locked batch =
    logged tt (process_execution_transactions locked batch >> pure tt)

-- Math.max(0, now - oldest), and 0 if nothing waits
abbrev pub age : ℕ → Option ℕ → ℕ
age now none = 0
age now (some t) = now - t

abbrev pub set_gauges : OutboxStats → Env → Env
set_gauges s e = record e {
  outbox_pending = s.pending_count;
  outbox_oldest_age = age e.now s.oldest_created_at;
}

-- labels(state).set(counts[state] ?? 0), for the four states of the loop
abbrev pub depth : (QueueState → Option ℕ) → QueueState → QueueState × ℕ
depth counts state = (state, elim (counts state) [ none ↦ 0 | some n ↦ n ])

abbrev pub set_queue_jobs : (QueueState → Option ℕ) → Env → Env
set_queue_jobs counts e = record e {
  queue_jobs = map (depth counts) (waiting ∷ active ∷ delayed ∷ failed ∷ []);
}

unfoldable pub update_outbox_metrics : M (Unit {0})
unfolding logged
update_outbox_metrics =
    logged tt (do stats ← read (λ now db. pending_outbox_stats db); set_env (set_gauges stats))

unfoldable pub prune_published_outbox : ℕ → M (Unit {0})
unfolding logged
prune_published_outbox retention = logged tt (delete_published_outbox_before retention >> pure tt)

abbrev pub has_job : Outbox → Bool
has_job o = is_some o.job_id

abbrev pub has_execution : Outbox → Bool
has_execution o = is_some o.execution_id

-- outboxes.map((outbox) => ({ id: outbox.job_id })), for rows that have one
abbrev pub job_ids : List Outbox → List ℕ
job_ids [] = []
job_ids (o ∷ os) = let rest = job_ids os in elim (o.job_id) [ none ↦ rest | some id ↦ id ∷ rest ]

abbrev pub execution_ids : List Outbox → List ℕ
execution_ids [] = []
execution_ids (o ∷ os) =
    let rest = execution_ids os in elim (o.execution_id) [ none ↦ rest | some id ↦ id ∷ rest ]

unfoldable pub reset_all_stale : ℕ → List IdempotencyRecord → M (Unit {0})
reset_all_stale timeout [] = pure tt
reset_all_stale timeout (r ∷ rs) =
    reset_stale_processing_record r.id timeout >> reset_all_stale timeout rs

unfoldable pub process_stale_idempotency : ℕ → M Bool
unfolding logged reset_all_stale
process_stale_idempotency timeout =
    logged false
      (do stale ← get_stale_processing_records timeout; reset_all_stale timeout stale; pure true)

unfoldable pub recover_all : List Lease → M (Unit {0})
unfolding logged
recover_all [] = pure tt
recover_all (l ∷ ls) =
    logged tt (recover_expired_execution l.execution_id >> pure tt) >> recover_all ls

unfoldable pub process_expired_leases : M Bool
unfolding logged recover_all
process_expired_leases =
    logged false (do expired ← find_expired_leases; recover_all expired; pure true)

abbrev pub end_tick : Env → Env
end_tick e = record e { tick_in_flight = false; last_tick_at = e.now }

module _ (bull : Bullmq) where
  -- If the jobs cannot be enqueued, the executions of the batch go back as well.
  unfoldable pub publish_jobs : List Outbox → List Outbox → M (Unit {0})
  publish_jobs jobs executions =
      try_catch (enqueue_jobs bull (job_ids jobs))
        (λ e. reset_outbox_to_pending (ids_of jobs ++ ids_of executions) >> throw e)

  unfoldable pub publish_executions : List Outbox → M (Unit {0})
  publish_executions executions =
      try_catch (enqueue_executions bull (execution_ids executions))
        (λ e. reset_outbox_to_pending (ids_of executions) >> throw e)

  unfoldable pub publish_claimed : List Outbox → M ℕ
  unfolding publish_jobs publish_executions
  publish_claimed rows = do
    publish_jobs (select has_job rows) (select has_execution rows)
    publish_executions (select has_execution rows)
    pure (length rows)

  unfoldable pub process_pending_outbox : (ℕ → Bool) → ℕ → ℕ → M ℕ
  unfolding publish_claimed logged update_outbox_metrics prune_published_outbox
  process_pending_outbox locked batch retention = do
    published ← logged 0 (do rows ← claim_pending_outbox locked batch; publish_claimed rows)
    update_outbox_metrics
    prune_published_outbox retention
    pure published

  unfoldable pub update_queue_metrics : M (Unit {0})
  unfolding logged
  update_queue_metrics =
      logged tt (do counts ← get_queue_job_counts bull; set_env (set_queue_jobs counts))

  -- Throttled to the reconciliation interval.
  unfoldable pub throttled_reconciliation : SchedulerConfig → M (Unit {0})
  throttled_reconciliation config = do
    now ← get_env (λ e. e.now)
    last ← get_env (λ e. e.last_reconciliation_at)
    branch (ltb (now - last) config.reconciliation_interval) (pure tt) (do
      set_env (λ e. record e { last_reconciliation_at = now })
      process_queue_reconciliation bull config.reconciliation_batch config.reconciliation_min_age
      pure tt)

  unfoldable pub tick_parts : SchedulerConfig → Locks → M (Unit {0})
  unfolding process_due_jobs process_due_executions process_pending_outbox process_stale_idempotency
      process_expired_leases update_queue_metrics throttled_reconciliation
  tick_parts config locks = do
    process_due_jobs locks.jobs config.batch
    process_due_executions locks.executions config.batch
    process_pending_outbox locks.outbox config.batch config.retention
    process_stale_idempotency config.processing_timeout
    process_expired_leases
    update_queue_metrics
    throttled_reconciliation config

  unfoldable pub run_scheduler_tick : SchedulerConfig → Locks → M Bool
  unfolding tick_parts
  run_scheduler_tick config locks = do
    running ← get_env (λ e. e.tick_in_flight)
    branch running (pure false) (do
      set_env (λ e. record e { tick_in_flight = true })
      finally (tick_parts config locks) end_tick
      pure true)
