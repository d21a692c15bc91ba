-- ===== src/Executions/Recovery/Crashes.antt =====
-- What recoverExpiredExecution of src/modules/executions/execution.service.ts does to a RUNNING execution.
use zolt.Prelude.{
  updated_first-none, update-none, same_number, length-update, none-exists, select_first-test,
  select_first-insert, select_first-updated, select_first-insert_found, select_first-and,
  exists-update, updated_first-found, insert, updated, exists, one_less, select_first, update, ℕ,
  ◌+◌, ◌-◌, ◌<◌, ◌≤◌, ◌≡◌, ◌∙◌, ap, refl, Bool, true, false, not, Option, none, some, List, length,
  ◌&&◌, ◌==◌, ltb, leb, arith, both,
}
use zolt.Schema.{
  Db, Job, JobStatus, Execution, ExecutionStatus, IdempotencyRecord, IdempotencyStatus, Lease,
  record_processing, execution_running,
}
use zolt.Monad.{type_error, err, calm, Env, ok}
use zolt.Monad
use zolt.Idempotency.{moved_to, keyed, get_by_job_id}
use zolt.Executions.Recovery.{
  success_job, success_execution, failed_job, recover_exhausted, recover_completed, get_job_by_id,
  reset_to_pending, new_execution, calculate_retry_at, mark_worker_crashed, replace_crashed,
  recover_processing, find_lease_by_execution_id, recover_by_status, get_execution_by_id,
  recover_expired_lease, give_up, recover_running, recover_locked, recover_expired_execution,
}
use zolt.Executions.Repository.{
  success_execution, succeed, is_attempt, insert_execution, new_execution, update_execution,
  mark_worker_crashed, get_execution_by_id, crash, has_id, attempt_row,
}
use zolt.Retry.{calculate_retry_at, next_random, retry_time}
use zolt.Leases.{find_lease_by_execution_id}
use zolt.Idempotency.{update_records, reset_processing, reset_to_pending}
use zolt.Jobs.Repository.{success_job, set_job_status, failed_job, not_terminal, get_job_by_id}
use zolt.Jobs.Rows.{job_found, finish}

-- The lease has run out. An execution without a lease does not count.
abbrev pub lapsed : ℕ → Option Lease → Bool
lapsed now none = false
lapsed now (some l) = not (ltb now l.lease_expires_at)

-- Where no round trip fails: an execution that is not RUNNING, or has no lease, or a valid one, is left
-- alone: the answer is false and nothing has changed.
pub recover_expired_execution-keeps :
    (id : ℕ) (d : Db) (env : Env) {e : Execution}
    → get_execution_by_id id d ≡ some e
    → (execution_running e.status && lapsed env.now (find_lease_by_execution_id e.id d)) ≡ false
    → recover_expired_execution id (calm d env) ≡ (ok false, calm d env)
unfolding recover_expired_execution recover_locked recover_running recover_expired_lease give_up
    Monad.running
recover_expired_execution-keeps id d env {e = e} found other =
    ground (arith, one_less env.connections)

not_last : (a m : ℕ) → a < m → leb m a ≡ false
not_last a m h = ground arith

is_last : (a m : ℕ) → m ≤ a → leb m a ≡ true
is_last a m h = ground arith

abbrev pub replacement : Execution → Db → Env → Execution
replacement e d env =
    attempt_row e.job_id (e.attempt + 1) ExecutionStatus.scheduled
      (some (retry_time (e.attempt + 1 - 1) (next_random env.randoms) env.now)) d.next_id env.now

abbrev still_running : ℕ → Execution → Bool
still_running id x = has_id id x && execution_running x.status

-- Where no round trip fails: a RUNNING execution with an expired lease.
module _ (d : Db) (env : Env) {e : Execution} {l : Lease} {g : IdempotencyRecord} {j : Job}
    (found : get_execution_by_id e.id d ≡ some e) (runs : execution_running e.status ≡ true)
    (lease : find_lease_by_execution_id e.id d ≡ some l)
    (expired : ltb env.now l.lease_expires_at ≡ false) (guard : get_by_job_id e.job_id d ≡ some g)
    (job : get_job_by_id e.job_id d ≡ some j) where
  abbrev crashed_rows : List Execution
  crashed_rows = update (still_running e.id) (crash l.lease_expires_at env.now) d.executions

  found_running : select_first (still_running e.id) d.executions ≡ some e
  unfolding get_execution_by_id
  found_running =
      select_first-and (has_id e.id) (λ x. execution_running x.status) d.executions found runs

  crashed : select_first (has_id e.id) crashed_rows ≡ some (crash l.lease_expires_at env.now e)
  unfolding get_execution_by_id
  crashed =
      select_first-updated (has_id e.id) (still_running e.id) (crash l.lease_expires_at env.now)
        d.executions (λ x. refl) found
        (select_first-test (still_running e.id) d.executions found_running)

  replace-result :
      g.status ≡ IdempotencyStatus.processing
      → leb j.max_attempts e.attempt ≡ false
      → exists (is_attempt e.job_id (e.attempt + 1)) d.executions ≡ false
      → length (
          updated
            (keyed g.idempotency_key record_processing)
            (moved_to IdempotencyStatus.pending none env.now)
            d.idempotency_records)
        ≡ 1
      → let r = recover_expired_execution e.id (calm d env) in
        (r.0 ≡ ok true)
        × (r.1.db.executions ≡ insert (replacement e d env) crashed_rows)
        × (r.1.db.idempotency_records
            ≡ update
                (keyed g.idempotency_key record_processing)
                (moved_to IdempotencyStatus.pending none env.now)
                d.idempotency_records)
        × (r.1.db.jobs ≡ d.jobs)
        × (r.1.saved ≡ none)
  unfolding recover_expired_execution recover_locked recover_running recover_expired_lease
      recover_by_status recover_processing replace_crashed mark_worker_crashed update_execution
      calculate_retry_at new_execution insert_execution reset_to_pending reset_processing
      update_records Monad.running
  replace-result being more free one =
      rw
        (
          found,
          runs,
          lease,
          expired,
          guard,
          being,
          updated_first-found (still_running e.id) (crash l.lease_expires_at env.now) d.executions
              found_running,
          job,
          more,
          exists-update (is_attempt e.job_id (e.attempt + 1)) (still_running e.id)
                (crash l.lease_expires_at env.now) d.executions (λ x. refl)
              ∙ free,
          one,
        )
        (refl, refl, refl, refl, refl)

  -- Where no round trip fails: if a RUNNING execution has a lease that has expired, the record of its job
  -- is PROCESSING and the only one with its key that is, the job has attempts left, and there is no next
  -- attempt yet, then the answer is true, the execution is WORKER_CRASHED and completed when the lease ran
  -- out, the next attempt is SCHEDULED at the time of the back-off, the record is PENDING again, the jobs
  -- are what they were, and no transaction is open.
  pub recover_expired_execution-replaces :
      g.status ≡ IdempotencyStatus.processing
      → e.attempt < j.max_attempts
      → exists (is_attempt e.job_id (e.attempt + 1)) d.executions ≡ false
      → length (
          updated
            (keyed g.idempotency_key record_processing)
            (moved_to IdempotencyStatus.pending none env.now)
            d.idempotency_records)
        ≡ 1
      → let r = recover_expired_execution e.id (calm d env) in
        (r.0 ≡ ok true)
        × (get_execution_by_id e.id r.1.db ≡ some (crash l.lease_expires_at env.now e))
        × (select_first (is_attempt e.job_id (e.attempt + 1)) r.1.db.executions
            ≡ some (replacement e d env))
        × (r.1.db.idempotency_records
            ≡ update
                (keyed g.idempotency_key record_processing)
                (moved_to IdempotencyStatus.pending none env.now)
                d.idempotency_records)
        × (r.1.db.jobs ≡ d.jobs)
        × (r.1.saved ≡ none)
  unfolding get_execution_by_id
  recover_expired_execution-replaces being more free one =
      let next = is_attempt e.job_id (e.attempt + 1) in
      let r = replace-result being (not_last e.attempt j.max_attempts more) free one in
      (
        r.0,
        ap (select_first (has_id e.id)) r.1
            ∙ select_first-insert_found (has_id e.id) (replacement e d env)
                (crash l.lease_expires_at env.now e) crashed_rows crashed,
        ap (select_first next) r.1
            ∙ select_first-insert next (replacement e d env) crashed_rows
                (none-exists next crashed_rows (
                  exists-update next (still_running e.id) (crash l.lease_expires_at env.now)
                    d.executions (λ x. refl)
                  ∙ free))
                (both (e.job_id == e.job_id) ((e.attempt + 1) == (e.attempt + 1))
                  (same_number e.job_id) (same_number (e.attempt + 1))),
        r.2,
        r.3,
        r.4,
      )

  exhaust-result :
      g.status ≡ IdempotencyStatus.processing
      → leb j.max_attempts e.attempt ≡ true
      → not_terminal j.status ≡ true
      → let r = recover_expired_execution e.id (calm d env) in
        (r.0 ≡ ok true)
        × (r.1.db.executions ≡ crashed_rows)
        × (r.1.db.jobs
            ≡ update
                (λ x. x.id == e.job_id && not_terminal x.status)
                (finish JobStatus.failed env.now)
                d.jobs)
        × (r.1.db.idempotency_records ≡ d.idempotency_records)
        × (r.1.saved ≡ none)
  unfolding recover_expired_execution recover_locked recover_running recover_expired_lease
      recover_by_status recover_processing recover_exhausted mark_worker_crashed update_execution
      failed_job set_job_status Monad.running
  exhaust-result being last live =
      rw
        (
          found,
          runs,
          lease,
          expired,
          guard,
          being,
          updated_first-found (still_running e.id) (crash l.lease_expires_at env.now) d.executions
              found_running,
          job,
          last,
        )
        (refl, refl, refl, refl, refl)

  -- Where no round trip fails: if a RUNNING execution has a lease that has expired, the record of its job
  -- is PROCESSING, and the job is not COMPLETED, FAILED or CANCELLED and has no attempts left, then the answer is true, the
  -- execution is WORKER_CRASHED and completed when the lease ran out, the job is FAILED, no attempt is
  -- added, the records are what they were, and no transaction is open.
  pub recover_expired_execution-gives_up :
      g.status ≡ IdempotencyStatus.processing
      → j.max_attempts ≤ e.attempt
      → not_terminal j.status ≡ true
      → let r = recover_expired_execution e.id (calm d env) in
        (r.0 ≡ ok true)
        × (get_execution_by_id e.id r.1.db ≡ some (crash l.lease_expires_at env.now e))
        × (get_job_by_id e.job_id r.1.db ≡ some (finish JobStatus.failed env.now j))
        × (length r.1.db.executions ≡ length d.executions)
        × (r.1.db.idempotency_records ≡ d.idempotency_records)
        × (r.1.saved ≡ none)
  unfolding get_execution_by_id get_job_by_id
  recover_expired_execution-gives_up being last live =
      let r = exhaust-result being (is_last e.attempt j.max_attempts last) live in
      (
        r.0,
        ap (select_first (has_id e.id)) r.1 ∙ crashed,
        ap (select_first (λ x. x.id == e.job_id)) r.2
            ∙ job_found not_terminal JobStatus.failed e.job_id env.now d.jobs job live,
        ap length r.1
            ∙ length-update (still_running e.id) (crash l.lease_expires_at env.now) d.executions,
        r.3,
        r.4,
      )

-- Where no round trip fails: the record says that the handler has resolved.
module _ (d : Db) (env : Env) {e : Execution} {l : Lease} {g : IdempotencyRecord}
    (found : get_execution_by_id e.id d ≡ some e) (runs : execution_running e.status ≡ true)
    (lease : find_lease_by_execution_id e.id d ≡ some l)
    (expired : ltb env.now l.lease_expires_at ≡ false)
    (guard : get_by_job_id e.job_id d ≡ some g) where
  completed-result :
      g.status ≡ IdempotencyStatus.completed
      → exists (λ x. x.id == e.job_id && not_terminal x.status) d.jobs ≡ false
      → let r = recover_expired_execution e.id (calm d env) in
        (r.0 ≡ err type_error)
        × (r.1.db.executions ≡ update (has_id e.id) (succeed env.now) d.executions)
        × (r.1.db.jobs
            ≡ update
                (λ x. x.id == e.job_id && not_terminal x.status)
                (finish JobStatus.completed env.now)
                d.jobs)
        × (r.1.db.idempotency_records ≡ d.idempotency_records)
        × (r.1.saved ≡ none)
  unfolding recover_expired_execution recover_locked recover_running recover_expired_lease
      recover_by_status recover_completed success_execution update_execution success_job
      set_job_status get_execution_by_id Monad.running
  completed-result being ended =
      rw
        (
          found,
          runs,
          lease,
          expired,
          guard,
          being,
          updated_first-found (has_id e.id) (succeed env.now) d.executions found,
          updated_first-none (λ x. x.id == e.job_id && not_terminal x.status)
              (finish JobStatus.completed env.now) d.jobs ended,
        )
        (refl, refl, refl, refl, refl)

  -- Where no round trip fails: if a RUNNING execution has a lease that has expired, the record of its job
  -- is COMPLETED, as the handler has resolved in another attempt, and no job with its job id is left that
  -- is SCHEDULED, QUEUED or RUNNING, then the execution is COMPLETED, the jobs and the records are what they
  -- were, and no transaction is open; but the service throws a TypeError.
  pub recover_expired_execution-completes :
      g.status ≡ IdempotencyStatus.completed
      → exists (λ x. x.id == e.job_id && not_terminal x.status) d.jobs ≡ false
      → let r = recover_expired_execution e.id (calm d env) in
        (r.0 ≡ err type_error)
        × (get_execution_by_id e.id r.1.db ≡ some (succeed env.now e))
        × (r.1.db.jobs ≡ d.jobs)
        × (r.1.db.idempotency_records ≡ d.idempotency_records)
        × (r.1.saved ≡ none)
  unfolding get_execution_by_id
  recover_expired_execution-completes being ended =
      let r = completed-result being ended in
      (
        r.0,
        ap (select_first (has_id e.id)) r.1
            ∙ select_first-updated (has_id e.id) (has_id e.id) (succeed env.now) d.executions
                (λ x. refl) found (select_first-test (has_id e.id) d.executions found),
        r.2
            ∙ update-none (λ x. x.id == e.job_id && not_terminal x.status)
                (finish JobStatus.completed env.now) d.jobs ended,
        r.3,
        r.4,
      )
