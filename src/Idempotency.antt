-- ===== src/Idempotency.antt =====
-- src/modules/idempotency/idempotency.repository.ts: the records that guard the handlers of the jobs.
pub mod Exclusive
pub mod Locks
use zolt.Prelude.{
  ℕ, ◌+◌, Bool, false, not, ◌&&◌, Option, none, some, List, Text, ltb, ◌==◌, length, text_eq,
  select, select_first, update, updated, exists,
}
use zolt.Schema.{
  Db, Execution, IdempotencyRecord, IdempotencyStatus, record_pending, record_processing,
  execution_running,
}
use zolt.Monad.{
  M, Sql, pure, throw, app_error, idempotency_key_missing, unable_to_complete, unable_to_reset,
  ◌>>=◌, on_row, branch, query, read,
}

pub data ClaimResult : Type 0 where
  claimed already_processing already_completed : ClaimResult

unfoldable pub get_by_job_id : ℕ → Db → Option IdempotencyRecord
get_by_job_id job_id db = select_first (λ r. r.job_id == job_id) db.idempotency_records

-- UPDATE idempotency_records SET ... WHERE hit, with its row count
unfoldable pub update_records :
    (IdempotencyRecord → Bool) → (IdempotencyRecord → IdempotencyRecord) → Db → Option (ℕ × Db)
update_records hit set db = some (
  length (updated hit set db.idempotency_records),
  record db { idempotency_records = update hit set db.idempotency_records },
)

abbrev pub keyed : Text → (IdempotencyStatus → Bool) → IdempotencyRecord → Bool
keyed k from r = text_eq r.idempotency_key k && from r.status

abbrev pub moved_to : IdempotencyStatus → Option ℕ → ℕ → IdempotencyRecord → IdempotencyRecord
moved_to s started now r = record r {
  status = s;
  processing_started_at = started;
  updated_at = now;
}

unfoldable pub claim_pending : Text → Sql ℕ
unfolding update_records
claim_pending k now =
    update_records (keyed k record_pending) (moved_to IdempotencyStatus.processing (some now) now)

abbrev pub claim_state : IdempotencyStatus → ClaimResult
claim_state IdempotencyStatus.completed = already_completed
claim_state IdempotencyStatus.pending = already_processing
claim_state IdempotencyStatus.processing = already_processing

unfoldable pub claim_idempotency : Text → M ClaimResult
claim_idempotency k = do
  row_count ← query (claim_pending k)
  branch (row_count == 1) (pure claimed) (do
    row ← read (λ now db. select_first (λ r. text_eq r.idempotency_key k) db.idempotency_records)
    on_row row (throw (app_error (idempotency_key_missing k) 500))
        (λ r. pure (claim_state r.status)))

unfoldable pub complete_processing : Text → Sql ℕ
unfolding update_records
complete_processing k now =
    update_records (keyed k record_processing) (moved_to IdempotencyStatus.completed none now)

unfoldable pub complete_idempotency : Text → M (Unit {0})
complete_idempotency k = do
  row_count ← query (complete_processing k)
  branch (row_count == 1) (pure tt) (throw (app_error (unable_to_complete k) 500))

unfoldable pub reset_processing : Text → Sql ℕ
unfolding update_records
reset_processing k now =
    update_records (keyed k record_processing) (moved_to IdempotencyStatus.pending none now)

unfoldable pub reset_to_pending : Text → M (Unit {0})
reset_to_pending k = do
  row_count ← query (reset_processing k)
  branch (row_count == 1) (pure tt) (throw (app_error (unable_to_reset k) 500))

unfoldable pub no_running_execution : List Execution → IdempotencyRecord → Bool
no_running_execution es r =
    not (exists (λ e. e.job_id == r.job_id && execution_running e.status) es)

-- processing_started_at < NOW() - timeout, which is NULL where no start is recorded
abbrev pub started_before : ℕ → ℕ → Option ℕ → Bool
started_before timeout now none = false
started_before timeout now (some t) = ltb (t + timeout) now

unfoldable pub is_stale : ℕ → ℕ → Db → IdempotencyRecord → Bool
unfolding no_running_execution
is_stale timeout now db r =
    record_processing r.status
    && started_before timeout now r.processing_started_at
    && no_running_execution db.executions r

unfoldable pub get_stale_processing_records : ℕ → M (List IdempotencyRecord)
unfolding is_stale
get_stale_processing_records timeout =
    read (λ now db. select (is_stale timeout now db) db.idempotency_records)

unfoldable pub reset_stale : ℕ → ℕ → Sql ℕ
unfolding update_records is_stale
reset_stale record_id timeout now db =
    update_records (λ r. r.id == record_id && is_stale timeout now db r)
      (moved_to IdempotencyStatus.pending none now) db

unfoldable pub reset_stale_processing_record : ℕ → ℕ → M ℕ
reset_stale_processing_record record_id timeout = query (reset_stale record_id timeout)
