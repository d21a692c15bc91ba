-- ===== src/Jobs/Repository.antt =====
-- The statements of src/modules/jobs/jobs.repository.ts on the tables jobs and idempotency_records.
use zolt.Prelude.{
  ℕ, suc, Bool, true, false, not, ◌&&◌, Option, none, some, Text, leb, ◌==◌, if◌then◌else◌, length,
  text_eq, select_first, update, updated_first, exists, insert,
}
use zolt.Schema.{
  fits_varchar, cut_varchar, Db, Job, JobType, ScheduleType, JobStatus, IdempotencyRecord,
  IdempotencyStatus, job_scheduled, job_queued, job_terminal,
}
use zolt.Monad.{
  M, Sql, pure, throw, try_catch, ◌>>=◌, ◌>>◌, on_row, branch, query, read, with_client, begin,
  commit, rollback, insert_returned_no_row,
}

-- `run_at` is a Date: `none` if it is invalid, or one that PostgreSQL has no timestamp for.
pub record CreateJobData : Type 0 where
  pub title : Text
  pub type : JobType
  pub schedule_type : ScheduleType
  pub payload : Option Text
  pub run_at : Option ℕ
  pub max_attempts : ℕ

abbrev pub time_of : Option ℕ → ℕ
time_of none = 0
time_of (some t) = t

-- A row as the defaults of the table complete it, for a Date that PostgreSQL stores.
abbrev pub new_job : CreateJobData → ℕ → ℕ → Job
new_job c id now = record {
  id = id;
  title = cut_varchar 255 c.title;
  type = c.type;
  schedule_type = c.schedule_type;
  payload = c.payload;
  run_at = time_of c.run_at;
  max_attempts = c.max_attempts;
  status = JobStatus.scheduled;
  created_at = now;
  updated_at = now;
}

abbrev pub is_some : Option ℕ → Bool
is_some none = false
is_some (some t) = true

-- What the columns of the types varchar(255), timestamptz and integer take.
abbrev pub storable : CreateJobData → Bool
storable c = fits_varchar 255 c.title && (is_some c.run_at && leb c.max_attempts 2147483647)

abbrev pub with_job : CreateJobData → ℕ → Db → Db
with_job c now db = record db {
  jobs = insert (new_job c db.next_id now) db.jobs;
  next_id = suc db.next_id;
}

unfoldable pub insert_job : CreateJobData → Sql (Option Job)
insert_job c now db =
    if storable c then some (some (new_job c db.next_id now), with_job c now db) else none

abbrev pub has_key : Text → IdempotencyRecord → Bool
has_key k r = text_eq r.idempotency_key k

abbrev pub new_record : ℕ → Text → ℕ → ℕ → IdempotencyRecord
new_record job_id k id now = record {
  id = id;
  job_id = job_id;
  idempotency_key = k;
  status = IdempotencyStatus.pending;
  processing_started_at = none;
  created_at = now;
  updated_at = now;
}

abbrev pub key_taken : Text → Db → Bool
key_taken k db = exists (has_key k) db.idempotency_records

-- The constraint on the length of the key, and job_id is unique.
abbrev pub key_allowed : ℕ → Text → Db → Bool
key_allowed job_id k db =
    leb 1 (length k)
    && leb (length k) 200
    && not (exists (λ r. r.job_id == job_id) db.idempotency_records)

abbrev pub with_record : ℕ → Text → ℕ → Db → Db
with_record job_id k now db = record db {
  idempotency_records = insert (new_record job_id k db.next_id now) db.idempotency_records;
  next_id = suc db.next_id;
}

-- INSERT ... ON CONFLICT (idempotency_key) DO NOTHING, with its row count.
unfoldable pub insert_key : ℕ → Text → Sql ℕ
insert_key job_id k now db =
    if key_taken k db
    then some (0, db)
    else if key_allowed job_id k db
    then some (1, with_record job_id k now db)
    else none

abbrev owner_of : Option IdempotencyRecord → Db → Option Job
owner_of none db = none
owner_of (some r) db = select_first (λ j. j.id == r.job_id) db.jobs

-- SELECT jobs.* ... JOIN idempotency_records: the job of the record that holds the key.
unfoldable pub job_of_key : Text → Db → Option Job
job_of_key k db = owner_of (select_first (has_key k) db.idempotency_records) db

pub record CreateJobResult : Type 0 where
  pub job : Option Job
  pub deduplicated : Bool

abbrev pub deduplicate : Text → M CreateJobResult
deduplicate k = do
  rollback
  existing ← read (λ now db. job_of_key k db)
  pure (record { job = existing; deduplicated = true })

unfoldable pub create_job_with_idempotency : CreateJobData → Text → M CreateJobResult
create_job_with_idempotency c k = with_client (
    try_catch
      (do
        begin
        inserted ← query (insert_job c)
        on_row inserted (rollback >> throw insert_returned_no_row) λ job. do
          key_count ← query (insert_key job.id k)
          branch (key_count == 0) (deduplicate k)
              (do commit; pure (record { job = some job; deduplicated = false })))
      (λ e. rollback >> throw e))

unfoldable pub get_job_by_id : ℕ → Db → Option Job
get_job_by_id id db = select_first (λ j. j.id == id) db.jobs

-- UPDATE jobs SET status = s, updated_at = NOW() WHERE id = $1 AND (from) RETURNING *
unfoldable pub set_job_status : (JobStatus → Bool) → JobStatus → ℕ → Sql (Option Job)
set_job_status from s id now db =
    let hit = λ (j : Job). j.id == id && from j.status in
    let set = λ (j : Job). record j { status = s; updated_at = now } in
    some (updated_first hit set db.jobs, record db { jobs = update hit set db.jobs })

unfoldable pub cancel_job_status : ℕ → M (Option Job)
cancel_job_status id = query (set_job_status job_scheduled JobStatus.cancelled id)

abbrev pub not_terminal : JobStatus → Bool
not_terminal s = not (job_terminal s)

unfoldable pub success_job : ℕ → M (Option Job)
success_job id = query (set_job_status not_terminal JobStatus.completed id)

unfoldable pub failed_job : ℕ → M (Option Job)
failed_job id = query (set_job_status not_terminal JobStatus.failed id)

unfoldable pub start_job : ℕ → M (Option Job)
start_job id = query (set_job_status job_queued JobStatus.running id)
