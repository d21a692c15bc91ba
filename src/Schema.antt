-- ===== src/Schema.antt =====
-- The tables of migrations/ and the rows that the repositories read and write: the job record of
-- src/modules/jobs/jobs.repository.ts, the execution of src/modules/executions/execution.service.ts,
-- and the idempotency, lease and outbox rows. Row ids and worker ids are only compared, so numbers
-- stand for them; a time is a number of milliseconds. `next_id` stands for gen_random_uuid(): each
-- insert takes an id that no row has had. Foreign keys are not modelled.
use zolt.Prelude.{
  drop, exists, ◌||◌, take, ◌==◌, length, not, leb, if◌then◌else◌, ℕ, Bool, true, false, Option,
  List, Text,
}

pub data JobType : Type 0 where
  send_email create_campaign generate_report web_hook : JobType
  -- a type that is in no registry, from a row that the API did not validate
  unregistered : Text → JobType

pub data ScheduleType : Type 0 where
  immediate once : ScheduleType

pub data JobStatus : Type 0 where
  scheduled queued running completed failed cancelled : JobStatus

pub record Job : Type 0 where
  pub id : ℕ
  pub title : Text
  pub type : JobType
  pub schedule_type : ScheduleType
  pub payload : Option Text
  pub run_at : ℕ
  pub max_attempts : ℕ
  pub status : JobStatus
  pub created_at : ℕ
  pub updated_at : ℕ

pub data ExecutionStatus : Type 0 where
  scheduled queued running completed failed timed_out worker_crashed : ExecutionStatus

pub record Execution : Type 0 where
  pub id : ℕ
  pub job_id : ℕ
  pub attempt : ℕ
  pub status : ExecutionStatus
  pub started_at : Option ℕ
  pub completed_at : Option ℕ
  pub error : Option Text
  pub retry_at : Option ℕ
  pub created_at : ℕ
  pub updated_at : ℕ

pub data IdempotencyStatus : Type 0 where
  pending processing completed : IdempotencyStatus

pub record IdempotencyRecord : Type 0 where
  pub id : ℕ
  pub job_id : ℕ
  pub idempotency_key : Text
  pub status : IdempotencyStatus
  pub processing_started_at : Option ℕ
  pub created_at : ℕ
  pub updated_at : ℕ

pub record Lease : Type 0 where
  pub id : ℕ
  pub execution_id : ℕ
  pub worker_id : ℕ
  pub lease_expires_at : ℕ
  pub created_at : ℕ
  pub updated_at : ℕ

pub data OutboxStatus : Type 0 where
  pending published : OutboxStatus

pub record Outbox : Type 0 where
  pub id : ℕ
  pub job_id : Option ℕ
  pub execution_id : Option ℕ
  pub status : OutboxStatus
  pub published_at : Option ℕ
  pub created_at : ℕ
  pub updated_at : ℕ

pub record Db : Type 0 where
  pub jobs : List Job
  pub executions : List Execution
  pub idempotency_records : List IdempotencyRecord
  pub leases : List Lease
  pub outbox : List Outbox
  pub next_id : ℕ

-- The conditions on a status that the statements and the services test.
abbrev pub job_scheduled : JobStatus → Bool
job_scheduled JobStatus.scheduled = true
job_scheduled JobStatus.queued = false
job_scheduled JobStatus.running = false
job_scheduled JobStatus.completed = false
job_scheduled JobStatus.failed = false
job_scheduled JobStatus.cancelled = false

abbrev pub job_queued : JobStatus → Bool
job_queued JobStatus.scheduled = false
job_queued JobStatus.queued = true
job_queued JobStatus.running = false
job_queued JobStatus.completed = false
job_queued JobStatus.failed = false
job_queued JobStatus.cancelled = false

-- status IN ('COMPLETED', 'FAILED', 'CANCELLED')
abbrev pub job_terminal : JobStatus → Bool
job_terminal JobStatus.scheduled = false
job_terminal JobStatus.queued = false
job_terminal JobStatus.running = false
job_terminal JobStatus.completed = true
job_terminal JobStatus.failed = true
job_terminal JobStatus.cancelled = true

abbrev pub execution_scheduled : ExecutionStatus → Bool
execution_scheduled ExecutionStatus.scheduled = true
execution_scheduled ExecutionStatus.queued = false
execution_scheduled ExecutionStatus.running = false
execution_scheduled ExecutionStatus.completed = false
execution_scheduled ExecutionStatus.failed = false
execution_scheduled ExecutionStatus.timed_out = false
execution_scheduled ExecutionStatus.worker_crashed = false

abbrev pub execution_queued : ExecutionStatus → Bool
execution_queued ExecutionStatus.scheduled = false
execution_queued ExecutionStatus.queued = true
execution_queued ExecutionStatus.running = false
execution_queued ExecutionStatus.completed = false
execution_queued ExecutionStatus.failed = false
execution_queued ExecutionStatus.timed_out = false
execution_queued ExecutionStatus.worker_crashed = false

abbrev pub execution_running : ExecutionStatus → Bool
execution_running ExecutionStatus.scheduled = false
execution_running ExecutionStatus.queued = false
execution_running ExecutionStatus.running = true
execution_running ExecutionStatus.completed = false
execution_running ExecutionStatus.failed = false
execution_running ExecutionStatus.timed_out = false
execution_running ExecutionStatus.worker_crashed = false

abbrev pub record_pending : IdempotencyStatus → Bool
record_pending IdempotencyStatus.pending = true
record_pending IdempotencyStatus.processing = false
record_pending IdempotencyStatus.completed = false

abbrev pub record_processing : IdempotencyStatus → Bool
record_processing IdempotencyStatus.pending = false
record_processing IdempotencyStatus.processing = true
record_processing IdempotencyStatus.completed = false

abbrev pub outbox_pending : OutboxStatus → Bool
outbox_pending OutboxStatus.pending = true
outbox_pending OutboxStatus.published = false

abbrev pub outbox_published : OutboxStatus → Bool
outbox_published OutboxStatus.pending = false
outbox_published OutboxStatus.published = true

-- A column of the type varchar(n) takes a text whose characters behind the first n, if any, are spaces, and
-- cuts those off.
abbrev pub not_space : ℕ → Bool
not_space c = not (c == 32)

unfoldable pub fits_varchar : ℕ → Text → Bool
fits_varchar n t = leb (length t) n || not (exists not_space (drop n t))

unfoldable pub cut_varchar : ℕ → Text → Text
cut_varchar n t = if leb (length t) n then t else take n t
