-- ===== src/Lifecycle.antt =====
-- What the rows of the tables may turn into, whichever process writes them: the life of a job, of an
-- execution and of an idempotency record, as relations that every statement of the repositories keeps.
pub mod Statements
pub mod Rules
pub mod Repositories
use zolt.Prelude.{
  Distinct, Ascends-mono, List, Ascends, ℕ, ◌≤◌, ◌≡◌, refl, Bool, true, false, ◌&&◌, arith, Rows,
  Rows-refl, Rows-trans,
}
use zolt.Schema.{
  Outbox, Db, Job, JobStatus, Execution, ExecutionStatus, IdempotencyRecord, IdempotencyStatus,
  Lease,
}
use zolt.Executions.Repository.{is_attempt}

-- The statuses that a job of a status may still take.
abbrev pub job_reaches : JobStatus → JobStatus → Bool
job_reaches JobStatus.scheduled t = true
job_reaches JobStatus.queued JobStatus.scheduled = false
job_reaches JobStatus.queued JobStatus.cancelled = false
job_reaches JobStatus.queued _ = true
job_reaches JobStatus.running JobStatus.running = true
job_reaches JobStatus.running JobStatus.completed = true
job_reaches JobStatus.running JobStatus.failed = true
job_reaches JobStatus.running _ = false
job_reaches JobStatus.completed JobStatus.completed = true
job_reaches JobStatus.completed _ = false
job_reaches JobStatus.failed JobStatus.failed = true
job_reaches JobStatus.failed _ = false
job_reaches JobStatus.cancelled JobStatus.cancelled = true
job_reaches JobStatus.cancelled _ = false

-- An execution waits to be due, is due, or has been started or closed.
abbrev pub stage : ExecutionStatus → ℕ
stage ExecutionStatus.scheduled = 0
stage ExecutionStatus.queued = 1
stage ExecutionStatus.running = 2
stage ExecutionStatus.completed = 2
stage ExecutionStatus.failed = 2
stage ExecutionStatus.timed_out = 2
stage ExecutionStatus.worker_crashed = 2

-- A job keeps its description, and its status moves forward.
pub record JobMoves (a b : Job) : Type 0 where
  pub same_id : b.id ≡ a.id
  pub same_type : b.type ≡ a.type
  pub same_run_at : b.run_at ≡ a.run_at
  pub same_max_attempts : b.max_attempts ≡ a.max_attempts
  pub forward : job_reaches a.status b.status ≡ true

-- An execution stays the attempt that it is, and never waits again once it has been started.
pub record ExecutionMoves (a b : Execution) : Type 0 where
  pub same_id : b.id ≡ a.id
  pub same_job : b.job_id ≡ a.job_id
  pub same_attempt : b.attempt ≡ a.attempt
  pub forward : stage a.status ≤ stage b.status

-- A record that is COMPLETED stays so.
abbrev pub record_reaches : IdempotencyStatus → IdempotencyStatus → Bool
record_reaches IdempotencyStatus.completed IdempotencyStatus.completed = true
record_reaches IdempotencyStatus.completed _ = false
record_reaches IdempotencyStatus.pending t = true
record_reaches IdempotencyStatus.processing t = true

pub record RecordMoves (a b : IdempotencyRecord) : Type 0 where
  pub same_id : b.id ≡ a.id
  pub same_job : b.job_id ≡ a.job_id
  pub same_key : b.idempotency_key ≡ a.idempotency_key
  pub forward : record_reaches a.status b.status ≡ true

pub record LeaseMoves (a b : Lease) : Type 0 where
  pub same_id : b.id ≡ a.id
  pub same_execution : b.execution_id ≡ a.execution_id

pub record DbMoves (c d : Db) : Type 0 where
  pub jobs : Rows JobMoves c.jobs d.jobs
  pub executions : Rows ExecutionMoves c.executions d.executions
  pub records : Rows RecordMoves c.idempotency_records d.idempotency_records
  pub leases : Rows LeaseMoves c.leases d.leases

job_reaches_refl : (s : JobStatus) → job_reaches s s ≡ true
job_reaches_refl s = ground arith

job_reaches_trans :
    (s t u : JobStatus) → job_reaches s t ≡ true → job_reaches t u ≡ true → job_reaches s u ≡ true
job_reaches_trans s t u h k = ground arith

record_reaches_trans :
    (s t u : IdempotencyStatus)
    → record_reaches s t ≡ true
    → record_reaches t u ≡ true
    → record_reaches s u ≡ true
record_reaches_trans s t u h k = ground arith

pub JobMoves-refl : (a : Job) → JobMoves a a
JobMoves-refl a = record {
  same_id = refl;
  same_type = refl;
  same_run_at = refl;
  same_max_attempts = refl;
  forward = job_reaches_refl a.status;
}

-- A new status that the old one reaches.
pub status-JobMoves :
    (j : Job) (s : JobStatus) (now : ℕ)
    → job_reaches j.status s ≡ true
    → JobMoves j (record j { status = s; updated_at = now })
status-JobMoves j s now h = record {
  same_id = refl;
  same_type = refl;
  same_run_at = refl;
  same_max_attempts = refl;
  forward = h;
}

JobMoves-trans : (a b c : Job) → JobMoves a b → JobMoves b c → JobMoves a c
JobMoves-trans a b c h k = record {
  same_id = cc;
  same_type = cc;
  same_run_at = cc;
  same_max_attempts = cc;
  forward = job_reaches_trans a.status b.status c.status h.forward k.forward;
}

pub ExecutionMoves-refl : (a : Execution) → ExecutionMoves a a
ExecutionMoves-refl a = ground arith

ExecutionMoves-trans :
    (a b c : Execution) → ExecutionMoves a b → ExecutionMoves b c → ExecutionMoves a c
ExecutionMoves-trans a b c h k = record {
  same_id = cc;
  same_job = cc;
  same_attempt = cc;
  forward = omega arith;
}

pub RecordMoves-refl : (a : IdempotencyRecord) → RecordMoves a a
RecordMoves-refl a = ground arith

RecordMoves-trans :
    (a b c : IdempotencyRecord) → RecordMoves a b → RecordMoves b c → RecordMoves a c
RecordMoves-trans a b c h k = record {
  same_id = cc;
  same_job = cc;
  same_key = cc;
  forward = record_reaches_trans a.status b.status c.status h.forward k.forward;
}

pub LeaseMoves-refl : (a : Lease) → LeaseMoves a a
LeaseMoves-refl a = record { same_id = refl; same_execution = refl }

LeaseMoves-trans : (a b c : Lease) → LeaseMoves a b → LeaseMoves b c → LeaseMoves a c
LeaseMoves-trans a b c h k = record { same_id = cc; same_execution = cc }

pub DbMoves-refl : (d : Db) → DbMoves d d
DbMoves-refl d = record {
  jobs = Rows-refl JobMoves JobMoves-refl d.jobs;
  executions = Rows-refl ExecutionMoves ExecutionMoves-refl d.executions;
  records = Rows-refl RecordMoves RecordMoves-refl d.idempotency_records;
  leases = Rows-refl LeaseMoves LeaseMoves-refl d.leases;
}

pub DbMoves-trans : (c d e : Db) → DbMoves c d → DbMoves d e → DbMoves c e
DbMoves-trans c d e h k = record {
  jobs = Rows-trans JobMoves JobMoves-trans c.jobs d.jobs e.jobs h.jobs k.jobs;
  executions =
      Rows-trans ExecutionMoves ExecutionMoves-trans c.executions d.executions e.executions
        h.executions k.executions;
  records =
      Rows-trans RecordMoves RecordMoves-trans c.idempotency_records d.idempotency_records
        e.idempotency_records h.records k.records;
  leases = Rows-trans LeaseMoves LeaseMoves-trans c.leases d.leases e.leases h.leases k.leases;
}

-- The primary keys of jobs and executions, which grow as they are given out, and the unique
-- constraint on (job_id, attempt).
abbrev pub same_attempt_row : Execution → Execution → Bool
same_attempt_row a b = is_attempt a.job_id a.attempt b

abbrev pub job_key : Job → ℕ
job_key j = j.id

abbrev pub execution_key : Execution → ℕ
execution_key e = e.id

pub record IsWellFormed (d : Db) : Type 0 where
  pub job_ids : Ascends job_key 0 d.next_id d.jobs
  pub execution_ids : Ascends execution_key 0 d.next_id d.executions
  pub attempts : Distinct same_attempt_row d.executions

-- A step from a well-formed database leads to one, and moves the rows along their lives.
abbrev pub DbStep : Db → Db → Type 0
DbStep c d = IsWellFormed c → IsWellFormed d × DbMoves c d

pub DbStep-refl : (d : Db) → DbStep d d
DbStep-refl d wf = (wf, DbMoves-refl d)

pub DbStep-trans : (c d e : Db) → DbStep c d → DbStep d e → DbStep c e
DbStep-trans c d e h k wf = let p = h wf in let q = k p.0 in (q.0, DbMoves-trans c d e p.1 q.1)

grown :
    (d : Db) (n : ℕ)
    → d.next_id ≤ n
    → IsWellFormed d
    → Ascends job_key 0 n d.jobs × Ascends execution_key 0 n d.executions
grown d n h wf = (
  Ascends-mono job_key 0 d.next_id n d.jobs h wf.job_ids,
  Ascends-mono execution_key 0 d.next_id n d.executions h wf.execution_ids,
)

-- A change to one table, and to the ids that have been given out.
pub jobs-DbStep :
    (d : Db) (n : ℕ) (rows : List Job)
    → d.next_id ≤ n
    → (IsWellFormed d → Ascends job_key 0 n rows × Rows JobMoves d.jobs rows)
    → DbStep d (record d { jobs = rows; next_id = n })
jobs-DbStep d n rows le h wf = (
  record { job_ids = (h wf).0; execution_ids = (grown d n le wf).1; attempts = wf.attempts },
  record {
    jobs = (h wf).1;
    executions = Rows-refl ExecutionMoves ExecutionMoves-refl d.executions;
    records = Rows-refl RecordMoves RecordMoves-refl d.idempotency_records;
    leases = Rows-refl LeaseMoves LeaseMoves-refl d.leases;
  },
)

pub executions-DbStep :
    (d : Db) (n : ℕ) (rows : List Execution)
    → d.next_id ≤ n
    → (IsWellFormed d
        → Ascends execution_key 0 n rows
          × Distinct same_attempt_row rows
          × Rows ExecutionMoves d.executions rows)
    → DbStep d (record d { executions = rows; next_id = n })
executions-DbStep d n rows le h wf = (
  record { job_ids = (grown d n le wf).0; execution_ids = (h wf).0; attempts = (h wf).1 },
  record {
    jobs = Rows-refl JobMoves JobMoves-refl d.jobs;
    executions = (h wf).2;
    records = Rows-refl RecordMoves RecordMoves-refl d.idempotency_records;
    leases = Rows-refl LeaseMoves LeaseMoves-refl d.leases;
  },
)

pub records-DbStep :
    (d : Db) (n : ℕ) (rows : List IdempotencyRecord)
    → d.next_id ≤ n
    → Rows RecordMoves d.idempotency_records rows
    → DbStep d (record d { idempotency_records = rows; next_id = n })
records-DbStep d n rows le h wf = (
  record {
    job_ids = (grown d n le wf).0;
    execution_ids = (grown d n le wf).1;
    attempts = wf.attempts;
  },
  record {
    jobs = Rows-refl JobMoves JobMoves-refl d.jobs;
    executions = Rows-refl ExecutionMoves ExecutionMoves-refl d.executions;
    records = h;
    leases = Rows-refl LeaseMoves LeaseMoves-refl d.leases;
  },
)

pub leases-DbStep :
    (d : Db) (n : ℕ) (rows : List Lease)
    → d.next_id ≤ n
    → Rows LeaseMoves d.leases rows
    → DbStep d (record d { leases = rows; next_id = n })
leases-DbStep d n rows le h wf = (
  record {
    job_ids = (grown d n le wf).0;
    execution_ids = (grown d n le wf).1;
    attempts = wf.attempts;
  },
  record {
    jobs = Rows-refl JobMoves JobMoves-refl d.jobs;
    executions = Rows-refl ExecutionMoves ExecutionMoves-refl d.executions;
    records = Rows-refl RecordMoves RecordMoves-refl d.idempotency_records;
    leases = h;
  },
)

pub outbox-DbStep :
    (d : Db) (n : ℕ) (rows : List Outbox)
    → d.next_id ≤ n
    → DbStep d (record d { outbox = rows; next_id = n })
outbox-DbStep d n rows le wf = (
  record {
    job_ids = (grown d n le wf).0;
    execution_ids = (grown d n le wf).1;
    attempts = wf.attempts;
  },
  record {
    jobs = Rows-refl JobMoves JobMoves-refl d.jobs;
    executions = Rows-refl ExecutionMoves ExecutionMoves-refl d.executions;
    records = Rows-refl RecordMoves RecordMoves-refl d.idempotency_records;
    leases = Rows-refl LeaseMoves LeaseMoves-refl d.leases;
  },
)
