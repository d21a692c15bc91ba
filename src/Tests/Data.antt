-- ===== src/Tests/Data.antt =====
-- A small database, with a queue, a clock and a configuration, on which the theorems are tried.
use zolt.Prelude.{
  updated, text_eq, exists, map, arith, ℕ, ◌≡◌, refl, true, false, none, some, [], ◌∷◌, ◌++◌, codes,
  select_first, length,
}
use zolt.Schema.{
  record_processing, JobStatus, immediate, send_email, Lease, IdempotencyStatus, ExecutionStatus,
  Db, Job, Execution, IdempotencyRecord,
}
use zolt.Monad.{execute_job, waiting, job_queue_id, QueueEntry, World, Env, calm}
use zolt.Executions.Service.{ExecutionConfig}
use zolt.Handlers.{resolved, Handling}
use zolt.Lifecycle.{IsWellFormed}
use zolt.Queue.{AddResult, added, Bullmq, BulkJob}
use zolt.Scheduler.Service.{run_scheduler_tick, SchedulerConfig, Locks}
use zolt.Worker.{process_entry}
use zolt.Executions.Repository.{get_execution_by_id}
use zolt.Idempotency.{moved_to, keyed, get_by_job_id}
use zolt.Jobs.Repository.{get_job_by_id, CreateJobData}
use zolt.Leases.{find_lease_by_execution_id}

-- A queue that takes whatever it is given and knows no entry.
abbrev pub entry_of : BulkJob → QueueEntry
entry_of b = record {
  queue_id = b.queue_id;
  name = b.name;
  job_id = b.job_id;
  execution_id = b.execution_id;
  state = waiting;
}

abbrev pub accepting : Bullmq
accepting = record {
  add_bulk = λ bs q. added (q ++ map entry_of bs);
  get_job = λ id q. some false;
  get_state = λ id q. some waiting;
  remove = λ id q. some q;
  get_job_counts = λ states q. some (λ state. some (length q));
}

-- A queue that rejects every call.
abbrev pub refusing : Bullmq
refusing = record {
  add_bulk = λ bs q. AddResult.rejected q;
  get_job = λ id q. none;
  get_state = λ id q. none;
  remove = λ id q. none;
  get_job_counts = λ states q. none;
}

abbrev pub scheduler_config : SchedulerConfig
scheduler_config = record {
  batch = 10;
  processing_timeout = 60000;
  retention = 1000;
  reconciliation_interval = 5000;
  reconciliation_batch = 10;
  reconciliation_min_age = 30000;
}

abbrev pub execution_config : ExecutionConfig
execution_config = record { lease_duration = 30000; timeout = 10000 }

abbrev pub no_locks : Locks
no_locks = record { jobs = λ id. false; executions = λ id. false; outbox = λ id. false }

abbrev pub quick : Job → ℕ → Handling
quick j id = record { outcome = resolved; duration = 5; others = λ d. d }

abbrev pub env_at : ℕ → Env
env_at t = record {
  now = t;
  faults = [];
  randoms = [];
  connections = 0;
  active = [];
  active_gauge = 0;
  metrics = [];
  queue = [];
  outbox_pending = 0;
  outbox_oldest_age = 0;
  tick_in_flight = false;
  last_reconciliation_at = 0;
  last_tick_at = 0;
  queue_jobs = [];
}

abbrev pub email : Job
email = record {
  id = 1;
  title = codes "Welcome";
  type = send_email;
  schedule_type = immediate;
  payload = none;
  run_at = 100;
  max_attempts = 3;
  status = JobStatus.scheduled;
  created_at = 100;
  updated_at = 100;
}

abbrev pub email_key : IdempotencyRecord
email_key = record {
  id = 2;
  job_id = 1;
  idempotency_key = codes "welcome-1";
  status = IdempotencyStatus.pending;
  processing_started_at = none;
  created_at = 100;
  updated_at = 100;
}

abbrev pub first_try : Execution
first_try = record {
  id = 3;
  job_id = 1;
  attempt = 1;
  status = ExecutionStatus.queued;
  started_at = none;
  completed_at = none;
  error = none;
  retry_at = none;
  created_at = 100;
  updated_at = 100;
}

abbrev pub held : Lease
held = record {
  id = 4;
  execution_id = 3;
  worker_id = 7;
  lease_expires_at = 500;
  created_at = 100;
  updated_at = 100;
}

abbrev pub due_db : Db
due_db = record {
  jobs = email ∷ [];
  executions = first_try ∷ [];
  idempotency_records = email_key ∷ [];
  leases = held ∷ [];
  outbox = [];
  next_id = 5;
}

abbrev pub before : World
before = calm due_db (env_at 200)

pub due_db-IsWellFormed : IsWellFormed due_db
unfolding exists
due_db-IsWellFormed = record {
  job_ids = (omega arith, omega arith);
  execution_ids = (omega arith, omega arith);
  attempts = (refl, tt);
}

abbrev pub run_email : QueueEntry
run_email = record {
  queue_id = job_queue_id 1;
  name = execute_job;
  job_id = some 1;
  execution_id = none;
  state = waiting;
}

-- The tick claims the job; when the lease of the attempt has expired, a worker executes it.
abbrev pub claimed_world : World
claimed_world = (run_scheduler_tick accepting scheduler_config no_locks before).1

abbrev pub later_world : World
later_world = record claimed_world { env = env_at 600 }

abbrev pub executed_world : World
executed_world = (process_entry execution_config quick 8 run_email later_world).1

pub email_there : get_job_by_id 1 due_db ≡ some email
unfolding get_job_by_id select_first
email_there = refl

pub first_try_there : get_execution_by_id 3 due_db ≡ some first_try
unfolding get_execution_by_id select_first
first_try_there = refl

pub email_key_there : get_by_job_id 1 due_db ≡ some email_key
unfolding get_by_job_id select_first
email_key_there = refl

pub held_there : find_lease_by_execution_id 3 due_db ≡ some held
unfolding find_lease_by_execution_id select_first
held_there = refl

-- The fourth round trip fails: the INSERT of the outbox row.
abbrev pub failing_insert : World
failing_insert = record {
  db = due_db;
  saved = none;
  env = record (env_at 200) { faults = false ∷ false ∷ false ∷ true ∷ [] };
}

abbrev pub email_data : CreateJobData
email_data = record {
  title = codes "Welcome";
  type = send_email;
  schedule_type = immediate;
  payload = none;
  run_at = some 100;
  max_attempts = 3;
}

-- The email is being executed.
abbrev pub running_db : Db
running_db = record due_db {
  jobs = record email { status = JobStatus.running } ∷ [];
  executions = record first_try { status = ExecutionStatus.running; started_at = some 150 } ∷ [];
  idempotency_records =
      record email_key { status = IdempotencyStatus.processing; processing_started_at = some 150 }
      ∷ [];
}

pub one_claimed :
    length (
      updated
        (keyed (codes "welcome-1") record_processing)
        (moved_to IdempotencyStatus.completed none 200)
        running_db.idempotency_records)
    ≡ 1
unfolding updated text_eq
one_claimed = refl

pub try_runs :
    get_execution_by_id 3 running_db
    ≡ some (record first_try { status = ExecutionStatus.running; started_at = some 150 })
unfolding get_execution_by_id select_first
try_runs = refl

pub email_runs : get_job_by_id 1 running_db ≡ some (record email { status = JobStatus.running })
unfolding get_job_by_id select_first
email_runs = refl
