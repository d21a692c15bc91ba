-- ===== src/Monad.antt =====
-- What a handler of the program does to its surroundings. `World` is the database with the
-- transaction that this process has open, and `Env`, the memory of the process with its clock. Each
-- round trip to PostgreSQL takes one flag of `faults`: if it is set, the round trip throws.
pub mod Preserves
pub mod Evolves
pub mod Atomic
use zolt.Prelude.{
  ℕ, suc, ◌-◌, Bool, true, false, Option, none, some, List, [], ◌∷◌, Text, if◌then◌else◌,
}
use zolt.Schema.{Db, JobType, ScheduleType, JobStatus, ExecutionStatus}

-- The messages of the AppErrors that the modelled code throws.
pub data Message : Type 0 where
  execution_not_found job_not_found idempotency_record_missing : ℕ → Message
  idempotency_key_missing unable_to_complete unable_to_reset : Text → Message
  no_handler : JobType → Message
  error_generating_execution error_generating_retry error_generating_recovery : Message
  error_finding_job cannot_be_cancelled could_not_be_cancelled error_creating_job : Message
  run_at_required key_length job_id_missing execution_id_missing unknown_job_name : Message
  invalid_request : Text → Message

-- What is thrown: an AppError, a failed round trip or statement, the TypeError of reading a field of
-- undefined, and what the queue or a handler rejects with.
pub data Failure : Type 0 where
  app_error : Message → ℕ → Failure
  database_error type_error queue_error : Failure
  insert_returned_no_row : Failure

pub data Result (A : Type 0) : Type 0 where
  ok : A → Result A
  err : Failure → Result A

-- The increments of the counters and the observations of the histogram.
pub data Metric : Type 0 where
  job_created : JobType → ScheduleType → Metric
  job_final : JobType → ScheduleType → JobStatus → Metric
  execution_duration : JobType → ExecutionStatus → ℕ → Metric
  execution_retry : JobType → Metric

-- The deterministic BullMQ ids, `job-<id>` and `exec-<id>`; the prefixes keep the two kinds apart.
pub data QueueId : Type 0 where
  job_queue_id execution_queue_id : ℕ → QueueId

pub data QueueState : Type 0 where
  waiting active delayed prioritized waiting_children completed failed unknown : QueueState

pub data QueueJobName : Type 0 where
  execute_job execute_execution : QueueJobName
  other_name : Text → QueueJobName

-- A queue entry, with the fields jobId and executionId of its payload.
pub record QueueEntry : Type 0 where
  pub queue_id : QueueId
  pub name : QueueJobName
  pub job_id : Option ℕ
  pub execution_id : Option ℕ
  pub state : QueueState

-- `active` is the map activeExecutions of the heartbeat (execution id to worker id), and
-- `active_gauge` the gauge workerActiveExecutions; `connections` counts the clients that are taken
-- from the pool; `queue` is what BullMQ holds in Redis, which all processes share; `outbox_pending`
-- and `outbox_oldest_age` are gauges, in milliseconds, and `queue_jobs` is one with a label; the other
-- fields behind them belong to the scheduler;
-- `randoms` are the coming results of Math.random(), as multiples of 2 ^ -53.
pub record Env : Type 0 where
  pub now : ℕ
  pub faults : List Bool
  pub randoms : List ℕ
  pub connections : ℕ
  pub active : List (ℕ × ℕ)
  pub active_gauge : ℕ
  pub metrics : List Metric
  pub queue : List QueueEntry
  pub outbox_pending : ℕ
  pub outbox_oldest_age : ℕ
  pub tick_in_flight : Bool
  pub last_reconciliation_at : ℕ
  pub last_tick_at : ℕ
  pub queue_jobs : List (QueueState × ℕ)

-- `saved` is the database as the last BEGIN found it, while a transaction is open.
pub record World : Type 0 where
  pub db : Db
  pub saved : Option Db
  pub env : Env

abbrev pub M : Type 0 → Type 0
M A = World → Result A × World

module _ {A : Type 0} where
  unfoldable pub pure : A → M A
  pure a w = (ok a, w)

  unfoldable pub throw : Failure → M A
  throw e w = (err e, w)

  abbrev pub caught : (Failure → M A) → Result A × World → Result A × World
  caught h (ok a, w) = (ok a, w)
  caught h (err e, w) = h e w

  -- try { m } catch (e) { h }
  unfoldable pub try_catch : M A → (Failure → M A) → M A
  try_catch m h w = caught h (m w)

  -- try { m } finally { f }, for an f that cannot throw
  unfoldable pub finally : M A → (Env → Env) → M A
  finally m f w = let (r, w') = m w in (r, record w' { env = f w'.env })

infixl 5 ◌>>=◌ ◌>>◌
abbrev pub continue : {A B : Type 0} → (A → M B) → Result A × World → Result B × World
continue k (ok a, w) = k a w
continue k (err e, w) = (err e, w)

unfoldable pub ◌>>=◌ : {A B : Type 0} → M A → (A → M B) → M B
◌>>=◌ m k w = continue k (m w)

unfoldable pub ◌>>◌ : {A B : Type 0} → M A → M B → M B
unfolding ◌>>=◌
m >> k = m >>= λ _. k

-- if (!row) ... with the row in the other branch
unfoldable pub on_row : {A B : Type 0} → Option A → M B → (A → M B) → M B
on_row none m k = m
on_row (some a) m k = k a

unfoldable pub branch : {A : Type 0} → Bool → M A → M A → M A
branch true m n = m
branch false m n = n

unfoldable pub get_env : {A : Type 0} → (Env → A) → M A
get_env f w = (ok (f w.env), w)

unfoldable pub set_env : (Env → Env) → M (Unit {0})
set_env f w = (ok tt, record w { env = f w.env })

-- Reading a field of a row that is undefined throws a TypeError.
unfoldable pub field : {A : Type 0} → Option A → M A
field none w = (err type_error, w)
field (some a) w = (ok a, w)

-- A statement, given NOW(); `none` if a constraint refuses it.
abbrev pub Sql : Type 0 → Type 0
Sql A = ℕ → Db → Option (A × Db)

abbrev pub next_fault : List Bool → Bool
next_fault [] = false
next_fault (f ∷ fs) = f

abbrev pub rest_faults : List Bool → List Bool
rest_faults [] = []
rest_faults (f ∷ fs) = fs

-- A round trip: it fails with nothing done, or the server does what `done` says.
unfoldable pub round_trip : {A : Type 0} → (World → Result A × World) → M A
round_trip done w =
    let w' = record w { env = record (w.env) { faults = rest_faults w.env.faults } } in
    if next_fault w.env.faults then (err database_error, w') else done w'

abbrev pub outcome : {A : Type 0} → World → Option (A × Db) → Result A × World
outcome w none = (err database_error, w)
outcome w (some (a, d)) = (ok a, record w { db = d })

abbrev pub run_statement : {A : Type 0} → Sql A → World → Result A × World
run_statement s w = outcome w (s w.env.now w.db)

-- client.query, and pool.query while this process has no transaction open
unfoldable pub query : {A : Type 0} → Sql A → M A
unfolding round_trip
query s = round_trip (run_statement s)

-- What every other session sees: the database without the open transaction.
abbrev pub committed : Option Db → Db → Db
committed none d = d
committed (some s) d = s

abbrev pub look : {A : Type 0} → (World → A) → World → Result A × World
look f w = (ok (f w), w)

-- pool.query of a SELECT: another client than that of the open transaction
unfoldable pub read_committed : {A : Type 0} → (Db → A) → M A
unfolding round_trip
read_committed f = round_trip (look (λ w. f (committed w.saved w.db)))

-- client.query of a SELECT, and pool.query of one while no transaction is open
unfoldable pub read : {A : Type 0} → (ℕ → Db → A) → M A
unfolding round_trip
read f = round_trip (look (λ w. f w.env.now w.db))

abbrev pub connected : World → Result (Unit {0}) × World
connected w = (ok tt, record w { env = record (w.env) { connections = suc w.env.connections } })

-- pool.connect()
unfoldable pub connect : M (Unit {0})
unfolding round_trip
connect = round_trip connected

-- client.release()
abbrev pub release : Env → Env
release e = record e { connections = e.connections - 1 }

-- client = await pool.connect(); try { m } finally { client.release(); }
unfoldable pub with_client : {A : Type 0} → M A → M A
unfolding connect finally ◌>>◌
with_client m = connect >> finally m release

abbrev pub begun : World → Result (Unit {0}) × World
begun w = (ok tt, record w { saved = some (committed w.saved w.db) })

-- A BEGIN inside a transaction is only a warning.
unfoldable pub begin : M (Unit {0})
unfolding round_trip
begin = round_trip begun

abbrev pub ended : World → Result (Unit {0}) × World
ended w = (ok tt, record w { saved = none })

abbrev pub dropped : World → World
dropped w = record w { env = record (w.env) { faults = rest_faults w.env.faults } }

abbrev pub unconfirmed : World → Result (Unit {0}) × World
unconfirmed w = (err database_error, record w { saved = none })

-- A COMMIT that fails takes a second flag: whether it has not reached the server. Otherwise only the reply is lost,
-- and the transaction has been committed.
unfoldable pub commit : M (Unit {0})
unfolding round_trip
commit w =
    let lost = round_trip unconfirmed (dropped w) in
    if next_fault w.env.faults then lost else ended (dropped w)

abbrev pub rolled_back : World → World
rolled_back w = record w { db = committed w.saved w.db; saved = none }

-- A ROLLBACK with no transaction open is only a warning. If the round trip fails, the server drops
-- the session and with it the transaction.
unfoldable pub rollback : M (Unit {0})
unfolding round_trip
rollback w = round_trip (look (λ _. tt)) (rolled_back w)

-- A world with no transaction open, in which no round trip fails.
abbrev pub calm : Db → Env → World
calm d e = record { db = d; saved = none; env = record e { faults = [] } }

-- The combinators and the round trips, for proofs that run a handler.
unfoldable pub running : Unit {0}
unfolding pure throw try_catch finally ◌>>=◌ ◌>>◌ on_row branch get_env set_env field round_trip
    query read_committed read connect with_client begin commit rollback
running = tt
