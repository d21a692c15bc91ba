-- ===== src/Config.antt =====
-- src/config/env.config.ts: the checks on the environment, and the configuration that comes of it. The checks of
-- the single variables are zod's, which is not under src/: they stand in the record `Zod`, over a type `Num` of
-- the numbers that JavaScript reads.

pub mod Checks
use zolt.Prelude.{
  ℕ, Bool, true, false, Option, none, some, List, [], ◌∷◌, ◌++◌, Text, codes, if◌then◌else◌,
}

pub data NodeEnv : Type 0 where
  development test production : NodeEnv

pub data LogLevel : Type 0 where
  trace debug info warn error fatal silent : LogLevel

-- z.coerce.number() with .int(), .positive(), .min(low), .max(high) and .default(fallback)
pub record NumberRule : Type 0 where
  pub whole : Bool
  pub positive : Bool
  pub low : Option ℕ
  pub high : Option ℕ
  pub fallback : Option ℕ

abbrev pub port_rule : ℕ → NumberRule
port_rule n = record {
  whole = true;
  positive = false;
  low = some 1;
  high = some 65535;
  fallback = some n;
}

abbrev pub at_least : ℕ → Option ℕ → NumberRule
at_least n d = record { whole = false; positive = false; low = some n; high = none; fallback = d }

abbrev pub positive_int : Option ℕ → NumberRule
positive_int d = record { whole = true; positive = true; low = none; high = none; fallback = d }

abbrev pub any_number : NumberRule
any_number = record { whole = false; positive = false; low = none; high = none; fallback = none }

abbrev pub whole_at_least : ℕ → ℕ → NumberRule
whole_at_least n d = record {
  whole = true;
  positive = false;
  low = some n;
  high = none;
  fallback = some d;
}

-- What zod makes of a variable that may be missing: `none` is an issue. `same` is ===.
pub record Zod (Num : Type 0) : Type 0 where
  pub number : NumberRule → Option Text → Option Num
  pub url : Option Text → Option Text
  pub text : Text → Option Text → Option Text
  pub node_env : NodeEnv → Option Text → Option NodeEnv
  pub log_level : LogLevel → Option Text → Option LogLevel
  pub same : Num → Num → Bool

-- The validated variables.
pub record EnvData (Num : Type 0) : Type 0 where
  pub node_env : NodeEnv
  pub log_level : LogLevel
  pub port : Num
  pub api_metrics_port : Num
  pub scheduler_metrics_port : Num
  pub worker_metrics_port : Num
  pub redis_url : Text
  pub database_url : Text
  pub worker_concurrency : Num
  pub worker_id : Text
  pub global_concurrency : Num
  pub scheduler_pool_interval : Num
  pub scheduler_batch_size : Num
  pub scheduler_id : Text
  pub idempotency_processing_timeout_ms : Num
  pub execution_timeout_ms : Num
  pub lease_duration_ms : Num
  pub heartbeat_interval_ms : Num
  pub queue_reconciliation_interval_ms : Num
  pub queue_reconciliation_batch_size : Num
  pub queue_reconciliation_min_age_ms : Num
  pub outbox_retention_ms : Num

infixl 5 ◌>>=◌
unfoldable pub ◌>>=◌ : {A B : Type 0} → Option A → (A → Option B) → Option B
none >>= k = none
some a >>= k = k a

-- An issue of superRefine, by its message.
abbrev pub clash : Bool → Text → List Text
clash b message = if b then message ∷ [] else []

module _ {Num : Type 0} (zod : Zod Num) (worker_name scheduler_name : Text) where
  -- The object of envSchema. `worker_name` and `scheduler_name` are the defaults with the id of the process.
  unfoldable pub env_fields : (Text → Option Text) → Option (EnvData Num)
  env_fields env = do
    node_env ← zod.node_env development (env (codes "NODE_ENV"))
    log_level ← zod.log_level info (env (codes "LOG_LEVEL"))
    port ← zod.number (port_rule 3000) (env (codes "PORT"))
    api_metrics_port ← zod.number (port_rule 9464) (env (codes "API_METRICS_PORT"))
    scheduler_metrics_port ← zod.number (port_rule 9465) (env (codes "SCHEDULER_METRICS_PORT"))
    worker_metrics_port ← zod.number (port_rule 9466) (env (codes "WORKER_METRICS_PORT"))
    redis_url ← zod.url (env (codes "REDIS_URL"))
    database_url ← zod.url (env (codes "DATABASE_URL"))
    worker_concurrency ← zod.number (at_least 1 (some 5)) (env (codes "WORKER_CONCURRENCY"))
    worker_id ← zod.text worker_name (env (codes "WORKER_ID"))
    global_concurrency ← zod.number (at_least 1 (some 6)) (env (codes "GLOBAL_CONCURRENCY"))
    scheduler_pool_interval ←
        zod.number (at_least 5000 (some 15000)) (env (codes "SCHEDULER_POOL_INTERVAL"))
    scheduler_batch_size ← zod.number (at_least 5 (some 5)) (env (codes "SCHEDULER_BATCH_SIZE"))
    scheduler_id ← zod.text scheduler_name (env (codes "SCHEDULER_ID"))
    idempotency_processing_timeout_ms ←
        zod.number any_number (env (codes "IDEMPOTENCY_PROCESSING_TIMEOUT_MS"))
    execution_timeout_ms ← zod.number (positive_int none) (env (codes "EXECUTION_TIMEOUT_MS"))
    lease_duration_ms ← zod.number (positive_int (some 30000)) (env (codes "LEASE_DURATION_MS"))
    heartbeat_interval_ms ←
        zod.number (positive_int (some 10000)) (env (codes "HEARTBEAT_INTERVAL_MS"))
    queue_reconciliation_interval_ms ←
        zod.number (at_least 5000 (some 120000)) (env (codes "QUEUE_RECONCILIATION_INTERVAL_MS"))
    queue_reconciliation_batch_size ←
        zod.number (at_least 5 (some 50)) (env (codes "QUEUE_RECONCILIATION_BATCH_SIZE"))
    queue_reconciliation_min_age_ms ←
        zod.number (at_least 5000 (some 30000)) (env (codes "QUEUE_RECONCILIATION_MIN_AGE_MS"))
    outbox_retention_ms ←
        zod.number (whole_at_least 60000 86400000) (env (codes "OUTBOX_RETENTION_MS"))
    some (record {
      node_env = node_env;
      log_level = log_level;
      port = port;
      api_metrics_port = api_metrics_port;
      scheduler_metrics_port = scheduler_metrics_port;
      worker_metrics_port = worker_metrics_port;
      redis_url = redis_url;
      database_url = database_url;
      worker_concurrency = worker_concurrency;
      worker_id = worker_id;
      global_concurrency = global_concurrency;
      scheduler_pool_interval = scheduler_pool_interval;
      scheduler_batch_size = scheduler_batch_size;
      scheduler_id = scheduler_id;
      idempotency_processing_timeout_ms = idempotency_processing_timeout_ms;
      execution_timeout_ms = execution_timeout_ms;
      lease_duration_ms = lease_duration_ms;
      heartbeat_interval_ms = heartbeat_interval_ms;
      queue_reconciliation_interval_ms = queue_reconciliation_interval_ms;
      queue_reconciliation_batch_size = queue_reconciliation_batch_size;
      queue_reconciliation_min_age_ms = queue_reconciliation_min_age_ms;
      outbox_retention_ms = outbox_retention_ms;
    })

  -- The function of superRefine.
  unfoldable pub port_issues : EnvData Num → List Text
  port_issues d =
      clash (zod.same d.api_metrics_port d.scheduler_metrics_port)
        (codes "API_METRICS_PORT and SCHEDULER_METRICS_PORT cannot be the same")
      ++ (clash (zod.same d.api_metrics_port d.worker_metrics_port)
            (codes "API_METRICS_PORT and WORKER_METRICS_PORT cannot be the same")
          ++ clash (zod.same d.scheduler_metrics_port d.worker_metrics_port)
              (codes "SCHEDULER_METRICS_PORT and WORKER_METRICS_PORT cannot be the same"))

  abbrev pub without_issues : EnvData Num → List Text → Option (EnvData Num)
  without_issues d [] = some d
  without_issues d (_ ∷ _) = none

  -- safeParse: the refinement runs on what the fields let through. `none` is the exit with code 1.
  unfoldable pub parse_env : (Text → Option Text) → Option (EnvData Num)
  unfolding env_fields port_issues
  parse_env env = env_fields env >>= λ d. without_issues d (port_issues d)

pub record WorkerSettings (Num : Type 0) : Type 0 where
  pub concurrency : Num
  pub id : Text
  pub global_concurrency : Num

pub record SchedulerSettings (Num : Type 0) : Type 0 where
  pub interval_size : Num
  pub batch : Num
  pub id : Text

pub record LeaseSettings (Num : Type 0) : Type 0 where
  pub duration : Num
  pub heartbeat_interval : Num

pub record ReconciliationSettings (Num : Type 0) : Type 0 where
  pub interval : Num
  pub batch_size : Num
  pub min_age : Num

pub record Ports (Num : Type 0) : Type 0 where
  pub api : Num
  pub scheduler : Num
  pub worker : Num

-- The object `config`; a group of one field is that field.
pub record Config (Num : Type 0) : Type 0 where
  pub env : NodeEnv
  pub level : LogLevel
  pub server_port : Num
  pub redis_url : Text
  pub database_url : Text
  pub worker : WorkerSettings Num
  pub scheduler : SchedulerSettings Num
  pub processing_timeout : Num
  pub execution_timeout : Num
  pub lease : LeaseSettings Num
  pub queue_reconciliation : ReconciliationSettings Num
  pub outbox_retention : Num
  pub ports : Ports Num

unfoldable pub config_of : {Num : Type 0} → EnvData Num → Config Num
config_of d = record {
  env = d.node_env;
  level = d.log_level;
  server_port = d.port;
  redis_url = d.redis_url;
  database_url = d.database_url;
  worker = record {
    concurrency = d.worker_concurrency;
    id = d.worker_id;
    global_concurrency = d.global_concurrency;
  };
  scheduler = record {
    interval_size = d.scheduler_pool_interval;
    batch = d.scheduler_batch_size;
    id = d.scheduler_id;
  };
  processing_timeout = d.idempotency_processing_timeout_ms;
  execution_timeout = d.execution_timeout_ms;
  lease = record { duration = d.lease_duration_ms; heartbeat_interval = d.heartbeat_interval_ms };
  queue_reconciliation = record {
    interval = d.queue_reconciliation_interval_ms;
    batch_size = d.queue_reconciliation_batch_size;
    min_age = d.queue_reconciliation_min_age_ms;
  };
  outbox_retention = d.outbox_retention_ms;
  ports = record {
    api = d.api_metrics_port;
    scheduler = d.scheduler_metrics_port;
    worker = d.worker_metrics_port;
  };
}

-- `none` is the exit with code 1.
unfoldable pub load_config :
    {Num : Type 0} → Zod Num → Text → Text → (Text → Option Text) → Option (Config Num)
unfolding parse_env config_of
load_config zod worker_name scheduler_name env =
    parse_env zod worker_name scheduler_name env >>= λ d. some (config_of d)
