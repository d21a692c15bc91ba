-- ===== src/Tests/Config.antt =====
-- The configuration of an environment that sets what has no default.
use zolt.Prelude.{
  ltb, subst, ℕ, ◌≡◌, refl, Bool, true, false, ◌||◌, Option, none, some, Text, text_eq, codes,
  length, leb, ◌==◌, if◌then◌else◌, arith,
}
use zolt.Config.{Zod, EnvData, Config, NumberRule, load_config}
use zolt.Config
use zolt.Config.Checks.{conforms, Numbers, load_config-checks, fitting, distinct}

abbrev counting : Numbers ℕ
counting = record {
  is_whole = λ n. true;
  from = λ l n. leb l n;
  up_to = λ h n. leb n h;
  above = λ l n. ltb l n;
}

abbrev if_fits : (ℕ → Bool) → Option ℕ → Option ℕ
if_fits p none = none
if_fits p (some n) = if p n then some n else none

-- A number is written as that many characters.
abbrev count_or : Option ℕ → Option Text → Option ℕ
count_or d none = d
count_or d (some t) = some (length t)

abbrev plain_env_zod : Zod ℕ
plain_env_zod = record {
  number = λ r t. if_fits (conforms counting r) (count_or r.fallback t);
  url = λ t. t;
  text = λ d t. some d;
  node_env = λ d t. some d;
  log_level = λ d t. some d;
  same = λ m n. m == n;
}

fits_case : (b : Bool) (m n : ℕ) → (if b then some m else none) ≡ some n → (b ≡ true) × (m ≡ n)
fits_case true m n h = (refl, ground (arith, h))
fits_case false m n h = cc

abbrev address : Text
address = codes "redis://localhost"

abbrev small_env : Text → Option Text
small_env name =
    if text_eq name (codes "REDIS_URL")
      || (text_eq name (codes "DATABASE_URL")
          || (text_eq name (codes "EXECUTION_TIMEOUT_MS")
              || text_eq name (codes "IDEMPOTENCY_PROCESSING_TIMEOUT_MS")))
    then some address
    else none

abbrev default_config : Config ℕ
default_config = record {
  env = Config.development;
  level = Config.info;
  server_port = 3000;
  redis_url = address;
  database_url = address;
  worker = record { concurrency = 5; id = codes "worker-1"; global_concurrency = 6 };
  scheduler = record { interval_size = 15000; batch = 5; id = codes "scheduler-1" };
  processing_timeout = 17;
  execution_timeout = 17;
  lease = record { duration = 30000; heartbeat_interval = 10000 };
  queue_reconciliation = record { interval = 120000; batch_size = 50; min_age = 30000 };
  outbox_retention = 86400000;
  ports = record { api = 9464; scheduler = 9465; worker = 9466 };
}

small_env_loads :
    load_config plain_env_zod (codes "worker-1") (codes "scheduler-1") small_env
    ≡ some default_config
unfolding load_config text_eq Config.◌>>=◌
small_env_loads = refl

natural-lawful :
    (r : NumberRule) (o : Option ℕ) (n : ℕ)
    → if_fits (conforms counting r) o ≡ some n
    → conforms counting r n ≡ true
natural-lawful r none n h = cc
natural-lawful r (some m) n h =
    let both_facts = fits_case (conforms counting r m) m n h in
    subst (λ k. conforms counting r k ≡ true) both_facts.1 both_facts.0

load_config-checks_example :
    (distinct plain_env_zod (codes "worker-1") (codes "scheduler-1") counting default_config.ports
      ≡ true)
    × (fitting plain_env_zod (codes "worker-1") (codes "scheduler-1") counting default_config
        ≡ true)
load_config-checks_example =
    load_config-checks plain_env_zod (codes "worker-1") (codes "scheduler-1") counting
      (λ r t n c h. natural-lawful r (count_or r.fallback t) n h) small_env small_env_loads
