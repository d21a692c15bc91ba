-- ===== src/Config/Checks.antt =====
-- What the check of the environment in src/config/env.config.ts lets through.
use zolt.Config.{
  ℕ, parse_env, load_config, Ports, whole_at_least, positive_int, without_issues, at_least,
  port_rule, config_of, port_issues, env_fields, EnvData, Config, NumberRule, Zod, ◌>>=◌,
}
use zolt.Prelude.{
  if◌then◌else◌, ltb, leb, ℕ, both, not, ◌≡◌, refl, Bool, true, false, ◌&&◌, Option, none, some,
  Text, codes, sym, ap, ◌∙◌,
}

abbrev allowed : {A : Type 0} → (A → Bool) → Option A → Bool
allowed p none = true
allowed p (some a) = p a

-- If there is a value, it passes the test.
record Allowed {A : Type 0} (p : A → Bool) (o : Option A) : Type 0 where
  pub passes : allowed p o ≡ true

bound_case :
    {A B : Type 0} (p : B → Bool) (o : Option A) (k : A → Option B)
    → ((a : A) → o ≡ some a → Allowed p (k a))
    → allowed p (o >>= k) ≡ true
unfolding ◌>>=◌
bound_case p none k h = refl
bound_case p (some a) k h = (h a refl).passes

bound_by :
    {A B : Type 0} {p : B → Bool} {o : Option A} {k : A → Option B}
    → ((a : A) → o ≡ some a → Allowed p (k a))
    → Allowed p (o >>= k)
bound_by {p = p} {o = o} {k = k} h = record { passes = bound_case p o k h }

split : {a b : Bool} → (a && b) ≡ true → (a ≡ true) × (b ≡ true)
split {a = true} {b = b} h = (refl, h)
split {a = false} {b = b} h = cc

apart : (a b c : Bool) → a ≡ false → b ≡ false → c ≡ false → (not a && (not b && not c)) ≡ true
apart a b c h k l = rw (h, k, l) refl

-- What a number of JavaScript can be tested for: Number.isInteger, and the comparisons with a literal.
pub record Numbers (Num : Type 0) : Type 0 where
  pub is_whole : Num → Bool
  pub from : ℕ → Num → Bool
  pub up_to : ℕ → Num → Bool
  pub above : ℕ → Num → Bool

module _ {Num : Type 0} (numbers : Numbers Num) where
  abbrev lower : Bool → Option ℕ → Num → Bool
  lower true none x = numbers.above 0 x
  lower true (some l) x = numbers.above 0 x && numbers.from l x
  lower false none x = true
  lower false (some l) x = numbers.from l x

  abbrev upper : Option ℕ → Num → Bool
  upper none x = true
  upper (some h) x = numbers.up_to h x

  -- A number passes .int(), .max(high), .positive() and .min(low), those of them that the rule has.
  abbrev pub conforms : NumberRule → Num → Bool
  conforms r x =
      (if r.whole then numbers.is_whole x else true) && (upper r.high x && lower r.positive r.low x)

abbrev natural_numbers : Numbers ℕ
natural_numbers = record {
  is_whole = λ n. true;
  from = λ l n. leb l n;
  up_to = λ h n. leb n h;
  above = λ l n. ltb l n;
}

abbrev fallback_conforms : NumberRule → Option ℕ → Bool
fallback_conforms r none = true
fallback_conforms r (some d) = conforms natural_numbers r d

-- The default of a rule, which zod does not check, passes its tests.
abbrev pub consistent : NumberRule → Bool
consistent r = fallback_conforms r r.fallback

module _ {Num : Type 0} (zod : Zod Num) (worker_name scheduler_name : Text)
    (numbers : Numbers Num) where
  -- A port of TCP.
  abbrev pub is_port : Num → Bool
  is_port x = numbers.is_whole x && (numbers.up_to 65535 x && numbers.from 1 x)

  abbrev pub is_positive_int : Num → Bool
  is_positive_int x = numbers.is_whole x && numbers.above 0 x

  -- The ranges of the numbers of the configuration, but for the timeout of the processing, which has none.
  abbrev pub fitting : Config Num → Bool
  fitting c =
      is_port c.server_port
      && (is_port c.ports.api
          && (is_port c.ports.scheduler
              && (is_port c.ports.worker
                  && (numbers.from 1 c.worker.concurrency
                      && (numbers.from 1 c.worker.global_concurrency
                          && (numbers.from 5000 c.scheduler.interval_size
                              && (numbers.from 5 c.scheduler.batch
                                  && (is_positive_int c.execution_timeout
                                      && (is_positive_int c.lease.duration
                                          && (is_positive_int c.lease.heartbeat_interval
                                              && (numbers.from 5000 c.queue_reconciliation.interval
                                                  && (numbers.from 5
                                                        c.queue_reconciliation.batch_size
                                                      && (numbers.from 5000
                                                            c.queue_reconciliation.min_age
                                                          && (numbers.is_whole c.outbox_retention
                                                            && numbers.from 60000
                                                            c.outbox_retention))))))))))))))

  -- No two processes serve their metrics on one port.
  abbrev pub distinct : Ports Num → Bool
  distinct p =
      not (zod.same p.api p.scheduler)
      && (not (zod.same p.api p.worker) && not (zod.same p.scheduler p.worker))

  module _
      (lawful : (r : NumberRule) (t : Option Text) (n : Num)
        → consistent r ≡ true
        → zod.number r t ≡ some n
        → conforms numbers r n ≡ true)
      (env : Text → Option Text) where
    env_fields-fitting :
        Allowed (λ d. fitting (config_of d)) (env_fields zod worker_name scheduler_name env)
    unfolding env_fields config_of
    env_fields-fitting = bound_by λ node_env h0. bound_by λ log_level h1. bound_by λ port h2.
        bound_by λ api_metrics_port h3. bound_by λ scheduler_metrics_port h4.
          bound_by λ worker_metrics_port h5. bound_by λ redis_url h6. bound_by λ database_url h7.
            bound_by λ worker_concurrency h8. bound_by λ worker_id h9.
              bound_by λ global_concurrency h10. bound_by λ scheduler_pool_interval h11.
                bound_by λ scheduler_batch_size h12. bound_by λ scheduler_id h13.
                  bound_by λ idempotency_processing_timeout_ms h14.
                    bound_by λ execution_timeout_ms h15. bound_by λ lease_duration_ms h16.
                      bound_by λ heartbeat_interval_ms h17.
                        bound_by λ queue_reconciliation_interval_ms h18.
                          bound_by λ queue_reconciliation_batch_size h19.
                            bound_by λ queue_reconciliation_min_age_ms h20.
                              bound_by λ outbox_retention_ms h21. record {
                                passes =
                                    both _ _
                                      (lawful (port_rule 3000) (env (codes "PORT")) port refl h2)
                                      (both _ _
                                        (lawful (port_rule 9464) (env (codes "API_METRICS_PORT"))
                                          api_metrics_port refl h3)
                                        (both _ _
                                          (lawful (port_rule 9465)
                                            (env (codes "SCHEDULER_METRICS_PORT"))
                                            scheduler_metrics_port refl h4)
                                          (both _ _
                                            (lawful (port_rule 9466)
                                              (env (codes "WORKER_METRICS_PORT"))
                                              worker_metrics_port refl h5)
                                            (both _ _
                                              (lawful (at_least 1 (some 5))
                                                (env (codes "WORKER_CONCURRENCY"))
                                                worker_concurrency refl h8)
                                              (both _ _
                                                (lawful (at_least 1 (some 6))
                                                  (env (codes "GLOBAL_CONCURRENCY"))
                                                  global_concurrency refl h10)
                                                (both _ _
                                                  (lawful (at_least 5000 (some 15000))
                                                    (env (codes "SCHEDULER_POOL_INTERVAL"))
                                                    scheduler_pool_interval refl h11)
                                                  (both _ _
                                                    (lawful (at_least 5 (some 5))
                                                      (env (codes "SCHEDULER_BATCH_SIZE"))
                                                      scheduler_batch_size refl h12)
                                                    (both _ _
                                                      (lawful (positive_int none)
                                                        (env (codes "EXECUTION_TIMEOUT_MS"))
                                                        execution_timeout_ms refl h15)
                                                      (both _ _
                                                        (lawful (positive_int (some 30000))
                                                          (env (codes "LEASE_DURATION_MS"))
                                                          lease_duration_ms refl h16)
                                                        (both _ _
                                                          (lawful (positive_int (some 10000))
                                                            (env (codes "HEARTBEAT_INTERVAL_MS"))
                                                            heartbeat_interval_ms refl h17)
                                                          (both _ _
                                                            (lawful (at_least 5000 (some 120000))
                                                            (env (
                                                            codes
                                                            "QUEUE_RECONCILIATION_INTERVAL_MS"))
                                                            queue_reconciliation_interval_ms refl
                                                            h18)
                                                            (both _ _
                                                            (lawful (at_least 5 (some 50))
                                                            (env (
                                                            codes
                                                            "QUEUE_RECONCILIATION_BATCH_SIZE"))
                                                            queue_reconciliation_batch_size refl
                                                            h19)
                                                            (both _ _
                                                            (lawful (at_least 5000 (some 30000))
                                                            (env (
                                                            codes
                                                            "QUEUE_RECONCILIATION_MIN_AGE_MS"))
                                                            queue_reconciliation_min_age_ms refl
                                                            h20)
                                                            (lawful (whole_at_least 60000 86400000)
                                                            (env (codes "OUTBOX_RETENTION_MS"))
                                                            outbox_retention_ms refl
                                                            h21))))))))))))));
                              }

    abbrev kept_apart : Config Num → Bool
    kept_apart c = distinct c.ports && fitting c

    checked :
        (d : EnvData Num) (a b c : Bool)
        → fitting (config_of d) ≡ true
        → zod.same d.api_metrics_port d.scheduler_metrics_port ≡ a
        → zod.same d.api_metrics_port d.worker_metrics_port ≡ b
        → zod.same d.scheduler_metrics_port d.worker_metrics_port ≡ c
        → allowed kept_apart (
            without_issues zod worker_name scheduler_name d
              (port_issues zod worker_name scheduler_name d)
            >>= λ d. some (config_of d))
          ≡ true
    unfolding ◌>>=◌ port_issues config_of
    checked d true b c h k l m = rw k refl
    checked d false true c h k l m = rw (k, l) refl
    checked d false false true h k l m = rw (k, l, m) refl
    checked d false false false h k l m = rw (k, l, m) (both _ _ (apart _ _ _ k l m) h)

    loaded :
        (o : Option (EnvData Num))
        → allowed (λ d. fitting (config_of d)) o ≡ true
        → allowed kept_apart (
            o
            >>= (λ d.
                without_issues zod worker_name scheduler_name d
                  (port_issues zod worker_name scheduler_name d))
            >>= λ d. some (config_of d))
          ≡ true
    unfolding ◌>>=◌
    loaded none h = refl
    loaded (some d) h =
        checked d (zod.same d.api_metrics_port d.scheduler_metrics_port)
          (zod.same d.api_metrics_port d.worker_metrics_port)
          (zod.same d.scheduler_metrics_port d.worker_metrics_port) h refl refl refl

    -- If a number that zod lets through conforms to its rule, where the default of the rule does: a configuration
    -- that is loaded has three ports for the metrics that are not the same; its four ports are whole and from 1 to
    -- 65535; the concurrencies of the worker are at least 1; the interval of the scheduler, and the interval and the
    -- age of the reconciliation, are at least 5000; the two batch sizes are at least 5; the timeout of an execution,
    -- the duration of a lease and the interval of the heartbeat are whole and positive; and the retention of the
    -- outbox is whole and at least 60000.
    pub load_config-checks :
        {c : Config Num}
        → load_config zod worker_name scheduler_name env ≡ some c
        → (distinct c.ports ≡ true) × (fitting c ≡ true)
    unfolding load_config parse_env
    load_config-checks h = split (
        sym (ap (allowed kept_apart) h)
        ∙ loaded (env_fields zod worker_name scheduler_name env) env_fields-fitting.passes)
