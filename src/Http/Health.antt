-- ===== src/Http/Health.antt =====
-- src/utils/health.service.ts, and the health probe of src/bootstrap/routes.ts. `ping` is what redis.ping()
-- settles with: `none` if it rejects, and otherwise whether the answer is PONG.
pub mod Probe
use zolt.Prelude.{ℕ, Bool, true, false, Option, none, some, if◌then◌else◌}
use zolt.Monad.{Env, M, pure, try_catch, ◌>>=◌, ◌>>◌, get_env, read}

pub data Availability : Type 0 where
  up down : Availability

pub record HealthReport : Type 0 where
  pub status : Availability
  pub timestamp : ℕ
  pub database : Availability
  pub redis : Availability

abbrev pub both_up : Availability → Availability → Availability
both_up up up = up
both_up up down = down
both_up down _ = down

abbrev pong : Option Bool → Availability
pong none = down
pong (some b) = if b then up else down

abbrev pub health_code : Availability → ℕ
health_code up = 200
health_code down = 503

module _ (ping : Env → Option Bool) where
  -- SELECT 1, then the ping
  unfoldable pub check_system_health : M HealthReport
  check_system_health = do
    database ← try_catch (do read (λ now db. tt {0}); pure up) (λ _. pure down)
    redis ← get_env (λ e. pong (ping e))
    now ← get_env (λ e. e.now)
    pure (record {
      status = both_up database redis;
      timestamp = now;
      database = database;
      redis = redis;
    })

  unfoldable pub health_probe : M (ℕ × HealthReport)
  unfolding check_system_health
  health_probe = do health ← check_system_health; pure (health_code health.status, health)
