-- ===== src/Http/Health/Probe.antt =====
-- What the health probe of src/bootstrap/routes.ts answers.
use zolt.Prelude.{ℕ, ◌≡◌, refl, Bool, true, false, not, ◌&&◌, Option, none, some, if◌then◌else◌}
use zolt.Monad.{Env, World, ok, next_fault, rest_faults}
use zolt.Monad
use zolt.Http.Health.{down, up, health_probe, HealthReport}

abbrev pub is_pong : Option Bool → Bool
is_pong none = false
is_pong (some b) = b

-- The answer, from whether each of the two can be reached.
abbrev pub health_of : Bool → Bool → ℕ → ℕ × HealthReport
health_of database redis now = (
  if database && redis then 200 else 503,
  record {
    status = if database && redis then up else down;
    timestamp = now;
    database = if database then up else down;
    redis = if redis then up else down;
  },
)

-- The world after the round trip of the probe.
abbrev pub probed : World → World
probed w = record w { env = record (w.env) { faults = rest_faults w.env.faults } }

-- The probe always answers: with the code 200 and the status UP if the database answers its query and Redis
-- answers PONG, and otherwise with 503 and DOWN, and with what each of the two is; it changes nothing.
pub health_probe-answers :
    (ping : Env → Option Bool) (w : World)
    → health_probe ping w ≡ (
      ok (health_of (not (next_fault w.env.faults)) (is_pong (ping (probed w).env)) w.env.now),
      probed w,
    )
unfolding health_probe Monad.running
health_probe-answers ping w = answered (next_fault w.env.faults) (ping (probed w).env) refl refl
  where
    answered :
        (f : Bool) (o : Option Bool)
        → next_fault w.env.faults ≡ f
        → ping (probed w).env ≡ o
        → health_probe ping w ≡ (ok (health_of (not f) (is_pong o) w.env.now), probed w)
    answered true none h g = rw (h, g) refl
    answered true (some true) h g = rw (h, g) refl
    answered true (some false) h g = rw (h, g) refl
    answered false none h g = rw (h, g) refl
    answered false (some true) h g = rw (h, g) refl
    answered false (some false) h g = rw (h, g) refl
