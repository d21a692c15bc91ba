-- ===== src/Retry.antt =====
-- The back-off of src/utils/retry.utils.ts with the constants of src/config/retry.config.ts. A date
-- holds whole milliseconds, so the fraction of the jitter is dropped; Math.random() is a multiple of
-- 2 ^ -53 below 1. The rounding of the double arithmetic is not modelled.
pub mod Bounds
use zolt.Prelude.{ℕ, zero, suc, ◌+◌, ◌*◌, ◌/◌, ◌%◌, ◌^◌, min, List, [], ◌∷◌}
use zolt.Monad.{M, Env, get_env, set_env, pure, ◌>>=◌, ◌>>◌}

abbrev pub base_delay : ℕ
base_delay = 2000

abbrev pub exponential_base : ℕ
exponential_base = 2

abbrev pub max_delay : ℕ
max_delay = 30000

-- 2000 * 2 ** (attempt - 1), which at attempt 0 is half of the base delay
unfoldable pub exponential_delay : ℕ → ℕ
exponential_delay zero = base_delay / 2
exponential_delay (suc n) = base_delay * exponential_base ^ n

unfoldable pub capped_delay : ℕ → ℕ
capped_delay attempt = min (exponential_delay attempt) max_delay

-- random * cappedDelay * 0.5, for the random number r / 2 ^ 53
unfoldable pub jitter : ℕ → ℕ → ℕ
jitter r capped = r * capped / 2 ^ 54

unfoldable pub retry_time : ℕ → ℕ → ℕ → ℕ
unfolding capped_delay jitter
retry_time attempt r now = now + (capped_delay attempt + jitter r (capped_delay attempt))

abbrev pub next_random : List ℕ → ℕ
next_random [] = 0
next_random (r ∷ _) = r % 2 ^ 53

abbrev pub rest_randoms : List ℕ → List ℕ
rest_randoms [] = []
rest_randoms (_ ∷ rs) = rs

unfoldable pub calculate_retry_at : ℕ → M ℕ
calculate_retry_at attempt = do
  at ← get_env (λ e. retry_time attempt (next_random e.randoms) e.now)
  set_env (λ e. record e { randoms = rest_randoms e.randoms })
  pure at
