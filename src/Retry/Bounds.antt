-- ===== src/Retry/Bounds.antt =====
-- The times that calculateRetryAt of src/utils/retry.utils.ts can give.
use zolt.Prelude.{ℕ, ◌+◌, ◌*◌, ◌^◌, ◌<◌, ◌≤◌, arith}
use zolt.Retry.{capped_delay, jitter, retry_time, max_delay}

product_below : (r c : ℕ) → r < 2 ^ 53 → r * c ≤ 2 ^ 53 * c
product_below r c h = grind arith

-- The jitter is at most half of the capped delay.
jitter_half : (r c : ℕ) → r < 2 ^ 53 → 2 * jitter r c ≤ c
unfolding jitter
jitter_half r c h = let p = product_below r c h in omega arith

-- For a random number below 1, the retry comes no earlier than the capped delay from now and no later
-- than one and a half of it; and the capped delay is at most the maximal delay.
pub retry_time-bounds :
    (attempt r now : ℕ)
    → r < 2 ^ 53
    → (now + capped_delay attempt ≤ retry_time attempt r now)
      × (2 * retry_time attempt r now ≤ 2 * now + 3 * capped_delay attempt)
      × (capped_delay attempt ≤ max_delay)
unfolding retry_time
retry_time-bounds attempt r now h =
    let j = jitter_half r (capped_delay attempt) h in (omega arith, omega arith, omega arith)
