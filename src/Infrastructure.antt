-- ===== src/Infrastructure.antt =====
-- The replies of src/shared/metrics/metrics.server.ts, whose registry is a parameter, and the back-off of
-- src/infrastructure/redis/redis.ts.
use zolt.Prelude.{ℕ, ◌*◌, ◌≤◌, min, if◌then◌else◌, Option, none, some, Text, text_eq, codes, arith}

-- The code and the text of a reply.
abbrev scraped : Option Text → ℕ × Text
scraped none = (500, codes "Internal Server Error")
scraped (some metrics) = (200, metrics)

-- `metrics` is what register.metrics() resolves with, `none` if it rejects.
unfoldable pub metrics_reply : Option Text → Text → ℕ × Text
metrics_reply metrics url =
    if text_eq url (codes "/metrics") then scraped metrics else (404, codes "Not Found")

-- retryStrategy, in milliseconds
unfoldable pub retry_delay : ℕ → ℕ
retry_delay times = min (times * 50) 2000

-- The delay before a further attempt to reach Redis is never less than that before the attempt, and at most two
-- seconds.
pub retry_delay-grows : (n m : ℕ) → n ≤ m → (retry_delay n ≤ retry_delay m) × (retry_delay m ≤ 2000)
unfolding retry_delay
retry_delay-grows n m h = (omega (arith, h), omega arith)
