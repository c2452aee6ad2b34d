-- ===== src/Limiter/Bucket.antt =====
-- `TokenBucket` of internal/service/limiter/limiter.go.
-- Rates are tokens per minute and times nanoseconds, so a token is 60 * 10^9 units and a refill
-- of `elapsed * rate` units is exact; the source's floats round it. The clock is Go's monotonic
-- one: time does not go back between two calls. Bursts and consumed amounts are not negative.
pub mod Bounds
pub mod Window
use gateyes.Common.{ℕ, ◌+◌, ◌-◌, ◌*◌, Bool, true, false, ltb, leb, if◌then◌else◌}

-- The units of one token.
abbrev pub token : ℕ
token = 60_000_000_000

pub record TokenBucket : Type 0 where
  pub rate : ℕ
  pub burst : ℕ
  pub tokens : ℕ
  pub last_fill : ℕ

unfoldable pub new_token_bucket : ℕ → ℕ → ℕ → TokenBucket
new_token_bucket rate burst now = record {
  rate = rate;
  burst = burst;
  tokens = burst * token;
  last_fill = now;
}

unfoldable pub refill_locked : ℕ → TokenBucket → TokenBucket
refill_locked now t =
    let filled = t.tokens + (now - t.last_fill) * t.rate in
    record t {
      tokens = if ltb (t.burst * token) filled then t.burst * token else filled;
      last_fill = now;
    }

unfoldable pub try_consume : ℕ → ℕ → TokenBucket → TokenBucket × Bool
try_consume now n t =
    let filled = refill_locked now t in
    if leb (n * token) filled.tokens
    then (record filled { tokens = filled.tokens - n * token }, true)
    else (filled, false)
