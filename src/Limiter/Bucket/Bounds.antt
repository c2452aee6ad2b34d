-- ===== src/Limiter/Bucket/Bounds.antt =====
-- What one call does to a bucket of internal/service/limiter/limiter.go.
use gateyes.Common.{ℕ, ◌+◌, ◌-◌, ◌*◌, ◌≤◌, ◌<◌, ◌≡◌, refl, true, false, arith}
use gateyes.Limiter.Bucket.{TokenBucket, token, new_token_bucket, refill_locked, try_consume}

-- A bucket never holds more than its burst.
abbrev pub IsFilled : TokenBucket → Type 0
IsFilled t = t.tokens ≤ t.burst * token

pub new_token_bucket-IsFilled : (rate burst now : ℕ) → IsFilled (new_token_bucket rate burst now)
unfolding new_token_bucket
new_token_bucket-IsFilled rate burst now = omega arith

pub refill_locked-IsFilled : (now : ℕ) (t : TokenBucket) → IsFilled (refill_locked now t)
unfolding refill_locked
refill_locked-IsFilled now t = ground arith

pub refill_locked_fixed :
    (now : ℕ) (t : TokenBucket)
    → ((refill_locked now t).rate ≡ t.rate)
      × ((refill_locked now t).burst ≡ t.burst)
      × ((refill_locked now t).last_fill ≡ now)
unfolding refill_locked
refill_locked_fixed now t = (refl, refl, refl)

-- A refill adds what the rate gives for the time that has passed, and at most that.
pub refill_locked-le :
    (now : ℕ) (t : TokenBucket)
    → (refill_locked now t).tokens ≤ t.tokens + (now - t.last_fill) * t.rate
unfolding refill_locked
refill_locked-le now t = ground arith

refill_locked-ge :
    (now n : ℕ) (t : TokenBucket)
    → n ≤ t.burst
    → n * token ≤ (now - t.last_fill) * t.rate
    → n * token ≤ (refill_locked now t).tokens
unfolding refill_locked
refill_locked-ge now n t fits enough = ground arith

pub try_consume-IsFilled : (now n : ℕ) (t : TokenBucket) → IsFilled (try_consume now n t).0
unfolding try_consume
try_consume-IsFilled now n t = ground (arith, refill_locked-IsFilled now t)

pub try_consume_fixed :
    (now n : ℕ) (t : TokenBucket)
    → ((try_consume now n t).0.rate ≡ t.rate)
      × ((try_consume now n t).0.burst ≡ t.burst)
      × ((try_consume now n t).0.last_fill ≡ now)
unfolding try_consume refill_locked
try_consume_fixed now n t = ground arith

-- No request above the burst is ever admitted, however long the bucket has rested.
pub above_burst : (now n : ℕ) (t : TokenBucket) → t.burst < n → (try_consume now n t).1 ≡ false
unfolding try_consume
above_burst now n t h = ground (arith, refill_locked-IsFilled now t, refill_locked_fixed now t)

le-mul_right : (a b r : ℕ) → a ≤ b → 0 < r → a ≤ b * r
le-mul_right a b r h p = grind arith

-- A request within the burst is admitted once the bucket has rested for as many minutes as the
-- request has tokens, at any rate that is not zero.
pub accepts_after_wait :
    (now n : ℕ) (t : TokenBucket)
    → n ≤ t.burst
    → 0 < t.rate
    → t.last_fill + n * token ≤ now
    → (try_consume now n t).1 ≡ true
unfolding try_consume
accepts_after_wait now n t fits moving rested = ground (
  arith,
  refill_locked-ge now n t fits
      (le-mul_right (n * token) (now - t.last_fill) t.rate (omega arith) moving),
)
