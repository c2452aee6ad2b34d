-- ===== src/Limiter/Bucket/Window.antt =====
-- The purpose of `TokenBucket` of internal/service/limiter/limiter.go: what a bucket admits over a
-- time.
use gateyes.Common.{ℕ, ◌+◌, ◌-◌, ◌*◌, ◌≤◌, ◌≡◌, ap, List, [], ◌∷◌, arith, if◌then◌else◌}
use gateyes.Limiter.Bucket.{TokenBucket, token, new_token_bucket, try_consume}
use gateyes.Limiter.Bucket.Bounds.{refill_locked-le, try_consume_fixed}

-- Calls of `TryConsume`, each a time and an amount.
abbrev pub Calls : Type 0
Calls = List (ℕ × ℕ)

-- The times do not go back, and none is after `end`.
abbrev pub IsSchedule : ℕ → ℕ → Calls → Type 0
IsSchedule start end [] = start ≤ end
IsSchedule start end ((now, n) ∷ calls) = (start ≤ now) × IsSchedule now end calls

-- The tokens that a run of calls takes out.
unfoldable pub admitted : TokenBucket → Calls → ℕ
admitted t [] = 0
admitted t ((now, n) ∷ calls) =
    (if (try_consume now n t).1 then n else 0) + admitted (try_consume now n t).0 calls

consume-le :
    (now n : ℕ) (t : TokenBucket)
    → (if (try_consume now n t).1 then n else 0) * token + (try_consume now n t).0.tokens
      ≤ t.tokens + (now - t.last_fill) * t.rate
unfolding try_consume
consume-le now n t = ground (arith, refill_locked-le now t)

split_time : (r s m e : ℕ) → s ≤ m → m ≤ e → (m - s) * r + (e - m) * r ≡ (e - s) * r
split_time r s m e h k =
    let sum : (m - s) + (e - m) ≡ e - s = omega arith in omega (arith, ap (λ (d : ℕ). d * r) sum)

start-le-end : (s e : ℕ) (calls : Calls) → IsSchedule s e calls → s ≤ e
start-le-end s e [] h = h
start-le-end s e ((now, n) ∷ calls) h = omega (arith, start-le-end now e calls h.1)

admitted-tokens-le :
    (t : TokenBucket) (end : ℕ) (calls : Calls)
    → IsSchedule t.last_fill end calls
    → admitted t calls * token ≤ t.tokens + (end - t.last_fill) * t.rate
unfolding admitted
admitted-tokens-le t end [] h = omega arith
admitted-tokens-le t end ((now, n) ∷ calls) h =
    let next = (try_consume now n t).0 in
    let (rate, burst, filled) = try_consume_fixed now n t in
    let after = admitted-tokens-le next end calls (rw filled h.1) in
    omega (
      arith,
      consume-le now n t,
      rw (rate, filled) at after,
      split_time t.rate t.last_fill now end h.0 (start-le-end now end calls h.1),
    )

-- From a new bucket no run of calls takes out more than the burst and what the rate gives for the
-- time that has passed: in units, burst * token + rate * elapsed.
pub admitted_bound :
    (rate burst start end : ℕ) (calls : Calls)
    → IsSchedule start end calls
    → admitted (new_token_bucket rate burst start) calls * token
      ≤ burst * token + (end - start) * rate
unfolding new_token_bucket
admitted_bound rate burst start end calls h =
    admitted-tokens-le (new_token_bucket rate burst start) end calls h
