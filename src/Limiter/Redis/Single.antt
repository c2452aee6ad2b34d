-- ===== src/Limiter/Redis/Single.antt =====
-- `tokenBucketLua` of internal/service/limiter/redis.go does what `TokenBucket` of limiter.go does.
use gateyes.Common.{
  ℕ, ◌-◌, ◌*◌, ◌<◌, ◌≡◌, refl, String, some, leb, string_eq, lookup, lookup-insert_self, arith,
  Bool-cases, inl, inr,
}
use gateyes.Limiter.Bucket.{token, TokenBucket, refill_locked, try_consume}
use gateyes.Limiter.Redis.{BucketHash, Hashes, hget, hset, filled, token_bucket_lua}

-- The hash of the key is that of the bucket, whose clock counts nanoseconds.
abbrev pub IsImage : String → Hashes → TokenBucket → Type 0
IsImage key db b =
    (h : BucketHash) × (lookup key db ≡ some h) × (h.t ≡ b.tokens) × (h.l * 1000000 ≡ b.last_fill)

filled-refill_locked :
    (now : ℕ) (b : TokenBucket) (h : BucketHash)
    → h.t ≡ b.tokens
    → h.l * 1000000 ≡ b.last_fill
    → filled now b.rate b.burst (some h) ≡ (refill_locked (now * 1000000) b).tokens
unfolding filled refill_locked
filled-refill_locked now b h e f =
    let elapsed : now * 1000000 - b.last_fill ≡ (now - h.l) * 1000000 = omega (arith, f) in
    let same : b.rate * (now - h.l) * 1000000 ≡ (now - h.l) * 1000000 * b.rate = grind arith in
    rw (e, elapsed, same) refl

refill_locked-last_fill : (now : ℕ) (b : TokenBucket) → (refill_locked now b).last_fill ≡ now
unfolding refill_locked
refill_locked-last_fill now b = refl

pub hget_alive :
    (now : ℕ) (key : String) (db : Hashes) (h : BucketHash)
    → lookup key db ≡ some h
    → now < h.expires_at
    → hget now key db ≡ some h
unfolding hget
hget_alive now key db h found alive = rw (found, hget) (ground arith)

-- A hash that has not expired answers as the bucket in the process does, and stays its image.
pub token_bucket_lua-try_consume :
    (key : String) (consume now : ℕ) (db : Hashes) (b : TokenBucket) (h : BucketHash)
    → lookup key db ≡ some h
    → now < h.expires_at
    → h.t ≡ b.tokens
    → h.l * 1000000 ≡ b.last_fill
    → let (db', ok) = token_bucket_lua key b.rate b.burst consume now db in
      let (b', admitted) = try_consume (now * 1000000) consume b in
      (ok ≡ admitted) × IsImage key db' b'
unfolding token_bucket_lua try_consume hset
token_bucket_lua-try_consume key consume now db b h found alive e f =
    let present = hget_alive now key db h found alive in
    let full = filled-refill_locked now b h e f in
    elim (Bool-cases (leb (consume * token) (refill_locked (now * 1000000) b).tokens)) [
      | inl y ↦
          rw (present, full, y, refill_locked-last_fill (now * 1000000) b)
            (refl, (_, lookup-insert_self key _ db, refl, refl))
      | inr n ↦
          rw (present, full, n, refill_locked-last_fill (now * 1000000) b)
            (refl, (_, lookup-insert_self key _ db, refl, refl))
    ]
