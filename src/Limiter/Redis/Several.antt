-- ===== src/Limiter/Redis/Several.antt =====
-- `multiBucketLua` of internal/service/limiter/redis.go takes from all buckets of a request or from none.
use gateyes.Common.{
  ℕ, ◌+◌, ◌-◌, ◌*◌, ◌≤◌, ◌<◌, ◌≡◌, ◌≢◌, ◌⊎◌, refl, subst, ◌∙◌, String, some, List, [], ◌∷◌, ltb,
  string_eq, lookup, insert, lookup-insert_self, lookup-insert_ne, arith, All, Bool-cases, inl, inr,
}
use gateyes.Limiter.Bucket.{token}
use gateyes.Limiter.Redis.{
  RedisSpec, Hashes, hset, bucket_tokens, Loop, passed, refused, cons_tokens, check_buckets,
  write_buckets, Answer, yes_answer, no_answer, multi_bucket_lua,
}

-- No spec of the list is of the key.
abbrev pub IsFresh : String → List RedisSpec → Type 0
IsFresh key [] = Unit
IsFresh key (s ∷ specs) = (s.key ≢ key) × IsFresh key specs

-- The specs are of different keys.
abbrev pub AreDistinct : List RedisSpec → Type 0
AreDistinct [] = Unit
AreDistinct (s ∷ specs) = IsFresh s.key specs × AreDistinct specs

abbrev pub Among : RedisSpec → List RedisSpec → Type 0
Among s [] = ⊥
Among s (x ∷ specs) = (s ≡ x) ⊎ Among s specs

-- The bucket of the spec held enough, and what it needs has been taken from it.
abbrev pub IsTaken : ℕ → Hashes → Hashes → RedisSpec → Type 0
IsTaken now db db' s =
    (s.consume * token ≤ bucket_tokens now s db)
    × (lookup s.key db'
        ≡ some (record {
          t = bucket_tokens now s db - s.consume * token;
          l = now;
          expires_at = now + 120000;
        }))

-- What an answer says: each bucket is taken from, or none is changed and one held too little.
abbrev pub Outcome : ℕ → List RedisSpec → Hashes → Hashes → Answer → Type 0
Outcome now specs db db' yes_answer = All (IsTaken now db db') specs
Outcome now specs db db' (no_answer reason scope) =
    (db' ≡ db)
    × ((s : RedisSpec) × Among s specs
        × (bucket_tokens now s db < s.consume * token)
        × (s.reason ≡ reason)
        × (s.scope ≡ scope))

-- The tokens of the buckets, which are enough.
Enough : ℕ → List RedisSpec → Hashes → List ℕ → Type 0
Enough now [] db ts = Unit
Enough now (s ∷ specs) db [] = ⊥
Enough now (s ∷ specs) db (t ∷ ts) =
    (t ≡ bucket_tokens now s db)
    × (s.consume * token ≤ bucket_tokens now s db)
    × Enough now specs db ts

-- What the first loop ends with.
Checked : ℕ → List RedisSpec → Hashes → Loop → Type 0
Checked now specs db (passed ts) = Enough now specs db ts
Checked now specs db (refused reason scope) =
    (s : RedisSpec) × Among s specs
    × (bucket_tokens now s db < s.consume * token)
    × (s.reason ≡ reason)
    × (s.scope ≡ scope)

nothing-Checked : (now : ℕ) (db : Hashes) → Checked now [] db (passed [])
unfolding Checked Enough
nothing-Checked now db = tt

short-Checked :
    (now : ℕ) (s : RedisSpec) (specs : List RedisSpec) (db : Hashes)
    → bucket_tokens now s db < s.consume * token
    → Checked now (s ∷ specs) db (refused s.reason s.scope)
unfolding Checked
short-Checked now s specs db h = (s, inl refl, h, refl, refl)

cons_tokens-Checked :
    (now : ℕ) (s : RedisSpec) (specs : List RedisSpec) (db : Hashes) (l : Loop)
    → s.consume * token ≤ bucket_tokens now s db
    → Checked now specs db l
    → Checked now (s ∷ specs) db (cons_tokens (bucket_tokens now s db) l)
unfolding Checked Enough
cons_tokens-Checked now s specs db (passed ts) h k = (refl, h, k)
cons_tokens-Checked now s specs db (refused reason scope) h (x, m, a, b, c) = (x, inr m, a, b, c)

check_buckets-Checked :
    (now : ℕ) (specs : List RedisSpec) (db : Hashes)
    → Checked now specs db (check_buckets now specs db)
unfolding check_buckets
check_buckets-Checked now [] db = nothing-Checked now db
check_buckets-Checked now (s ∷ specs) db =
    elim (Bool-cases (ltb (bucket_tokens now s db) (s.consume * token))) [
      | inl y ↦ rw y (short-Checked now s specs db (ground arith))
      | inr n ↦ rw n (
          cons_tokens-Checked now s specs db (check_buckets now specs db) (ground arith)
            (check_buckets-Checked now specs db))
    ]

write_buckets-fresh :
    (now : ℕ) (specs : List RedisSpec) (ts : List ℕ) (db : Hashes) (key : String)
    → IsFresh key specs
    → lookup key (write_buckets now specs ts db) ≡ lookup key db
unfolding write_buckets hset
write_buckets-fresh now [] ts db key f = refl
write_buckets-fresh now (s ∷ specs) [] db key f = refl
write_buckets-fresh now (s ∷ specs) (t ∷ ts) db key (n, f) =
    write_buckets-fresh now specs ts _ key f ∙ lookup-insert_ne s.key key _ db n

-- What the second loop leaves, where the first has read `old`.
write_buckets-IsTaken :
    (now : ℕ) (specs : List RedisSpec) (ts : List ℕ) (old db : Hashes)
    → AreDistinct specs
    → Enough now specs old ts
    → All (IsTaken now old (write_buckets now specs ts db)) specs
unfolding write_buckets Enough hset
write_buckets-IsTaken now [] ts old db d e = tt
write_buckets-IsTaken now (s ∷ specs) [] old db d e = absurd e
write_buckets-IsTaken now (s ∷ specs) (t ∷ ts) old db (f, d) (same, h, e) =
    let next =
      insert s.key (record { t = t - s.consume * token; l = now; expires_at = now + 120000 }) db in
    let own = write_buckets-fresh now specs ts next s.key f ∙ lookup-insert_self s.key _ db in
    (
      (
        h,
        subst
            (λ u.
              lookup s.key (write_buckets now specs ts next)
              ≡ some (record { t = u - s.consume * token; l = now; expires_at = now + 120000 }))
            same own,
      ),
      write_buckets-IsTaken now specs ts old next d e,
    )

outcome_of :
    (now : ℕ) (specs : List RedisSpec) (db : Hashes) (l : Loop)
    → AreDistinct specs
    → check_buckets now specs db ≡ l
    → Checked now specs db l
    → Outcome now specs db (multi_bucket_lua now specs db).0 (multi_bucket_lua now specs db).1
unfolding multi_bucket_lua Checked
outcome_of now specs db (passed ts) d e h =
    rw (e, multi_bucket_lua) (write_buckets-IsTaken now specs ts db db d h)
outcome_of now specs db (refused reason scope) d e h = rw (e, multi_bucket_lua) (refl, h)

-- On different keys, the script for several buckets either answers yes, and then each bucket, as far as
-- it had filled up, held what is asked of it and has lost just that; or it answers no and changes
-- nothing, and names the reason and the scope of a bucket that held too little.
pub multi_bucket_lua-Outcome :
    (now : ℕ) (specs : List RedisSpec) (db : Hashes)
    → AreDistinct specs
    → Outcome now specs db (multi_bucket_lua now specs db).0 (multi_bucket_lua now specs db).1
multi_bucket_lua-Outcome now specs db d =
    outcome_of now specs db (check_buckets now specs db) d refl (check_buckets-Checked now specs db)
