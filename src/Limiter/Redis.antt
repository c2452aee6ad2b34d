-- ===== src/Limiter/Redis.antt =====
-- internal/service/limiter/redis.go: the buckets in Redis. A script is one step on the hashes, which are
-- gone once they have expired. Tokens are counted in the units of Limiter.Bucket, rates in tokens per
-- minute, times in milliseconds. What the client answers is an argument.
pub mod Single
pub mod Several
use Prim.Native.String.{◌++◌ as concat}
use gateyes.Common.{
  ℕ, ◌+◌, ◌-◌, ◌*◌, String, Bool, true, false, ◌||◌, Option, none, some, List, [], ◌∷◌, ltb, leb,
  ◌==◌, string_eq, if◌then◌else◌, Map, lookup, insert,
}
use gateyes.Limiter.Bucket.{token}
use gateyes.Limiter.Admission.{Decision, allow}

-- The fields `t` and `l` of a hash, and when it expires.
pub record BucketHash : Type 0 where
  pub t : ℕ
  pub l : ℕ
  pub expires_at : ℕ

pub record RedisSpec : Type 0 where
  pub key : String
  pub rate : ℕ
  pub burst : ℕ
  pub consume : ℕ
  pub reason : String
  pub scope : String

abbrev pub Hashes : Type 0
Hashes = Map String BucketHash

-- `HGET`: a hash that has expired is not there.
unfoldable pub hget : ℕ → String → Hashes → Option BucketHash
hget now key db = elim (lookup key db) [
  | none ↦ none
  | some h ↦ if leb h.expires_at now then none else some h
]

-- `HSET` of both fields, and `EXPIRE` in 120 seconds.
unfoldable pub hset : ℕ → String → ℕ → Hashes → Hashes
hset now key t db = insert key (record { t = t; l = now; expires_at = now + 120000 }) db

-- `math.min(burst, tokens + (rate * elapsed) / 1000)`, where a hash that is not there is full.
unfoldable pub filled : ℕ → ℕ → ℕ → Option BucketHash → ℕ
filled now rate burst none = burst * token
filled now rate burst (some h) =
    let sum = h.t + rate * (now - h.l) * 1000000 in
    if ltb (burst * token) sum then burst * token else sum

unfoldable pub token_bucket_lua : String → ℕ → ℕ → ℕ → ℕ → Hashes → Hashes × Bool
token_bucket_lua key rate burst consume now db =
    let tokens = filled now rate burst (hget now key db) in
    if leb (consume * token) tokens
    then (hset now key (tokens - consume * token) db, true)
    else (hset now key tokens db, false)

-- The first loop of `multiBucketLua` ends with the tokens of all buckets, or with a refusal.
pub data Loop : Type 0 where
  passed : List ℕ → Loop
  refused : String → String → Loop

unfoldable pub bucket_tokens : ℕ → RedisSpec → Hashes → ℕ
bucket_tokens now s db = filled now s.rate s.burst (hget now s.key db)

abbrev pub cons_tokens : ℕ → Loop → Loop
cons_tokens t (passed ts) = passed (t ∷ ts)
cons_tokens t (refused reason scope) = refused reason scope

unfoldable pub check_buckets : ℕ → List RedisSpec → Hashes → Loop
check_buckets now [] db = passed []
check_buckets now (s ∷ specs) db =
    let rest = check_buckets now specs db in
    let tokens = bucket_tokens now s db in
    if ltb tokens (s.consume * token) then refused s.reason s.scope else cons_tokens tokens rest

unfoldable pub write_buckets : ℕ → List RedisSpec → List ℕ → Hashes → Hashes
write_buckets now [] ts db = db
write_buckets now (s ∷ specs) [] db = db
write_buckets now (s ∷ specs) (t ∷ ts) db =
    write_buckets now specs ts (hset now s.key (t - s.consume * token) db)

-- The answer of the script: `{1, "", ""}`, or `{0, reason, scope}`.
pub data Answer : Type 0 where
  yes_answer : Answer
  no_answer : String → String → Answer

unfoldable pub multi_bucket_lua : ℕ → List RedisSpec → Hashes → Hashes × Answer
multi_bucket_lua now specs db = elim (check_buckets now specs db) [
  | passed ts ↦ (write_buckets now specs ts db, yes_answer)
  | refused reason scope ↦ (db, no_answer reason scope)
]

-- Whether the client gets the script's answer, or fails, after the script has run or not, with an error
-- of which `deniedFromErr` makes a decision.
pub data Client : Type 0 where
  runs : Client
  fails : Bool → Decision → Client

unfoldable pub redis_try_consume : Client → String → ℕ → ℕ → ℕ → ℕ → Hashes → Hashes × Bool
redis_try_consume client key n rate burst now db =
    let (db', ok) = token_bucket_lua key rate burst n now db in
    if leb rate 0 || leb burst 0
    then (db, true)
    else elim client [ runs ↦ (db', ok) | fails ran d ↦ (if ran then db' else db, true) ]

unfoldable pub decision_of : Answer → Decision
decision_of yes_answer = allow
decision_of (no_answer reason scope) = record {
  allowed = false;
  reason = if reason == "" then "rate_limited" else reason;
  scope = scope;
}

unfoldable pub redis_check : Client → ℕ → List RedisSpec → Hashes → Hashes × Decision
redis_check (fails ran d) now specs db =
    let (db', answer) = multi_bucket_lua now specs db in (if ran then db' else db, d)
redis_check runs now specs db =
    let (db', answer) = multi_bucket_lua now specs db in (db', decision_of answer)

unfoldable pub atomic_limiter_key : String → String → String → String
atomic_limiter_key scope id metric =
    let named = if id == "" then scope else id in
    concat "gateyes:rl:{all}:" (concat scope (concat ":" (concat named (concat ":" metric))))

-- The loop of `joinKey` from the text `s` on.
unfoldable pub join_from : String → List String → String
join_from s [] = s
join_from s (p ∷ ps) = join_from (concat (if s == "" then s else concat s ":") p) ps

unfoldable pub join_key : List String → String
join_key parts = join_from "" parts

-- `tag`, of the first part and the others.
unfoldable pub tag_of : String → List String → String
tag_of first [] = first
tag_of first (p ∷ ps) = if p == "" then first else p

-- `parts` is the first part and the others.
unfoldable pub limiter_key : String → List String → String
limiter_key first others =
    concat "gateyes:rl:{" (concat (tag_of first others) (concat "}:" (join_key (first ∷ others))))
