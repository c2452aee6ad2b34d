-- ===== src/Examples/Hashes.antt =====
-- The theorems on the buckets in Redis, applied to a tenant's and a model's bucket.
use gateyes.Common.{◌≡◌, ◌≢◌, refl, some, [], ◌∷◌, ◌*◌, string_eq, lookup, arith}
use text.Mathlib.TextEquality.{eq_iff}
use gateyes.Limiter.Bucket.{TokenBucket, token, try_consume}
use gateyes.Limiter.Redis.{BucketHash, RedisSpec, Hashes, token_bucket_lua, multi_bucket_lua}
use gateyes.Limiter.Redis.Single.{IsImage, token_bucket_lua-try_consume}
use gateyes.Limiter.Redis.Several.{Outcome, multi_bucket_lua-Outcome}

abbrev hash : BucketHash
hash = record { t = 5 * token; l = 1000; expires_at = 121000 }

abbrev bucket : TokenBucket
bucket = record { rate = 60; burst = 10; tokens = 5 * token; last_fill = 1000000000 }

abbrev hashes : Hashes
hashes = ("tenant", hash) ∷ []

abbrev for_tenant : RedisSpec
for_tenant = record {
  key = "tenant";
  rate = 60;
  burst = 10;
  consume = 6;
  reason = "tenant_tokens";
  scope = "tenant";
}

abbrev for_model : RedisSpec
for_model = record {
  key = "model";
  rate = 60;
  burst = 10;
  consume = 1;
  reason = "model_qps";
  scope = "model";
}

found : lookup "tenant" hashes ≡ some hash
unfolding lookup
found = refl

token_bucket_lua-try_consume_example :
    let (db', ok) = token_bucket_lua "tenant" bucket.rate bucket.burst 6 2000 hashes in
    let (b', admitted) = try_consume (2000 * 1000000) 6 bucket in
    (ok ≡ admitted) × IsImage "tenant" db' b'
token_bucket_lua-try_consume_example =
    token_bucket_lua-try_consume "tenant" 6 2000 hashes bucket hash found (omega arith) refl refl

different : for_model.key ≢ for_tenant.key
different e = ground (arith, eq_iff "model" "tenant", e)

multi_bucket_lua-Outcome_example :
    Outcome 2000
      (for_tenant ∷ for_model ∷ [])
      hashes
      (multi_bucket_lua 2000 (for_tenant ∷ for_model ∷ []) hashes).0
      (multi_bucket_lua 2000 (for_tenant ∷ for_model ∷ []) hashes).1
multi_bucket_lua-Outcome_example =
    multi_bucket_lua-Outcome 2000 (for_tenant ∷ for_model ∷ []) hashes ((different, tt), (tt, tt))
