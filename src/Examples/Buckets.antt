-- ===== src/Examples/Buckets.antt =====
-- The theorems on internal/service/limiter/limiter.go at small buckets.
use gateyes.Common.{
  ℕ, ◌+◌, ◌-◌, ◌*◌, ◌≤◌, ◌≡◌, refl, inl, inr, false, some, [], ◌∷◌, arith, lookup, insert, nat_eq,
  string_eq,
}
use gateyes.Limiter.Bucket.{TokenBucket, token, new_token_bucket, refill_locked, try_consume}
use gateyes.Limiter.Bucket.Window.{Calls, admitted, admitted_bound}
use gateyes.Limiter.Rates.{
  LimiterConfig, per_minute_rate, per_minute_burst, token_burst, request_limit,
}
use gateyes.Limiter.{
  BucketMap, Heap, Limiter, new_bucket_map, make_globals, with_defaults, new_limiter, get_or_create,
}
use gateyes.Limiter.Admission.{LimitSpec, check_specs, deduct_specs, local_check}
use gateyes.Limiter.Atomic.{IsRefill, refused-IsRefill, admitted-each}

program : Unit {0}
unfolding new_token_bucket refill_locked try_consume lookup insert check_specs deduct_specs
    local_check new_bucket_map make_globals with_defaults new_limiter get_or_create per_minute_rate
    per_minute_burst token_burst request_limit
program = tt

abbrev second : ℕ
second = 1_000_000_000

-- Two tokens, two seconds later one more, then a request for too many.
abbrev calls : Calls
calls = (0, 2) ∷ (2 * second, 1) ∷ (3 * second, 9) ∷ []

admitted_bound_example :
    admitted (new_token_bucket 60 3 0) calls * token ≤ 3 * token + (3 * second - 0) * 60
admitted_bound_example = admitted_bound 60 3 0 (3 * second) calls (omega arith)

abbrev bucket_of : ℕ → TokenBucket
bucket_of n = record { rate = 60; burst = 5; tokens = n * token; last_fill = 0 }

abbrev heap : Heap
heap = record { cells = (0, bucket_of 4) ∷ (1, bucket_of 1) ∷ []; next = 2 }

abbrev spec : ℕ → ℕ → LimitSpec
spec p n = record { bucket = p; consume = n; reason = "tenant_tokens"; scope = "tenant" }

refused-IsRefill_example :
    IsRefill 0
      (lookup 0 heap.cells)
      (lookup 0 (local_check false 0 (spec 0 3 ∷ spec 1 3 ∷ []) heap).0.cells)
unfolding program
refused-IsRefill_example = refused-IsRefill false 0 (spec 0 3 ∷ spec 1 3 ∷ []) heap 0 refl

admitted-each_example :
    (1 * token ≤ (refill_locked 0 (bucket_of 1)).tokens)
    × (lookup 1 (local_check false 0 (spec 0 3 ∷ spec 1 1 ∷ []) heap).0.cells
        ≡ some (record (refill_locked 0 (bucket_of 1)) {
          tokens = (refill_locked 0 (bucket_of 1)).tokens - 1 * token;
        }))
unfolding program
admitted-each_example =
    admitted-each 0 (spec 0 3 ∷ spec 1 1 ∷ []) heap (spec 1 1) (bucket_of 1) (omega arith) refl
      (inr (inl refl)) refl

-- No limits at all.
abbrev unlimited : LimiterConfig
unlimited = record {
  global_qps = 0;
  global_qps_burst = 0;
  global_tpm = 0;
  global_token_burst = 0;
  global_rpm = 0;
  global_rpm_burst = 0;
  per_user_request_burst = 0;
  tenant_tpm = 0;
  tenant_tpm_burst = 0;
  tenant_qps = 0;
  tenant_qps_burst = 0;
  tenant_rpm = 0;
  tenant_rpm_burst = 0;
  provider_tpm = 0;
  provider_tpm_burst = 0;
  provider_qps = 0;
  provider_qps_burst = 0;
  provider_rpm = 0;
  provider_rpm_burst = 0;
  model_tpm = 0;
  model_tpm_burst = 0;
  model_qps = 0;
  model_qps_burst = 0;
  model_rpm = 0;
  model_rpm_burst = 0;
  queue_size = 0;
}

abbrev used : BucketMap × Heap × ℕ
used = get_or_create 0 "acme" 600 10 new_bucket_map (new_limiter 0 unlimited).heap

-- The tenant acme has had a request under a limit of 600 tokens a minute.
abbrev limiter : Limiter
limiter = record (new_limiter 0 unlimited) { tenant_tokens = used.0; heap = used.1 }
