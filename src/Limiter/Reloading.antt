-- ===== src/Limiter/Reloading.antt =====
-- `Reload` of internal/service/limiter/limiter.go, and the global token bucket where the
-- configuration sets no global limit.
use gateyes.Common.{
  ℕ, ◌≤◌, ◌<◌, ◌≡◌, ◌∙◌, String, some, arith, nat_eq, string_eq, lookup, lookup-insert_ne,
}
use gateyes.Limiter.Bucket.{TokenBucket, new_token_bucket}
use gateyes.Limiter.Bucket.Window.{Calls, IsSchedule, admitted, admitted_bound}
use gateyes.Limiter.Rates.{LimiterConfig, per_minute_rate, token_burst}
use gateyes.Limiter.{BucketEntry, Heap, Limiter, new_bucket, get_or_create, make_globals, reload}

cell-new_bucket :
    (b : TokenBucket) (h : Heap) (p : ℕ)
    → p < h.next
    → lookup p (new_bucket b h).cells ≡ lookup p h.cells
cell-new_bucket b h p lt = lookup-insert_ne h.next p b h.cells (omega arith)

cell-make_globals :
    (now : ℕ) (c : LimiterConfig) (h : Heap) (p : ℕ)
    → p < h.next
    → lookup p (make_globals now c h).cells ≡ lookup p h.cells
unfolding make_globals
cell-make_globals now c h p lt =
    cell-new_bucket _ (new_bucket _ (new_bucket _ h)) p (omega arith)
    ∙ cell-new_bucket _ (new_bucket _ h) p (omega arith)
    ∙ cell-new_bucket _ h p lt

-- A reload does not reach the tenants that have a bucket: whatever limits the new configuration
-- gives, the next admission of such a tenant is charged to the old bucket, at its old rate and
-- burst.
pub get_or_create-reload :
    (now later : ℕ) (c : LimiterConfig) (l : Limiter) (tenant : String) (rate burst : ℕ)
    (e : BucketEntry) (b : TokenBucket)
    → lookup tenant l.tenant_tokens.buckets ≡ some e
    → lookup e.bucket l.heap.cells ≡ some b
    → e.bucket < l.heap.next
    → let used =
        get_or_create later tenant rate burst
          (reload now c l).tenant_tokens
          (reload now c l).heap in
      (used.2 ≡ e.bucket) × (lookup used.2 used.1.cells ≡ some b)
unfolding get_or_create reload
get_or_create-reload now later c l tenant rate burst e b known cell lt =
    ground (arith, cell-make_globals now c l.heap e.bucket lt)

-- Where no global token limit is set, the older queue still charges a global bucket, which is never
-- refilled: it admits a hundred tokens in all.
pub admitted_unlimited :
    (configured start end : ℕ) (calls : Calls)
    → IsSchedule start end calls
    → admitted (new_token_bucket (per_minute_rate 0) (token_burst 0 configured 100) start) calls
      ≤ 100
unfolding per_minute_rate token_burst
admitted_unlimited configured start end calls h =
    omega (arith, admitted_bound 0 100 start end calls h)
