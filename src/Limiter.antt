-- ===== src/Limiter.antt =====
-- internal/service/limiter/limiter.go without Redis (`rdb == nil`): the buckets in the process.
-- A bucket is an object that a field, a map's entry or a `limitSpec` points to; `heap` holds the
-- buckets by their pointers. The locks make each operation one step, at the time `now`.
pub mod Bucket
pub mod Rates
pub mod Admission
pub mod Atomic
pub mod Users
pub mod Reloading
pub mod Redis
use gateyes.Common.{
  ℕ, ◌+◌, ◌-◌, ◌*◌, String, Bool, true, false, ◌&&◌, ◌||◌, not, Option, none, some, List, [], ◌∷◌,
  ◌++◌, ltb, leb, ◌==◌, nat_eq, string_eq, if◌then◌else◌, Map, lookup, insert,
}
use gateyes.Limiter.Bucket.{TokenBucket, token, new_token_bucket, refill_locked, try_consume}
use gateyes.Limiter.Rates.{
  LimiterConfig, Limit, per_minute_rate, per_minute_burst, token_burst, request_limit,
}

pub record BucketEntry : Type 0 where
  pub bucket : ℕ
  pub last_access : ℕ

pub record BucketMap : Type 0 where
  pub buckets : Map String BucketEntry
  pub ttl : ℕ

-- `next` is the pointer of the next bucket that is made.
pub record Heap : Type 0 where
  pub cells : Map ℕ TokenBucket
  pub next : ℕ

abbrev pub new_bucket : TokenBucket → Heap → Heap
new_bucket b h = record { cells = insert h.next b h.cells; next = h.next + 1 }

-- `bucket.TryConsume(n)` through a pointer; the code holds no dangling one.
unfoldable pub consume_at : ℕ → ℕ → ℕ → Heap → Heap × Bool
consume_at now p n h = elim (lookup p h.cells) [
  | none ↦ (h, false)
  | some b ↦
      (record h { cells = insert p (try_consume now n b).0 h.cells }, (try_consume now n b).1)
]

abbrev pub ten_minutes : ℕ
ten_minutes = 600_000_000_000

unfoldable pub new_bucket_map : BucketMap
new_bucket_map = record { buckets = []; ttl = ten_minutes }

-- The map, the heap, and the pointer to the bucket of the key.
unfoldable pub get_or_create : ℕ → String → ℕ → ℕ → BucketMap → Heap → BucketMap × Heap × ℕ
get_or_create now key rate burst bm h = elim (lookup key bm.buckets) [
  | some e ↦
      (record bm { buckets = insert key (record e { last_access = now }) bm.buckets }, h, e.bucket)
  | none ↦ (
    record bm { buckets = insert key (record { bucket = h.next; last_access = now }) bm.buckets },
    new_bucket (new_token_bucket rate burst now) h,
    h.next,
  )
]

unfoldable pub try_consume_in : ℕ → String → ℕ → ℕ → ℕ → BucketMap → Heap → BucketMap × Heap × Bool
try_consume_in now key n rate burst bm h =
    if leb rate 0 || leb burst 0
    then (bm, h, true)
    else (let (bm', h', p) = get_or_create now key rate burst bm h in
        let (h'', ok) = consume_at now p n h' in (bm', h'', ok))

-- One pass of `refillAll`: each bucket is refilled, and an entry that has rested too long goes.
unfoldable pub refill_entries :
    ℕ → ℕ → Map String BucketEntry → Heap → Map String BucketEntry × Heap
refill_entries now ttl [] h = ([], h)
refill_entries now ttl ((k, e) ∷ m) h =
    let (m', h') = refill_entries now ttl m (consume_at now e.bucket 0 h).0 in
    (if ltb 0 ttl && ltb ttl (now - e.last_access) then m' else (k, e) ∷ m', h')

unfoldable pub refill_all : ℕ → BucketMap → Heap → BucketMap × Heap
refill_all now bm h =
    let (m, h') = refill_entries now bm.ttl bm.buckets h in (record bm { buckets = m }, h')

pub record Limiter : Type 0 where
  pub cfg : LimiterConfig
  pub global_token : ℕ
  pub global_rpm : ℕ
  pub global_requests : ℕ
  pub user_tokens : Map String BucketEntry
  pub tenant_tokens : BucketMap
  pub tenant_rpm : BucketMap
  pub provider_tokens : BucketMap
  pub provider_rpm : BucketMap
  pub model_tokens : BucketMap
  pub model_rpm : BucketMap
  pub heap : Heap

-- The settings as both `NewLimiter` and `Reload` store them.
unfoldable pub with_defaults : LimiterConfig → LimiterConfig
with_defaults c = record c {
  per_user_request_burst = if leb c.per_user_request_burst 0 then 100 else c.per_user_request_burst;
}

-- The three global buckets of a configuration, at three consecutive pointers.
unfoldable pub make_globals : ℕ → LimiterConfig → Heap → Heap
make_globals now c h =
    let requests = request_limit c.global_qps c.global_qps_burst c.global_rpm c.global_rpm_burst in
    new_bucket (new_token_bucket requests.rate requests.burst now) (
      new_bucket
        (new_token_bucket (per_minute_rate c.global_rpm)
          (per_minute_burst c.global_rpm c.global_rpm_burst 10) now)
        (new_bucket
          (new_token_bucket (per_minute_rate c.global_tpm)
            (token_burst c.global_tpm c.global_token_burst 100) now)
          h))

unfoldable pub new_limiter : ℕ → LimiterConfig → Limiter
new_limiter now c = record {
  cfg = with_defaults c;
  global_token = 0;
  global_rpm = 1;
  global_requests = 2;
  user_tokens = [];
  tenant_tokens = new_bucket_map;
  tenant_rpm = new_bucket_map;
  provider_tokens = new_bucket_map;
  provider_rpm = new_bucket_map;
  model_tokens = new_bucket_map;
  model_rpm = new_bucket_map;
  heap = make_globals now c (record { cells = []; next = 0 });
}

unfoldable pub reload : ℕ → LimiterConfig → Limiter → Limiter
reload now c l =
    let first = l.heap.next in
    record l {
      cfg = with_defaults c;
      global_token = first;
      global_rpm = first + 1;
      global_requests = first + 2;
      user_tokens = [];
      heap = make_globals now c l.heap;
    }
