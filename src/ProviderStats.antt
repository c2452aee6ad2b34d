-- ===== src/ProviderStats.antt =====
-- internal/service/provider/stats.go: what the gateway has seen of each provider. The locks and the
-- atomic operations make each call one step, at the time `now`, in nanoseconds. Counters do not wrap.
pub mod Window
pub mod Minute
pub mod Calls
pub mod Counters
use gateyes.Common.{
  ℕ, zero, suc, ◌+◌, ◌-◌, ◌*◌, ◌/◌, ◌%◌, String, Bool, true, false, ◌&&◌, ◌||◌, not, Option, none,
  some, List, [], ◌∷◌, map, ltb, leb, ◌==◌, nat_eq, string_eq, if◌then◌else◌, Map, lookup, insert,
  delete, ℤ, pos, ◌+ℤ◌, ◌-ℤ◌, ltb_ℤ,
}

pub record TokenBucket : Type 0 where
  pub timestamp : ℕ
  pub tokens : ℤ

-- `[60]tokenBucket` is a function of the index.
pub record ProviderStats : Type 0 where
  pub name : String
  pub p_type : String
  pub model : String
  pub base_url : String
  pub status : String
  pub current_load : ℤ
  pub total_requests : ℤ
  pub success_requests : ℤ
  pub failed_requests : ℤ
  pub total_tokens : ℤ
  pub latency_sum : ℤ
  pub latency_count : ℤ
  pub min_latency_ms : ℤ
  pub max_latency_ms : ℤ
  pub ttft_sum : ℤ
  pub ttft_count : ℤ
  pub min_ttft_ms : ℤ
  pub max_ttft_ms : ℤ
  pub last_request : ℕ
  pub updated_at : ℕ
  pub buckets : ℕ → TokenBucket

abbrev pub Stats : Type 0
Stats = Map String ProviderStats

abbrev pub new_stats : Stats
new_stats = []

-- `now.Unix()`.
abbrev pub unix : ℕ → ℕ
unix now = now / 1000000000

-- The entry that `Register` makes for a provider.
unfoldable pub fresh : ℕ → String → String → String → String → ProviderStats
fresh now name p_type model base_url = record {
  name = name;
  p_type = p_type;
  model = model;
  base_url = base_url;
  status = "healthy";
  current_load = pos 0;
  total_requests = pos 0;
  success_requests = pos 0;
  failed_requests = pos 0;
  total_tokens = pos 0;
  latency_sum = pos 0;
  latency_count = pos 0;
  min_latency_ms = pos 0;
  max_latency_ms = pos 0;
  ttft_sum = pos 0;
  ttft_count = pos 0;
  min_ttft_ms = pos 0;
  max_ttft_ms = pos 0;
  last_request = 0;
  updated_at = now;
  buckets = λ i. record { timestamp = 0; tokens = pos 0 };
}

unfoldable pub register : ℕ → String → String → String → String → Stats → Stats
register now name p_type model base_url s = insert name (fresh now name p_type model base_url) s

unfoldable pub unregister : String → Stats → Stats
unregister name s = delete name s

-- `s.providerStats[name]`, and what is done with it if it is there.
unfoldable pub at_entry : String → (ProviderStats → ProviderStats) → Stats → Stats
at_entry name f s = elim (lookup name s) [ none ↦ s | some a ↦ insert name (f a) s ]

-- The loop that lowers a minimum: a value of 0 counts as none.
unfoldable pub lower_min : ℤ → ℤ → ℤ
lower_min value cur =
    if (ltb_ℤ cur (pos 0) || ltb_ℤ (pos 0) cur) && not (ltb_ℤ value cur) then cur else value

unfoldable pub raise_max : ℤ → ℤ → ℤ
raise_max value cur = if not (ltb_ℤ cur value) then cur else value

-- The bucket of the second: it starts anew when it was of another second.
unfoldable pub add_tokens : ℕ → ℤ → (ℕ → TokenBucket) → ℕ → TokenBucket
add_tokens second tokens buckets i =
    let b = buckets i in
    let old = if b.timestamp == second then b.tokens else pos 0 in
    if i == second % 60 then record { timestamp = second; tokens = old +ℤ tokens } else b

unfoldable pub recorded : ℕ → Bool → ℤ → ℤ → ProviderStats → ProviderStats
recorded now success tokens latency_ms a = record a {
  total_requests = a.total_requests +ℤ pos 1;
  total_tokens = a.total_tokens +ℤ tokens;
  success_requests = if success then a.success_requests +ℤ pos 1 else a.success_requests;
  failed_requests = if success then a.failed_requests else a.failed_requests +ℤ pos 1;
  latency_sum = a.latency_sum +ℤ latency_ms;
  latency_count = a.latency_count +ℤ pos 1;
  min_latency_ms = lower_min latency_ms a.min_latency_ms;
  max_latency_ms = raise_max latency_ms a.max_latency_ms;
  last_request = now;
  updated_at = now;
  buckets = add_tokens (unix now) tokens a.buckets;
}

unfoldable pub record_request : ℕ → String → Bool → ℤ → ℤ → Stats → Stats
record_request now name success tokens latency_ms s =
    at_entry name (recorded now success tokens latency_ms) s

unfoldable pub ttft_recorded : ℕ → ℤ → ProviderStats → ProviderStats
ttft_recorded now ttft_ms a = record a {
  ttft_sum = a.ttft_sum +ℤ ttft_ms;
  ttft_count = a.ttft_count +ℤ pos 1;
  min_ttft_ms = lower_min ttft_ms a.min_ttft_ms;
  max_ttft_ms = raise_max ttft_ms a.max_ttft_ms;
  updated_at = now;
}

unfoldable pub record_ttft : ℕ → String → ℤ → Stats → Stats
record_ttft now name ttft_ms s =
    if not (ltb_ℤ (pos 0) ttft_ms) then s else at_entry name (ttft_recorded now ttft_ms) s

unfoldable pub increment_load : ℕ → String → Stats → Stats
increment_load now name s =
    at_entry name (λ a. record a { current_load = a.current_load +ℤ pos 1; updated_at = now }) s

unfoldable pub load_decremented : ℕ → ProviderStats → ProviderStats
load_decremented now a =
    if not (ltb_ℤ (pos 0) a.current_load)
    then a
    else record a { current_load = a.current_load -ℤ pos 1; updated_at = now }

unfoldable pub decrement_load : ℕ → String → Stats → Stats
decrement_load now name s = at_entry name (load_decremented now) s

unfoldable pub set_status : ℕ → String → String → Stats → Stats
set_status now name status s = at_entry name (λ a. record a { status = status; updated_at = now }) s

-- The loop of `TPM` over the first `n` buckets.
unfoldable pub sum_buckets : ℕ → ℕ → (ℕ → TokenBucket) → ℤ
sum_buckets cutoff zero buckets = pos 0
sum_buckets cutoff (suc n) buckets =
    let b = buckets n in
    let rest = sum_buckets cutoff n buckets in
    if leb cutoff b.timestamp then rest +ℤ b.tokens else rest

unfoldable pub tpm : ℕ → String → Stats → ℤ
tpm now name s = elim (lookup name s) [
  | none ↦ pos 0
  | some a ↦ sum_buckets (unix now - 60) 60 a.buckets
]

unfoldable pub current_load : String → Stats → ℤ
current_load name s = elim (lookup name s) [ none ↦ pos 0 | some a ↦ a.current_load ]

-- The sums of `GlobalStats`; the average latency is the last one by the first, if that is positive.
pub record GlobalStats : Type 0 where
  pub total_requests : ℤ
  pub success_requests : ℤ
  pub failed_requests : ℤ
  pub total_tokens : ℤ
  pub total_latency : ℤ

unfoldable pub global_stats : Stats → GlobalStats
global_stats [] = record {
  total_requests = pos 0;
  success_requests = pos 0;
  failed_requests = pos 0;
  total_tokens = pos 0;
  total_latency = pos 0;
}
global_stats ((name, a) ∷ s) =
    let rest = global_stats s in
    record {
      total_requests = rest.total_requests +ℤ a.total_requests;
      success_requests = rest.success_requests +ℤ a.success_requests;
      failed_requests = rest.failed_requests +ℤ a.failed_requests;
      total_tokens = rest.total_tokens +ℤ a.total_tokens;
      total_latency = rest.total_latency +ℤ a.latency_sum;
    }
