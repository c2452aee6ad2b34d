-- ===== src/Limiter/Admission.antt =====
-- `Check`, `buildLimitSpecs` and `localCheck` of internal/service/limiter/limiter.go, with no Redis
-- client. `cancelled` is whether the request's context has ended, at its two readings.
use gateyes.Common.{
  ℕ, ◌-◌, ◌*◌, String, Bool, true, false, ◌||◌, Option, none, some, List, [], ◌∷◌, ◌++◌, ltb, leb,
  ◌==◌, nat_eq, string_eq, if◌then◌else◌, lookup, insert,
}
use gateyes.Limiter.Bucket.{token, refill_locked}
use gateyes.Limiter.Rates.{Limit, per_minute_rate, token_burst, request_limit}
use gateyes.Limiter.{BucketMap, Heap, Limiter, get_or_create}

pub record LimitRequest : Type 0 where
  pub tenant_id : String
  pub provider : String
  pub model : String
  pub tokens : ℕ

pub record Decision : Type 0 where
  pub allowed : Bool
  pub reason : String
  pub scope : String

abbrev pub allow : Decision
allow = record { allowed = true; reason = ""; scope = "" }

abbrev pub cancelled_context : Decision
cancelled_context = record { allowed = false; reason = "context_cancelled"; scope = "" }

unfoldable pub provider_scoped : Decision → Bool
provider_scoped d = d.scope == "provider"

pub record LimitSpec : Type 0 where
  pub bucket : ℕ
  pub consume : ℕ
  pub reason : String
  pub scope : String

-- The first loop of `localCheck`: refill in turn, and stop at the first bucket that has too little.
unfoldable pub check_specs : ℕ → List LimitSpec → Heap → Heap × Option Decision
check_specs now [] h = (h, none)
check_specs now (s ∷ specs) h = elim (lookup s.bucket h.cells) [
  | none ↦ check_specs now specs h
  | some b ↦
      if ltb (refill_locked now b).tokens (s.consume * token)
      then (
        record h { cells = insert s.bucket (refill_locked now b) h.cells },
        some (record { allowed = false; reason = s.reason; scope = s.scope }),
      )
      else check_specs now specs
          (record h { cells = insert s.bucket (refill_locked now b) h.cells })
]

-- The second loop: `spec.bucket.tokens -= consume`.
unfoldable pub deduct_specs : List LimitSpec → Heap → Heap
deduct_specs [] h = h
deduct_specs (s ∷ specs) h = elim (lookup s.bucket h.cells) [
  | none ↦ deduct_specs specs h
  | some b ↦ deduct_specs specs (record h {
    cells = insert s.bucket (record b { tokens = b.tokens - s.consume * token }) h.cells;
  })
]

unfoldable pub local_check : Bool → ℕ → List LimitSpec → Heap → Heap × Decision
local_check true now specs h = (h, cancelled_context)
local_check false now specs h =
    let (h', denied) = check_specs now specs h in
    elim denied [ some d ↦ (h', d) | none ↦ (deduct_specs specs h', allow) ]

-- `add` for a bucket of the limiter's own.
unfoldable pub add_global :
    ℕ → ℕ → ℕ → ℕ → String → Limiter × List LimitSpec → Limiter × List LimitSpec
add_global p rate burst consume reason (l, specs) =
    if leb rate 0 || leb burst 0 then (l, specs) else (
      l,
      specs ++ record { bucket = p; consume = consume; reason = reason; scope = "global" } ∷ [],
    )

-- `add` for a bucket of a map, which is made where there is none.
unfoldable pub add_keyed :
    ℕ
    → (Limiter → BucketMap)
    → (BucketMap → Limiter → Limiter)
    → String
    → String
    → ℕ
    → ℕ
    → ℕ
    → String
    → Limiter × List LimitSpec
    → Limiter × List LimitSpec
add_keyed now map_of with_map scope id rate burst consume reason (l, specs) =
    if leb rate 0 || leb burst 0
    then (l, specs)
    else (let (bm, h, p) = get_or_create now id rate burst (map_of l) l.heap in
        (
          with_map bm (record l { heap = h }),
          specs ++ record { bucket = p; consume = consume; reason = reason; scope = scope } ∷ [],
        ))

-- The two limits of a scope, tokens and requests, where the request names an id of it.
unfoldable pub add_scope :
    ℕ
    → (Limiter → BucketMap)
    → (BucketMap → Limiter → Limiter)
    → (Limiter → BucketMap)
    → (BucketMap → Limiter → Limiter)
    → String
    → String
    → String
    → String
    → ℕ
    → ℕ
    → Limit
    → ℕ
    → Limiter × List LimitSpec
    → Limiter × List LimitSpec
add_scope now tokens_of with_tokens rpm_of with_rpm scope token_reason qps_reason id tpm tpm_burst
      requests tokens st =
    if id == ""
    then st
    else add_keyed now rpm_of with_rpm scope id requests.rate requests.burst 1 qps_reason (
        add_keyed now tokens_of with_tokens scope id (per_minute_rate tpm)
          (token_burst tpm tpm_burst 0) tokens token_reason st)

unfoldable pub build_limit_specs : ℕ → LimitRequest → Limiter → Limiter × List LimitSpec
build_limit_specs now req l =
    let c = l.cfg in
    let requests = request_limit c.global_qps c.global_qps_burst c.global_rpm c.global_rpm_burst in
    let tenant = request_limit c.tenant_qps c.tenant_qps_burst c.tenant_rpm c.tenant_rpm_burst in
    let provider =
      request_limit c.provider_qps c.provider_qps_burst c.provider_rpm c.provider_rpm_burst in
    let model = request_limit c.model_qps c.model_qps_burst c.model_rpm c.model_rpm_burst in
    add_scope now (λ l. l.model_tokens) (λ bm l. record l { model_tokens = bm }) (λ l. l.model_rpm)
      (λ bm l. record l { model_rpm = bm }) "model" "model_tokens" "model_qps" req.model c.model_tpm
      c.model_tpm_burst model req.tokens
      (add_scope now (λ l. l.provider_tokens) (λ bm l. record l { provider_tokens = bm })
        (λ l. l.provider_rpm) (λ bm l. record l { provider_rpm = bm }) "provider" "provider_tokens"
        "provider_qps" req.provider c.provider_tpm c.provider_tpm_burst provider req.tokens
        (add_scope now (λ l. l.tenant_tokens) (λ bm l. record l { tenant_tokens = bm })
          (λ l. l.tenant_rpm) (λ bm l. record l { tenant_rpm = bm }) "tenant" "tenant_tokens"
          "tenant_qps" req.tenant_id c.tenant_tpm c.tenant_tpm_burst tenant req.tokens
          (add_global l.global_requests requests.rate requests.burst 1 "global_qps" (
            add_global l.global_token (per_minute_rate c.global_tpm)
              (token_burst c.global_tpm c.global_token_burst 100) req.tokens "global_tokens"
              (l, [])))))

unfoldable pub check : Bool → Bool → ℕ → LimitRequest → Limiter → Limiter × Decision
check true later now req l = (l, cancelled_context)
check false later now req l =
    let (l', specs) = build_limit_specs now req l in
    elim specs [
      | [] ↦ (l', allow)
      | s ∷ rest ↦
          let (h, d) = local_check later now (s ∷ rest) l'.heap in (record l' { heap = h }, d)
    ]
