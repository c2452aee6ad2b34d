-- ===== src/Auth.antt =====
-- internal/service/auth/auth.go without Redis (`rdb == nil`): who a request's key stands for, and what
-- that identity may do. The store and the check of a secret are parameters. The wall clock and the
-- monotonic clock are one clock. Of an identity the fields are those that the file reads or writes.
pub mod Cached
pub mod Recent
pub mod Restricted
use gateyes.Common.{
  ℕ, ◌+◌, ◌%◌, String, Bool, true, false, ◌&&◌, ◌||◌, not, Option, none, some, List, [], ◌∷◌, ◌++◌,
  length, ltb, leb, ◌==◌, nat_eq, string_eq, if◌then◌else◌, Map, lookup, insert, ℤ, pos, ◌+ℤ◌,
  ltb_ℤ,
}

pub record AuthIdentity : Type 0 where
  pub api_key_id : String
  pub secret_hash : String
  pub api_status : String
  pub api_key_expires_at : Option ℕ
  pub api_key_models : List String
  pub api_key_providers : List String
  pub api_key_services : List String
  pub api_key_rate_limit_qps : ℤ
  pub user_status : String
  pub tenant_status : String
  pub role : String
  pub quota : ℤ
  pub used : ℤ
  pub qps : ℤ
  pub models : List String
  pub virtual_key_id : String
  pub virtual_key_budget : ℤ
  pub virtual_key_spent : ℤ
  pub virtual_key_policy : String
  pub callback_url : String

pub record VirtualKey : Type 0 where
  pub id : String
  pub api_key_id : String
  pub secret_hash : String
  pub budget : ℤ
  pub spent : ℤ
  pub policy : String
  pub rate_limit_qps : ℤ
  pub allowed_models : List String
  pub allowed_providers : List String
  pub callback_url : String

pub data AuthError : Type 0 where
  not_found : AuthError
  invalid_api_key : AuthError
  inactive_api_key : AuthError
  expired_api_key : AuthError
  quota_exceeded : AuthError
  budget_exceeded : AuthError
  store_error : String → AuthError

-- `errors.Is(err, repository.ErrNotFound)`.
abbrev pub is_not_found : AuthError → Bool
is_not_found not_found = true
is_not_found invalid_api_key = false
is_not_found inactive_api_key = false
is_not_found expired_api_key = false
is_not_found quota_exceeded = false
is_not_found budget_exceeded = false
is_not_found (store_error m) = false

pub data Result {ℓ} (A : Type ℓ) : Type ℓ where
  ok : A → Result A
  err : AuthError → Result A

-- What `repository.Store` answers at the time of a call.
pub record AuthStore : Type 0 where
  pub authenticate : String → Result AuthIdentity
  pub authenticate_virtual_key : String → Result VirtualKey

pub record CachedIdentity : Type 0 where
  pub identity : AuthIdentity
  pub expires : ℕ

abbrev pub IdentityCache : Type 0
IdentityCache = Map String CachedIdentity

unfoldable pub is_identity_active : AuthIdentity → Bool
is_identity_active a =
    a.api_status == "active" && a.user_status == "active" && a.tenant_status == "active"

-- `identity.APIKeyExpiresAt != nil && now.After(*identity.APIKeyExpiresAt)`.
unfoldable pub has_expired : ℕ → AuthIdentity → Bool
has_expired now a = elim a.api_key_expires_at [ none ↦ false | some t ↦ ltb t now ]

unfoldable pub get_cached : ℕ → String → IdentityCache → Option AuthIdentity
get_cached now key cache = elim (lookup key cache) [
  | none ↦ none
  | some e ↦ if ltb e.expires now then none else some e.identity
]

-- The loop that evicts the entries that have expired.
unfoldable pub evict_expired : ℕ → IdentityCache → IdentityCache
evict_expired now [] = []
evict_expired now ((k, e) ∷ cache) =
    let rest = evict_expired now cache in if ltb e.expires now then rest else (k, e) ∷ rest

unfoldable pub set_cached : ℕ → ℕ → String → AuthIdentity → IdentityCache → IdentityCache
set_cached ttl now key identity cache =
    let stored = insert key (record { identity = identity; expires = now + ttl }) cache in
    if length stored % 64 == 0 then evict_expired now stored else stored

module _ (verify_secret : String → String → Bool) where
  unfoldable pub verify_identity : ℕ → AuthIdentity → String → Option AuthError
  verify_identity now a secret =
      if not (is_identity_active a)
      then some inactive_api_key
      else if has_expired now a
      then some expired_api_key
      else if not (verify_secret secret a.secret_hash)
      then some invalid_api_key
      else none

  abbrev pub verified : Option AuthError → AuthIdentity → Result AuthIdentity
  verified none a = ok a
  verified (some e) a = err e

  unfoldable pub authenticate_api_key :
      ℕ → AuthStore → ℕ → String → String → IdentityCache → IdentityCache × Result AuthIdentity
  authenticate_api_key ttl store now key secret cache = elim (get_cached now key cache) [
    | some a ↦ (cache, verified (verify_identity now a secret) a)
    | none ↦ elim (store.authenticate key) [
      | err e ↦ (cache, err e)
      | ok a ↦ elim (verify_identity now a secret) [
        | some e ↦ (cache, err e)
        | none ↦ (set_cached ttl now key a cache, ok a)
      ]
    ]
  ]

  -- What a virtual key changes of the identity of the key above it.
  unfoldable pub overlay : VirtualKey → AuthIdentity → AuthIdentity
  overlay vk parent =
      let budgeted = ltb_ℤ (pos 0) vk.budget in
      record parent {
        virtual_key_id = vk.id;
        virtual_key_budget = if budgeted then vk.budget else parent.virtual_key_budget;
        virtual_key_spent = if budgeted then vk.spent else parent.virtual_key_spent;
        virtual_key_policy = if budgeted then vk.policy else parent.virtual_key_policy;
        api_key_rate_limit_qps =
            if ltb_ℤ (pos 0) vk.rate_limit_qps
            then vk.rate_limit_qps
            else parent.api_key_rate_limit_qps;
        api_key_models =
            if leb (length vk.allowed_models) 0 then parent.api_key_models else vk.allowed_models;
        api_key_providers =
            if leb (length vk.allowed_providers) 0
            then parent.api_key_providers
            else vk.allowed_providers;
        callback_url = vk.callback_url;
      }

  unfoldable pub authenticate_virtual_key : AuthStore → String → String → Result AuthIdentity
  authenticate_virtual_key store key secret = elim (store.authenticate_virtual_key key) [
    | err e ↦ err e
    | ok vk ↦
        if not (verify_secret secret vk.secret_hash)
        then err invalid_api_key
        else elim (store.authenticate vk.api_key_id) [
          | err e ↦ err invalid_api_key
          | ok parent ↦
              if is_identity_active parent then ok (overlay vk parent) else err inactive_api_key
        ]
  ]

  -- The last lines of `Authenticate`.
  abbrev pub as_invalid : Result AuthIdentity → Result AuthIdentity
  as_invalid (ok a) = ok a
  as_invalid (err e) = if is_not_found e then err invalid_api_key else err e

  unfoldable pub authenticate :
      ℕ → AuthStore → ℕ → String → String → IdentityCache → IdentityCache × Result AuthIdentity
  authenticate ttl store now key secret cache =
      let (cache', answer) = authenticate_api_key ttl store now key secret cache in
      elim answer [
        | ok a ↦ (cache', ok a)
        | err e ↦
            if is_not_found e
            then (cache', as_invalid (authenticate_virtual_key store key secret))
            else (cache', err e)
      ]

unfoldable pub contains : List String → String → Bool
contains [] target = false
contains (v ∷ vs) target = if v == target then true else contains vs target

unfoldable pub check_model : AuthIdentity → String → Bool
check_model a model =
    if leb (length a.models) 0 && leb (length a.api_key_models) 0
    then true
    else if ltb 0 (length a.models) && not (contains a.models model)
    then false
    else if ltb 0 (length a.api_key_models) && not (contains a.api_key_models model)
    then false
    else true

unfoldable pub check_provider : AuthIdentity → String → Bool
check_provider a name =
    if leb (length a.api_key_providers) 0 then true else contains a.api_key_providers name

-- `normal` is strings.ToLower after strings.TrimSpace.
unfoldable pub check_service : (String → String) → AuthIdentity → String → Bool
check_service normal a prefix =
    if leb (length a.api_key_services) 0 then true else contains a.api_key_services (normal prefix)

unfoldable pub effective_rate_limit_qps : Option AuthIdentity → ℤ
effective_rate_limit_qps none = pos 0
effective_rate_limit_qps (some a) =
    if ltb_ℤ (pos 0) a.api_key_rate_limit_qps then a.api_key_rate_limit_qps else a.qps

unfoldable pub has_quota : AuthIdentity → ℤ → Bool
has_quota a tokens =
    if not (ltb_ℤ (pos 0) a.quota) then true else not (ltb_ℤ a.quota (a.used +ℤ tokens))

unfoldable pub has_role : String → List String → Bool
has_role role [] = false
has_role role (candidate ∷ allowed) = if role == candidate then true else has_role role allowed

-- `RequireRole`: whether the identity has one of the roles.
unfoldable pub require_role : Option AuthIdentity → List String → Bool
require_role none roles = false
require_role (some a) roles = has_role a.role roles

-- What the store answers to the three calls of `recordUsage`, and those that were made.
pub record UsageStore : Type 0 where
  pub touch_api_key : Option AuthError
  pub consume_budgets : ℤ → ℤ → Result Bool
  pub create_usage_record : Option AuthError

pub data UsageCall : Type 0 where
  touches : UsageCall
  consumes : ℤ → ℤ → UsageCall
  creates : UsageCall

-- The calls and the error, for a cost and a number of tokens in all.
unfoldable pub record_usage : UsageStore → ℤ → ℤ → Bool → List UsageCall × Option AuthError
record_usage store cost total_tokens consume_quota =
    let tokens = if consume_quota then total_tokens else pos 0 in
    elim store.touch_api_key [
      | some e ↦ (touches ∷ [], some e)
      | none ↦
          if ltb_ℤ (pos 0) cost || consume_quota
          then elim (store.consume_budgets cost tokens) [
            | err e ↦ (touches ∷ consumes cost tokens ∷ [], some e)
            | ok false ↦ (touches ∷ consumes cost tokens ∷ [], some budget_exceeded)
            | ok true ↦ (touches ∷ consumes cost tokens ∷ creates ∷ [], store.create_usage_record)
          ]
          else (touches ∷ creates ∷ [], store.create_usage_record)
    ]

unfoldable pub record_billable_usage : UsageStore → ℤ → ℤ → List UsageCall × Option AuthError
record_billable_usage store cost total_tokens =
    record_usage store cost total_tokens (ltb_ℤ (pos 0) total_tokens)
