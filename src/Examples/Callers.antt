-- ===== src/Examples/Callers.antt =====
-- The theorems on who may call, applied to a key and a virtual key below it.
use gateyes.Common.{
  ◌≡◌, ◌⊎◌, refl, String, Bool, true, none, [], ◌∷◌, ℕ, ◌==◌, string_eq, if◌then◌else◌, lookup,
  insert, pos,
}
use gateyes.Auth.{
  AuthIdentity, VirtualKey, not_found, ok, err, AuthStore, authenticate, authenticate_api_key,
  authenticate_virtual_key, overlay, check_model, check_provider, contains, is_identity_active,
  has_expired, verify_identity, get_cached, set_cached,
}
use gateyes.Auth.Cached.{Attempt}
use gateyes.Auth.Recent.{run, IsRecent, IsDelegated, authenticate-IsVouched}
use gateyes.Auth.Restricted.{permits, authenticate_virtual_key-permits}

-- A secret fits a hash that is the same text.
abbrev same_text : String → String → Bool
same_text secret hash = secret == hash

abbrev parent : AuthIdentity
parent = record {
  api_key_id = "k-1";
  secret_hash = "s1";
  api_status = "active";
  api_key_expires_at = none;
  api_key_models = [];
  api_key_providers = [];
  api_key_services = [];
  api_key_rate_limit_qps = pos 0;
  user_status = "active";
  tenant_status = "active";
  role = "user";
  quota = pos 0;
  used = pos 0;
  qps = pos 5;
  models = "m-1" ∷ "m-2" ∷ [];
  virtual_key_id = "";
  virtual_key_budget = pos 0;
  virtual_key_spent = pos 0;
  virtual_key_policy = "";
  callback_url = "";
}

abbrev narrow : VirtualKey
narrow = record {
  id = "v-1";
  api_key_id = "k-1";
  secret_hash = "s2";
  budget = pos 0;
  spent = pos 0;
  policy = "";
  rate_limit_qps = pos 1;
  allowed_models = "m-1" ∷ [];
  allowed_providers = [];
  callback_url = "";
}

abbrev store : AuthStore
store = record {
  authenticate = λ key. if key == "k-1" then ok parent else err not_found;
  authenticate_virtual_key = λ key. if key == "vk" then ok narrow else err not_found;
}

abbrev login : ℕ → Attempt
login now = record { store = store; now = now; key = "k-1"; secret = "s1" }

let_in :
    (authenticate same_text 30 store 25 "k-1" "s1" (run same_text 30 (login 10 ∷ []))).1 ≡ ok parent
unfolding authenticate authenticate_api_key run get_cached set_cached verify_identity
    is_identity_active has_expired lookup insert
let_in = refl

authenticate-IsVouched_example :
    IsRecent same_text 30 (login 25) (login 10 ∷ []) parent
    ⊎ IsDelegated same_text 30 (login 25) parent
authenticate-IsVouched_example =
    authenticate-IsVouched same_text 30 (login 25) (login 10 ∷ []) parent let_in

delegated :
    authenticate_virtual_key same_text store "vk" "s2" ≡ ok (overlay same_text narrow parent)
unfolding authenticate_virtual_key is_identity_active
delegated = refl

may_use_model : check_model (overlay same_text narrow parent) "m-1" ≡ true
unfolding check_model overlay contains
may_use_model = refl

may_use_provider : check_provider (overlay same_text narrow parent) "openai" ≡ true
unfolding check_provider overlay contains
may_use_provider = refl

authenticate_virtual_key-permits_example :
    (permits narrow.allowed_models "m-1" ≡ true)
    × (permits narrow.allowed_providers "openai" ≡ true)
    × (permits (overlay same_text narrow parent).models "m-1" ≡ true)
authenticate_virtual_key-permits_example =
    authenticate_virtual_key-permits same_text store "vk" "s2" narrow
      (overlay same_text narrow parent) "m-1" "openai" refl delegated may_use_model may_use_provider
