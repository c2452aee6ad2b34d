-- ===== src/Auth/Restricted.antt =====
-- What an identity may do that a virtual key of internal/service/auth/auth.go stands for.
use gateyes.Common.{
  ◌≡◌, sym, subst, ap, ◌∙◌, String, Bool, true, ◌||◌, List, length, leb, arith, Bool-cases, inl,
  inr,
}
use gateyes.Auth.{
  AuthIdentity, VirtualKey, ok, AuthStore, overlay, authenticate_virtual_key, contains, check_model,
  check_provider,
}
use gateyes.Auth.Recent.{authenticate_virtual_key-IsDelegated, ok_inj}

-- An empty list permits every name.
abbrev pub permits : List String → String → Bool
permits allowed name = leb (length allowed) 0 || contains allowed name

overlay-permits :
    (verify_secret : String → String → Bool) (vk : VirtualKey) (parent : AuthIdentity)
    (model name : String)
    → check_model (overlay verify_secret vk parent) model ≡ true
    → check_provider (overlay verify_secret vk parent) name ≡ true
    → (permits vk.allowed_models model ≡ true)
      × (permits vk.allowed_providers name ≡ true)
      × (permits parent.models model ≡ true)
unfolding overlay check_model check_provider
overlay-permits verify_secret vk parent model name m p =
    elim (Bool-cases (leb (length vk.allowed_models) 0)) [
      | inl y ↦ ground arith
      | inr n ↦ ground arith
    ]

-- For an identity that a virtual key stands for: a model and a provider that the checks let through are
-- on the virtual key's lists, and the model on that of the user, where these lists are not empty.
pub authenticate_virtual_key-permits :
    (verify_secret : String → String → Bool) (store : AuthStore) (key secret : String)
    (vk : VirtualKey) (a : AuthIdentity) (model name : String)
    → store.authenticate_virtual_key key ≡ ok vk
    → authenticate_virtual_key verify_secret store key secret ≡ ok a
    → check_model a model ≡ true
    → check_provider a name ≡ true
    → (permits vk.allowed_models model ≡ true)
      × (permits vk.allowed_providers name ≡ true)
      × (permits a.models model ≡ true)
unfolding overlay
authenticate_virtual_key-permits verify_secret store key secret vk a model name s r m p =
    let (w, parent, q, y, g, i, e) =
      authenticate_virtual_key-IsDelegated verify_secret 0
        (record { store = store; now = 0; key = key; secret = secret }) a r in
    let same : w ≡ vk = ok_inj (sym q ∙ s) in
    let same_models : parent.models ≡ a.models = ap (λ (b : AuthIdentity). b.models) e in
    let (x, z, u) =
      overlay-permits verify_secret w parent model name
        (subst (λ b. check_model b model ≡ true) (sym e) m)
        (subst (λ b. check_provider b name ≡ true) (sym e) p) in
    (
      subst (λ (v : VirtualKey). permits v.allowed_models model ≡ true) same x,
      subst (λ (v : VirtualKey). permits v.allowed_providers name ≡ true) same z,
      subst (λ l. permits l model ≡ true) same_models u,
    )
