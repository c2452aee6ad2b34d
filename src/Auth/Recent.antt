-- ===== src/Auth/Recent.antt =====
-- Whom `Authenticate` of internal/service/auth/auth.go lets in: the cache answers for the store no longer
-- than its time to live.
use gateyes.Common.{
  ℕ, ◌+◌, ◌≤◌, ◌≡◌, ◌⊎◌, refl, sym, subst, ap, ◌∙◌, String, Bool, true, false, Option, none, some,
  List, [], ◌∷◌, nat_eq, string_eq, if◌then◌else◌, arith, Bool-cases, Option-cases, inl, inr,
}
use gateyes.Auth.{
  AuthIdentity, VirtualKey, AuthError, is_not_found, invalid_api_key, inactive_api_key, Result, ok,
  err, IdentityCache, is_identity_active, get_cached, verify_identity, verified,
  authenticate_api_key, overlay, authenticate_virtual_key, as_invalid, authenticate,
}
use gateyes.Auth.Cached.{
  Attempt, Answered, IsRecorded, IsRecorded-later, set_cached-IsRecorded, get_cached-Answered,
}

Result-cases {ℓ} :
    {A : Type ℓ} (r : Result A) → ((e : AuthError) × (r ≡ err e)) ⊎ ((a : A) × (r ≡ ok a))
Result-cases (ok a) = inr (a, refl)
Result-cases (err e) = inl (e, refl)

either_cache :
    (b : Bool) (c : IdentityCache) (r s : Result AuthIdentity)
    → (if◌then◌else◌ {A = IdentityCache × Result AuthIdentity} b (c, r) (c, s)).0 ≡ c
either_cache true c r s = refl
either_cache false c r s = refl

abbrev value_or {ℓ} : {A : Type ℓ} → A → Result A → A
value_or x (ok y) = y
value_or x (err e) = x

pub ok_inj {ℓ} : {A : Type ℓ} {x y : A} → ok x ≡ ok y → x ≡ y
ok_inj {x = x} e = ap (value_or x) e

err≢ok {ℓ} : {A : Type ℓ} {e : AuthError} {a : A} → ¬ (err e ≡ ok a)
err≢ok h = ground arith

module _ (verify_secret : String → String → Bool) (ttl : ℕ) where
  -- The cache after the calls, of which the last one comes first.
  unfoldable pub run : List Attempt → IdentityCache
  run [] = []
  run (x ∷ xs) = (authenticate verify_secret ttl x.store x.now x.key x.secret (run xs)).0

  cache_after :
      (x : Attempt) (cache : IdentityCache)
      → (authenticate verify_secret ttl x.store x.now x.key x.secret cache).0
        ≡ (authenticate_api_key verify_secret ttl x.store x.now x.key x.secret cache).0
  unfolding authenticate
  cache_after x cache =
      elim (Result-cases
        (authenticate_api_key verify_secret ttl x.store x.now x.key x.secret cache).1) [
          | inr (a, e) ↦ rw (e, authenticate) refl
          | inl (e, q) ↦ rw (q, authenticate) (either_cache (is_not_found e) _ _ _)
        ]

  authenticate_api_key-IsRecorded :
      (x : Attempt) (xs : List Attempt) (cache : IdentityCache)
      → IsRecorded ttl xs cache
      → IsRecorded ttl
          (x ∷ xs)
          (authenticate_api_key verify_secret ttl x.store x.now x.key x.secret cache).0
  unfolding authenticate_api_key
  authenticate_api_key-IsRecorded x xs cache h =
      let later = IsRecorded-later ttl x xs cache h in
      elim (Option-cases (get_cached x.now x.key cache)) [
        | inr (a, g) ↦ rw (g, authenticate_api_key) later
        | inl g ↦ elim (Result-cases (x.store.authenticate x.key)) [
          | inl (e, q) ↦ rw (g, q, authenticate_api_key) later
          | inr (a, q) ↦ elim (Option-cases (verify_identity verify_secret x.now a x.secret)) [
            | inr (e, v) ↦ rw (g, q, v, authenticate_api_key) later
            | inl v ↦
                rw (g, q, v, authenticate_api_key)
                  (set_cached-IsRecorded ttl x.now (x ∷ xs) x.key a cache (inl (refl, refl, q))
                    later)
          ]
        ]
      ]

  run-IsRecorded : (xs : List Attempt) → IsRecorded ttl xs (run xs)
  unfolding run
  run-IsRecorded [] = tt
  run-IsRecorded (x ∷ xs) =
      rw (cache_after x (run xs))
        (authenticate_api_key-IsRecorded x xs (run xs) (run-IsRecorded xs))

  -- The identity is verified at the time of the call, and the store answered it in one of the calls, no
  -- longer ago than the time to live.
  abbrev pub IsRecent : Attempt → List Attempt → AuthIdentity → Type 0
  IsRecent x xs a =
      (verify_identity verify_secret x.now a x.secret ≡ none)
      × ((t : ℕ) × (x.now ≤ t + ttl) × Answered x.key a t (x ∷ xs))

  verified-ok :
      (v : Option AuthError) (b a : AuthIdentity)
      → verified verify_secret v b ≡ ok a
      → (v ≡ none) × (b ≡ a)
  verified-ok none b a h = (refl, ok_inj h)
  verified-ok (some e) b a h = absurd (err≢ok h)

  authenticate_api_key-IsRecent :
      (x : Attempt) (xs : List Attempt) (a : AuthIdentity) (cache : IdentityCache)
      → IsRecorded ttl xs cache
      → (authenticate_api_key verify_secret ttl x.store x.now x.key x.secret cache).1 ≡ ok a
      → IsRecent x xs a
  unfolding authenticate_api_key
  authenticate_api_key-IsRecent x xs a cache h r =
      elim (Option-cases (get_cached x.now x.key cache)) [
        | inr (b, g) ↦
            let e : (authenticate_api_key verify_secret ttl x.store x.now x.key x.secret cache).1
                ≡ verified verify_secret (verify_identity verify_secret x.now b x.secret) b =
              rw (g, authenticate_api_key) refl in
            let (v, same) =
              verified-ok (verify_identity verify_secret x.now b x.secret) b a (sym e ∙ r) in
            let (t, l, s) = get_cached-Answered ttl x.now xs x.key cache b h g in
            subst (IsRecent x xs) same (v, (t, l, inr s))
        | inl g ↦ elim (Result-cases (x.store.authenticate x.key)) [
          | inl (e, q) ↦
              let f : (authenticate_api_key verify_secret ttl x.store x.now x.key x.secret cache).1
                  ≡ err e =
                rw (g, q, authenticate_api_key) refl in
              absurd (err≢ok (sym f ∙ r))
          | inr (b, q) ↦ elim (Option-cases (verify_identity verify_secret x.now b x.secret)) [
            | inr (e, v) ↦
                let f : (authenticate_api_key verify_secret ttl x.store x.now x.key x.secret
                      cache).1
                    ≡ err e =
                  rw (g, q, v, authenticate_api_key) refl in
                absurd (err≢ok (sym f ∙ r))
            | inl v ↦
                let f : (authenticate_api_key verify_secret ttl x.store x.now x.key x.secret
                      cache).1
                    ≡ ok b =
                  rw (g, q, v, authenticate_api_key) refl in
                subst (IsRecent x xs) (ok_inj (sym f ∙ r))
                  (v, (x.now, omega arith, inl (refl, refl, q)))
          ]
        ]
      ]

  -- The identity is that of a key above a virtual key, with the virtual key's changes; the secret is the
  -- virtual key's, and the key above it is active.
  abbrev pub IsDelegated : Attempt → AuthIdentity → Type 0
  IsDelegated x a =
      (vk : VirtualKey) × (parent : AuthIdentity) × (x.store.authenticate_virtual_key x.key ≡ ok vk)
      × (verify_secret x.secret vk.secret_hash ≡ true)
      × (x.store.authenticate vk.api_key_id ≡ ok parent)
      × (is_identity_active parent ≡ true)
      × (overlay verify_secret vk parent ≡ a)

  pub authenticate_virtual_key-IsDelegated :
      (x : Attempt) (a : AuthIdentity)
      → authenticate_virtual_key verify_secret x.store x.key x.secret ≡ ok a
      → IsDelegated x a
  unfolding authenticate_virtual_key
  authenticate_virtual_key-IsDelegated x a r =
      elim (Result-cases (x.store.authenticate_virtual_key x.key)) [
        | inl (e, q) ↦
            let f : authenticate_virtual_key verify_secret x.store x.key x.secret ≡ err e =
              rw (q, authenticate_virtual_key) refl in
            absurd (err≢ok (sym f ∙ r))
        | inr (vk, q) ↦ elim (Bool-cases (verify_secret x.secret vk.secret_hash)) [
          | inr n ↦
              let f : authenticate_virtual_key verify_secret x.store x.key x.secret
                  ≡ err invalid_api_key =
                rw (q, n, authenticate_virtual_key) refl in
              absurd (err≢ok (sym f ∙ r))
          | inl y ↦ elim (Result-cases (x.store.authenticate vk.api_key_id)) [
            | inl (e, p) ↦
                let f : authenticate_virtual_key verify_secret x.store x.key x.secret
                    ≡ err invalid_api_key =
                  rw (q, y, p, authenticate_virtual_key) refl in
                absurd (err≢ok (sym f ∙ r))
            | inr (parent, p) ↦ elim (Bool-cases (is_identity_active parent)) [
              | inr n ↦
                  let f : authenticate_virtual_key verify_secret x.store x.key x.secret
                      ≡ err inactive_api_key =
                    rw (q, y, p, n, authenticate_virtual_key) refl in
                  absurd (err≢ok (sym f ∙ r))
              | inl i ↦
                  let f : authenticate_virtual_key verify_secret x.store x.key x.secret
                      ≡ ok (overlay verify_secret vk parent) =
                    rw (q, y, p, i, authenticate_virtual_key) refl in
                  (vk, parent, q, y, p, i, ok_inj (sym f ∙ r))
            ]
          ]
        ]
      ]

  as_invalid-ok :
      (r : Result AuthIdentity) (a : AuthIdentity) → as_invalid verify_secret r ≡ ok a → r ≡ ok a
  as_invalid-ok (ok b) a h = h
  as_invalid-ok (err e) a h = elim (Bool-cases (is_not_found e)) [
    | inl y ↦ absurd (ground (arith, h, y))
    | inr n ↦ absurd (ground (arith, h, n))
  ]

  -- After any calls, a call of `Authenticate` that lets an identity in has verified it: it is active, has
  -- not expired, and the secret fits, and the store answered it for this key in one of the calls, no longer
  -- ago than the time to live. Or it is that of an active key above a virtual key of the store whose secret
  -- fits, with the virtual key's changes.
  pub authenticate-IsVouched :
      (x : Attempt) (xs : List Attempt) (a : AuthIdentity)
      → (authenticate verify_secret ttl x.store x.now x.key x.secret (run xs)).1 ≡ ok a
      → IsRecent x xs a ⊎ IsDelegated x a
  unfolding authenticate
  authenticate-IsVouched x xs a r =
      let first = authenticate_api_key verify_secret ttl x.store x.now x.key x.secret (run xs) in
      elim (Result-cases first.1) [
        | inr (b, q) ↦
            let f : (authenticate verify_secret ttl x.store x.now x.key x.secret (run xs)).1
                ≡ ok b =
              rw (q, authenticate) refl in
            inl
              (authenticate_api_key-IsRecent x xs a (run xs) (run-IsRecorded xs) (q ∙ (sym f ∙ r)))
        | inl (e, q) ↦ elim (Bool-cases (is_not_found e)) [
          | inl y ↦
              let f : (authenticate verify_secret ttl x.store x.now x.key x.secret (run xs)).1
                  ≡ as_invalid verify_secret
                      (authenticate_virtual_key verify_secret x.store x.key x.secret) =
                rw (q, y, authenticate) refl in
              inr (authenticate_virtual_key-IsDelegated x a (as_invalid-ok _ a (sym f ∙ r)))
          | inr n ↦
              let f : (authenticate verify_secret ttl x.store x.now x.key x.secret (run xs)).1
                  ≡ err e =
                rw (q, n, authenticate) refl in
              absurd (err≢ok (sym f ∙ r))
        ]
      ]
