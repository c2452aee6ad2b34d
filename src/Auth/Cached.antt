-- ===== src/Auth/Cached.antt =====
-- The cache of internal/service/auth/auth.go holds answers of the store.
use gateyes.Common.{
  ℕ, ◌+◌, ◌%◌, ◌≤◌, ◌≡◌, ◌⊎◌, refl, sym, subst, String, false, some, List, [], ◌∷◌, length, ltb,
  ◌==◌, nat_eq, string_eq, lookup, insert, arith, All, Bool-cases, inl, inr, ==→≡,
}
use gateyes.Auth.{
  AuthIdentity, ok, AuthStore, CachedIdentity, IdentityCache, get_cached, evict_expired, set_cached,
}

-- A call of `Authenticate`, with what the store answers at that time.
pub record Attempt : Type 0 where
  pub store : AuthStore
  pub now : ℕ
  pub key : String
  pub secret : String

-- In one of the calls, at the time `t`, the store answered the identity for the key.
abbrev pub Answered : String → AuthIdentity → ℕ → List Attempt → Type 0
Answered key a t [] = ⊥
Answered key a t (x ∷ xs) =
    ((x.now ≡ t) × (x.key ≡ key) × (x.store.authenticate key ≡ ok a)) ⊎ Answered key a t xs

-- Each entry of the cache is an answer of the store and expires a time to live later.
abbrev pub IsRecorded : ℕ → List Attempt → IdentityCache → Type 0
IsRecorded ttl xs cache =
    All (λ e. (t : ℕ) × (e.1.expires ≡ t + ttl) × Answered e.0 e.1.identity t xs) cache

pub IsRecorded-later :
    (ttl : ℕ) (x : Attempt) (xs : List Attempt) (cache : IdentityCache)
    → IsRecorded ttl xs cache
    → IsRecorded ttl (x ∷ xs) cache
IsRecorded-later ttl x xs [] h = tt
IsRecorded-later ttl x xs (e ∷ cache) ((t, p, a), hs) =
    ((t, p, inr a), IsRecorded-later ttl x xs cache hs)

insert-IsRecorded :
    (ttl : ℕ) (xs : List Attempt) (key : String) (c : CachedIdentity) (cache : IdentityCache)
    → ((t : ℕ) × (c.expires ≡ t + ttl) × Answered key c.identity t xs)
    → IsRecorded ttl xs cache
    → IsRecorded ttl xs (insert key c cache)
unfolding insert
insert-IsRecorded ttl xs key c [] h hs = (h, tt)
insert-IsRecorded ttl xs key c ((k, e) ∷ cache) h (g, hs) = elim (Bool-cases (k == key)) [
  | inl y ↦ rw y (
    subst (λ j. (t : ℕ) × (c.expires ≡ t + ttl) × Answered j c.identity t xs) (sym (==→≡ k key y))
        h,
    hs,
  )
  | inr y ↦ rw y (g, insert-IsRecorded ttl xs key c cache h hs)
]

evict_expired-IsRecorded :
    (ttl now : ℕ) (xs : List Attempt) (cache : IdentityCache)
    → IsRecorded ttl xs cache
    → IsRecorded ttl xs (evict_expired now cache)
unfolding evict_expired
evict_expired-IsRecorded ttl now xs [] h = tt
evict_expired-IsRecorded ttl now xs ((k, e) ∷ cache) (g, hs) =
    elim (Bool-cases (ltb e.expires now)) [
      | inl y ↦ rw y (evict_expired-IsRecorded ttl now xs cache hs)
      | inr y ↦ rw y (g, evict_expired-IsRecorded ttl now xs cache hs)
    ]

pub set_cached-IsRecorded :
    (ttl now : ℕ) (xs : List Attempt) (key : String) (a : AuthIdentity) (cache : IdentityCache)
    → Answered key a now xs
    → IsRecorded ttl xs cache
    → IsRecorded ttl xs (set_cached ttl now key a cache)
unfolding set_cached
set_cached-IsRecorded ttl now xs key a cache h hs =
    let stored = insert key (record { identity = a; expires = now + ttl }) cache in
    let kept = insert-IsRecorded ttl xs key _ cache (now, refl, h) hs in
    elim (Bool-cases (length stored % 64 == 0)) [
      | inl y ↦ rw y (evict_expired-IsRecorded ttl now xs stored kept)
      | inr y ↦ rw y kept
    ]

pub get_cached-Answered :
    (ttl now : ℕ) (xs : List Attempt) (key : String) (cache : IdentityCache) (a : AuthIdentity)
    → IsRecorded ttl xs cache
    → get_cached now key cache ≡ some a
    → (t : ℕ) × (now ≤ t + ttl) × Answered key a t xs
unfolding get_cached lookup
get_cached-Answered ttl now xs key [] a h g = absurd (ground arith)
get_cached-Answered ttl now xs key ((k, e) ∷ cache) a ((t, p, s), hs) g =
    elim (Bool-cases (k == key)) [
      | inl y ↦
          let live : ltb e.expires now ≡ false = ground (arith, g, y) in
          let same : e.identity ≡ a = ground (arith, g, y) in
          let named = subst (λ j. Answered j e.identity t xs) (==→≡ k key y) s in
          (t, ground (arith, live, p), subst (λ (b : AuthIdentity). Answered key b t xs) same named)
      | inr y ↦ get_cached-Answered ttl now xs key cache a hs (ground (arith, g, y))
    ]
