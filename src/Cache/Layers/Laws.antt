-- ===== src/Cache/Layers/Laws.antt =====
-- What the two wrappers of internal/service/cache keep of the caches that they wrap, and that the
-- memory cache has the laws which they ask for.
use gateyes.Common.{
  ℕ, ◌+◌, ◌≡◌, refl, ap, ◌∙◌, String, Option, none, some, ◌≢◌, ◌⊎◌, inl, inr, false, ◌&&◌, ltb, leb,
  arith, if◌then◌else◌,
}
use gateyes.Cache.{Reply, hit, miss, failed, CacheOps}
use gateyes.Cache.Memory
use gateyes.Cache.Memory.{MemoryCache}
use gateyes.Cache.Memory.Valid.{IsValid}
use gateyes.Cache.Memory.Reads.{get-set, get-delete}
use gateyes.Cache.Layers.{Pair, layered_get, layered_set, delete_both, fallback_get, fallback_set}

-- At states where it holds, a read gives back what was just written, and misses what was just
-- deleted.
pub record IsCache {ℓ} {S V : Type ℓ} (ops : CacheOps S V) (Good : S → Type ℓ) : Type ℓ where
  pub reads_back :
      (now : ℕ) (k : String) (v : V) (ttl : ℕ) (s : S)
      → Good s
      → (ops.get none now k (ops.set none now k (some v) ttl s).0).1 ≡ hit v
  pub misses_deleted :
      (now : ℕ) (k : String) (s : S)
      → Good s
      → (ops.get none now k (ops.delete none k s).0).1 ≡ miss

abbrev pub memory_ops {ℓ} : {V : Type ℓ} → CacheOps (MemoryCache V) V
memory_ops = record { get = Memory.get; set = Memory.set; delete = Memory.delete }

-- The state of a cache that is there holds the property.
abbrev pub IfSome {ℓ} : {S : Type ℓ} → (S → Type ℓ) → Option S → Type ℓ
IfSome Good none = Unit
IfSome Good (some s) = Good s

not_past : (now ttl : ℕ) → (ltb 0 ttl && ltb (now + ttl) now) ≡ false
not_past now ttl = ground arith

memory_reads_back {ℓ} :
    {V : Type ℓ} (now : ℕ) (k : String) (v : V) (ttl : ℕ) (c : MemoryCache V)
    → IsValid c
    → (Memory.get none now k (Memory.set none now k (some v) ttl c).0).1 ≡ hit v
memory_reads_back now k v ttl c g =
    get-set now now k v ttl c g
    ∙ ap (λ b. if b then miss else hit v) (not_past now (if leb ttl 0 then c.def_ttl else ttl))

-- The memory cache satisfies the laws, at every valid state.
pub memory_ops-IsCache {ℓ} : {V : Type ℓ} → IsCache {V = V} memory_ops IsValid
memory_ops-IsCache = record {
  reads_back = memory_reads_back;
  misses_deleted = λ now k c g. get-delete now k c g;
}

module _ {ℓ} {S T V : Type ℓ} (ops : CacheOps S V) (ops' : CacheOps T V) {Good : S → Type ℓ}
    {Good' : T → Type ℓ} (law : IsCache ops Good) (law' : IsCache ops' Good') where
  layered_reads_back :
      (now : ℕ) (k : String) (v : V) (ttl : ℕ) (s : Option S) (t : Option T)
      → IfSome Good s
      → IfSome Good' t
      → (s ≢ none) ⊎ (t ≢ none)
      → let c =
          (layered_set ops ops' none now k (some v) ttl (record { first = s; second = t })).0 in
        (layered_get ops ops' none now k c.first c.second).1 ≡ hit v
  unfolding layered_set layered_get
  layered_reads_back now k v ttl none none g g' h = absurd (ground arith)
  layered_reads_back now k v ttl none (some t) g g' h =
      ground (arith, law'.reads_back now k v ttl t g')
  layered_reads_back now k v ttl (some s) t g g' h = ground (arith, law.reads_back now k v ttl s g)

  -- A layered cache with at least one layer reads back what it has just written, if each layer that
  -- is there does.
  pub layered_get-layered_set :
      (now : ℕ) (k : String) (v : V) (ttl : ℕ) (c : Pair S T)
      → IfSome Good c.first
      → IfSome Good' c.second
      → (c.first ≢ none) ⊎ (c.second ≢ none)
      → let c' = (layered_set ops ops' none now k (some v) ttl c).0 in
        (layered_get ops ops' none now k c'.first c'.second).1 ≡ hit v
  layered_get-layered_set now k v ttl c g g' h =
      layered_reads_back now k v ttl c.first c.second g g' h

  deleted_misses :
      (now : ℕ) (k : String) (s : Option S) (t : Option T)
      → IfSome Good s
      → IfSome Good' t
      → let c = (delete_both ops ops' none k (record { first = s; second = t })).0 in
        ((layered_get ops ops' none now k c.first c.second).1 ≡ miss)
        × ((fallback_get ops ops' none now k c.first c.second).1 ≡ miss)
  unfolding delete_both layered_get fallback_get
  deleted_misses now k none none g g' = (refl, refl)
  deleted_misses now k none (some t) g g' = ground (arith, law'.misses_deleted now k t g')
  deleted_misses now k (some s) none g g' = ground (arith, law.misses_deleted now k s g)
  deleted_misses now k (some s) (some t) g g' =
      ground (arith, law.misses_deleted now k s g, law'.misses_deleted now k t g')

  -- Both wrappers miss what they have just deleted, whichever of their caches are there.
  pub get-delete_both :
      (now : ℕ) (k : String) (c : Pair S T)
      → IfSome Good c.first
      → IfSome Good' c.second
      → let c' = (delete_both ops ops' none k c).0 in
        ((layered_get ops ops' none now k c'.first c'.second).1 ≡ miss)
        × ((fallback_get ops ops' none now k c'.first c'.second).1 ≡ miss)
  get-delete_both now k c g g' = deleted_misses now k c.first c.second g g'

no_hit {ℓ} :
    {V : Type ℓ} (r : Reply V)
    → ((x : V) → r ≢ hit x)
    → (r ≡ miss) ⊎ ((e : String) × (r ≡ failed e))
no_hit (hit x) h = absurd (h x refl)
no_hit miss h = inl refl
no_hit (failed e) h = inr (e, refl)

-- While the primary cache is out, so that its reads hit nothing and its writes may fail, the
-- fallback still serves what was written; the write reports the primary's error.
pub fallback_get-fallback_set {ℓ} :
    {S T V : Type ℓ} (ops : CacheOps S V) (ops' : CacheOps T V) {Good' : T → Type ℓ}
    (law' : IsCache ops' Good') (now : ℕ) (k : String) (v : V) (ttl : ℕ) (s : S) (t : T)
    → ((x : V) (s' : S) → (ops.get none now k s').1 ≢ hit x)
    → Good' t
    → let r =
        fallback_set ops ops' none now k
          (some v)
          ttl
          (record { first = some s; second = some t }) in
      ((fallback_get ops ops' none now k (r.0).first (r.0).second).1 ≡ hit v)
      × (r.1 ≡ (ops.set none now k (some v) ttl s).1)
unfolding fallback_set fallback_get
fallback_get-fallback_set ops ops' law' now k v ttl s t out g =
    elim (no_hit (ops.get none now k (ops.set none now k (some v) ttl s).0).1 (λ x. out x _)) [
      | inl e ↦ ground (arith, e, law'.reads_back now k v ttl t g)
      | inr (error, e) ↦ ground (arith, e, law'.reads_back now k v ttl t g)
    ]
