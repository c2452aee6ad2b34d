-- ===== src/Cache/Memory.antt =====
-- internal/service/cache/memory_cache.go: a cache that forgets the entry that was used least
-- recently. The list's elements and the map from keys to them change together, so the model keeps
-- the list and looks a key up in it. Entries are values: `Get` hands out a copy of what `Set`
-- stored. The counters do not wrap. The mutex makes each method one step at the time `now`.
pub mod Order
pub mod Valid
pub mod Reads
pub mod Counters
use gateyes.Common.{
  ℕ, zero, suc, ◌+◌, String, Bool, true, false, ◌&&◌, not, Option, none, some, List, [], ◌∷◌, ltb,
  leb, ◌==◌, string_eq, if◌then◌else◌, length,
}
use gateyes.Cache.{Reply, hit, miss, failed}

-- An `expires_at` of `none` is the zero time: the entry does not expire.
pub record MemEntry {ℓ} (V : Type ℓ) : Type ℓ where
  pub key : String
  pub value : V
  pub expires_at : Option ℕ

pub record Stats : Type 0 where
  pub hits : ℕ
  pub misses : ℕ
  pub writes : ℕ
  pub errors : ℕ

-- `list` has the entry used last in front.
pub record MemoryCache {ℓ} (V : Type ℓ) : Type ℓ where
  pub capacity : ℕ
  pub def_ttl : ℕ
  pub list : List (MemEntry V)
  pub stats : Stats

-- When an entry set at `now` with the ttl expires.
unfoldable pub expiry : ℕ → ℕ → ℕ → Option ℕ
expiry now def_ttl ttl =
    let chosen = if leb ttl 0 then def_ttl else ttl in
    if ltb 0 chosen then some (now + chosen) else none

module _ {ℓ} {V : Type ℓ} where
  unfoldable pub new_memory_cache : ℕ → ℕ → MemoryCache V
  new_memory_cache capacity default_ttl = record {
    capacity = if ltb capacity 1 then 1024 else capacity;
    def_ttl = default_ttl;
    list = [];
    stats = record { hits = 0; misses = 0; writes = 0; errors = 0 };
  }

  unfoldable pub find : String → List (MemEntry V) → Option (MemEntry V)
  find k [] = none
  find k (e ∷ l) = if e.key == k then some e else find k l

  -- `removeLocked` of the element with the key.
  unfoldable pub remove : String → List (MemEntry V) → List (MemEntry V)
  remove k [] = []
  remove k (e ∷ l) = if e.key == k then l else e ∷ remove k l

  -- `removeLocked(list.Back())`.
  unfoldable pub drop_back : List (MemEntry V) → List (MemEntry V)
  drop_back [] = []
  drop_back (e ∷ []) = []
  drop_back (e ∷ f ∷ l) = e ∷ drop_back (f ∷ l)

  -- `for list.Len() > capacity`, on the number of rounds left.
  unfoldable pub evict : ℕ → ℕ → List (MemEntry V) → List (MemEntry V)
  evict zero capacity l = l
  evict (suc rounds) capacity l =
      let rest = evict rounds capacity (drop_back l) in if ltb capacity (length l) then rest else l

  unfoldable pub expired : ℕ → MemEntry V → Bool
  expired now e = elim e.expires_at [ none ↦ false | some t ↦ ltb t now ]

  abbrev missed : MemoryCache V → MemoryCache V
  missed c = record c { stats = record (c.stats) { misses = c.stats.misses + 1 } }

  unfoldable pub get : Option String → ℕ → String → MemoryCache V → MemoryCache V × Reply V
  get (some error) now k c = (c, failed error)
  get none now k c = elim (find k c.list) [
    | none ↦ (missed c, miss)
    | some e ↦ if expired now e then (missed (record c { list = remove k c.list }), miss) else (
      record c { list = e ∷ remove k c.list; stats = record (c.stats) { hits = c.stats.hits + 1 } },
      hit e.value,
    )
  ]

  unfoldable pub put : ℕ → String → V → ℕ → MemoryCache V → MemoryCache V
  put now k v ttl c =
      let e : MemEntry V = record { key = k; value = v; expires_at = expiry now c.def_ttl ttl } in
      let written = record (c.stats) { writes = c.stats.writes + 1 } in
      elim (find k c.list) [
        | some old ↦ record c { list = e ∷ remove k c.list; stats = written }
        | none ↦ record c {
          list = evict (length (e ∷ c.list)) c.capacity (e ∷ c.list);
          stats = written;
        }
      ]

  unfoldable pub set :
      Option String → ℕ → String → Option V → ℕ → MemoryCache V → MemoryCache V × Option String
  set (some error) now k v ttl c = (c, some error)
  set none now k none ttl c = (c, some "cache: nil entry")
  set none now k (some v) ttl c = (put now k v ttl c, none)

  unfoldable pub delete : Option String → String → MemoryCache V → MemoryCache V × Option String
  delete (some error) k c = (c, some error)
  delete none k c = (record c { list = remove k c.list }, none)
