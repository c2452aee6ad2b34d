-- ===== src/Cache/Memory/Valid.antt =====
-- The invariant of internal/service/cache/memory_cache.go: never more entries than the capacity, and
-- never a key twice.
use gateyes.Common.{
  ℕ, ◌≤◌, ◌<◌, ◌≡◌, refl, String, Option, none, some, List, [], ◌∷◌, arith, length, Option-cases,
  Bool-cases, inl, inr, string_eq,
}
use gateyes.Cache.Memory.{
  MemEntry, MemoryCache, new_memory_cache, find, remove, expired, get, expiry, put, set, delete,
}
use gateyes.Cache.Memory.Order.{
  AreDistinct, find-key, find-remove_self, remove-AreDistinct, length-remove-le, length-remove,
  length-take-le, evict-take, take-AreDistinct,
}

pub record IsValid {ℓ} {V : Type ℓ} (c : MemoryCache V) : Type ℓ where
  pub positive : 0 < c.capacity
  pub bounded : length c.list ≤ c.capacity
  pub distinct : AreDistinct c.list

module _ {ℓ} {V : Type ℓ} where
  pub new_memory_cache-IsValid :
      (capacity ttl : ℕ) → IsValid (new_memory_cache {V = V} capacity ttl)
  unfolding new_memory_cache
  new_memory_cache-IsValid capacity ttl = record {
    positive = ground arith;
    bounded = omega arith;
    distinct = tt;
  }

  front-AreDistinct :
      (e : MemEntry V) (k : String) (l : List (MemEntry V))
      → e.key ≡ k
      → AreDistinct l
      → AreDistinct (e ∷ remove k l)
  front-AreDistinct e k l same d = (rw same (find-remove_self k l d), remove-AreDistinct k l d)

  get-IsValid :
      (ctx : Option String) (now : ℕ) (k : String) (c : MemoryCache V)
      → IsValid c
      → IsValid (get ctx now k c).0
  unfolding get
  get-IsValid (some error) now k c v = v
  get-IsValid none now k c v = elim (Option-cases (find k c.list)) [
    | inl absent ↦
        rw (absent, get)
          (record { positive = v.positive; bounded = v.bounded; distinct = v.distinct })
    | inr (e, found) ↦
        rw (found, get)
          (elim (Bool-cases (expired now e)) [
            | inl late ↦ rw late (record {
              positive = v.positive;
              bounded = omega (arith, v.bounded, length-remove-le k c.list);
              distinct = remove-AreDistinct k c.list v.distinct;
            })
            | inr alive ↦ rw alive (record {
              positive = v.positive;
              bounded = omega (arith, v.bounded, length-remove k c.list e found);
              distinct = front-AreDistinct e k c.list (find-key k c.list e found) v.distinct;
            })
          ])
  ]

  put-IsValid :
      (now : ℕ) (k : String) (x : V) (ttl : ℕ) (c : MemoryCache V)
      → IsValid c
      → IsValid (put now k x ttl c)
  unfolding put
  put-IsValid now k x ttl c v = elim (Option-cases (find k c.list)) [
    | inr (e, found) ↦
        rw (found, put)
          (record {
            positive = v.positive;
            bounded = omega (arith, v.bounded, length-remove k c.list e found);
            distinct = front-AreDistinct entry k c.list refl v.distinct;
          })
    | inl absent ↦
        rw (absent, put)
          (rw (evict-take (length (entry ∷ c.list)) c.capacity (entry ∷ c.list) (omega arith))
            (record {
              positive = v.positive;
              bounded = length-take-le c.capacity (entry ∷ c.list);
              distinct = take-AreDistinct c.capacity (entry ∷ c.list) (absent, v.distinct);
            }))
  ]
    where
      entry : MemEntry V
      entry = record { key = k; value = x; expires_at = expiry now c.def_ttl ttl }

  set-IsValid :
      (ctx : Option String) (now : ℕ) (k : String) (x : Option V) (ttl : ℕ) (c : MemoryCache V)
      → IsValid c
      → IsValid (set ctx now k x ttl c).0
  unfolding set
  set-IsValid (some error) now k x ttl c v = v
  set-IsValid none now k none ttl c v = v
  set-IsValid none now k (some x) ttl c v = put-IsValid now k x ttl c v

  delete-IsValid :
      (ctx : Option String) (k : String) (c : MemoryCache V)
      → IsValid c
      → IsValid (delete ctx k c).0
  unfolding delete
  delete-IsValid (some error) k c v = v
  delete-IsValid none k c v = record {
    positive = v.positive;
    bounded = omega (arith, v.bounded, length-remove-le k c.list);
    distinct = remove-AreDistinct k c.list v.distinct;
  }

pub data Call {ℓ} (V : Type ℓ) : Type ℓ where
  gets : Option String → ℕ → String → Call V
  sets : Option String → ℕ → String → Option V → ℕ → Call V
  deletes : Option String → String → Call V

module _ {ℓ} {V : Type ℓ} where
  unfoldable pub step : MemoryCache V → Call V → MemoryCache V
  step c (gets ctx now k) = (get ctx now k c).0
  step c (sets ctx now k x ttl) = (set ctx now k x ttl c).0
  step c (deletes ctx k) = (delete ctx k c).0

  unfoldable pub run : MemoryCache V → List (Call V) → MemoryCache V
  run c [] = c
  run c (call ∷ calls) = run (step c call) calls

  step-IsValid : (c : MemoryCache V) (call : Call V) → IsValid c → IsValid (step c call)
  unfolding step
  step-IsValid c (gets ctx now k) v = get-IsValid ctx now k c v
  step-IsValid c (sets ctx now k x ttl) v = set-IsValid ctx now k x ttl c v
  step-IsValid c (deletes ctx k) v = delete-IsValid ctx k c v

  run-IsValid : (c : MemoryCache V) (calls : List (Call V)) → IsValid c → IsValid (run c calls)
  unfolding run
  run-IsValid c [] v = v
  run-IsValid c (call ∷ calls) v = run-IsValid (step c call) calls (step-IsValid c call v)

  -- After any calls a cache holds at most as many entries as its capacity, none twice, and the
  -- capacity is not zero, whatever was configured.
  pub run-new_memory_cache :
      (capacity ttl : ℕ) (calls : List (Call V))
      → IsValid (run (new_memory_cache capacity ttl) calls)
  run-new_memory_cache capacity ttl calls =
      run-IsValid _ calls (new_memory_cache-IsValid capacity ttl)
