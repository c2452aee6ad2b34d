-- ===== src/Cache/Memory/Counters.antt =====
-- The statistics of internal/service/cache/memory_cache.go.
use gateyes.Common.{ℕ, ◌+◌, ◌≡◌, String, none, some, List, [], ◌∷◌, arith}
use gateyes.Cache.Memory.{MemoryCache, get, put, set, delete}
use gateyes.Cache.Memory.Valid.{Call, gets, sets, deletes, step, run}

module _ {ℓ} {V : Type ℓ} where
  -- The calls whose context has not ended: the reads, and the writes of an entry.
  abbrev pub reads : List (Call V) → ℕ
  reads [] = 0
  reads (gets none now k ∷ calls) = 1 + reads calls
  reads (gets (some error) now k ∷ calls) = reads calls
  reads (sets ctx now k x ttl ∷ calls) = reads calls
  reads (deletes ctx k ∷ calls) = reads calls

  abbrev pub writes : List (Call V) → ℕ
  writes [] = 0
  writes (gets ctx now k ∷ calls) = writes calls
  writes (sets none now k (some x) ttl ∷ calls) = 1 + writes calls
  writes (sets none now k none ttl ∷ calls) = writes calls
  writes (sets (some error) now k x ttl ∷ calls) = writes calls
  writes (deletes ctx k ∷ calls) = writes calls

  get_counts :
      (now : ℕ) (k : String) (c : MemoryCache V)
      → ((get none now k c).0.stats.hits + (get none now k c).0.stats.misses
          ≡ 1 + c.stats.hits + c.stats.misses)
        × ((get none now k c).0.stats.writes ≡ c.stats.writes)
  unfolding get
  get_counts now k c = ground arith

  put_counts :
      (now : ℕ) (k : String) (x : V) (ttl : ℕ) (c : MemoryCache V)
      → ((put now k x ttl c).stats.hits ≡ c.stats.hits)
        × ((put now k x ttl c).stats.misses ≡ c.stats.misses)
        × ((put now k x ttl c).stats.writes ≡ 1 + c.stats.writes)
  unfolding put
  put_counts now k x ttl c = ground arith

  -- Hits and misses add up to the reads, and writes count the entries written, over any calls.
  pub run_counts :
      (c : MemoryCache V) (calls : List (Call V))
      → ((run c calls).stats.hits + (run c calls).stats.misses
          ≡ c.stats.hits + c.stats.misses + reads calls)
        × ((run c calls).stats.writes ≡ c.stats.writes + writes calls)
  unfolding run step set delete get
  run_counts c [] = omega arith
  run_counts c (gets none now k ∷ calls) =
      omega (arith, get_counts now k c, run_counts (get none now k c).0 calls)
  run_counts c (gets (some error) now k ∷ calls) = run_counts c calls
  run_counts c (sets (some error) now k x ttl ∷ calls) = run_counts c calls
  run_counts c (sets none now k none ttl ∷ calls) = run_counts c calls
  run_counts c (sets none now k (some x) ttl ∷ calls) =
      omega (arith, put_counts now k x ttl c, run_counts (put now k x ttl c) calls)
  run_counts c (deletes (some error) k ∷ calls) = run_counts c calls
  run_counts c (deletes none k ∷ calls) = run_counts _ calls
