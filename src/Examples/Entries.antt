-- ===== src/Examples/Entries.antt =====
-- The theorems on internal/service/cache at small caches.
use gateyes.Common.{ℕ, ◌+◌, ◌≡◌, ◌&&◌, none, some, List, [], ◌∷◌, ltb, leb, if◌then◌else◌}
use gateyes.Cache.{hit, miss}
use gateyes.Cache.Memory
use gateyes.Cache.Memory.{MemEntry, MemoryCache, new_memory_cache, find, remove, drop_back, evict}
use gateyes.Cache.Memory.Order.{back_key}
use gateyes.Cache.Memory.Valid.{IsValid, Call, gets, sets, step, run, run-new_memory_cache}
use gateyes.Cache.Memory.Reads.{get-set}
use gateyes.Cache.Layers.{Pair}

-- A cache of two entries, both taken.
abbrev two : List (Call ℕ)
two = sets none 0 "a" (some 1) 5 ∷ sets none 1 "b" (some 2) 0 ∷ gets none 2 "a" ∷ []

abbrev full : MemoryCache ℕ
full = run (new_memory_cache 2 0) two

abbrev full-IsValid : IsValid full
full-IsValid = run-new_memory_cache 2 0 two

run-new_memory_cache_example : IsValid (run (new_memory_cache {V = ℕ} 2 0) two)
run-new_memory_cache_example = run-new_memory_cache 2 0 two

get-set_example :
    let chosen = if leb 5 0 then full.def_ttl else 5 in
    (Memory.get none 9 "c" (Memory.set none 3 "c" (some 7) 5 full).0).1
    ≡ (if ltb 0 chosen && ltb (3 + chosen) 9 then miss else hit 7)
get-set_example = get-set 3 9 "c" 7 5 full full-IsValid

program : Unit {0}
unfolding new_memory_cache find remove drop_back evict step run back_key Memory.get Memory.set
    Memory.put Memory.expiry Memory.expired
program = tt

abbrev layered : Pair (MemoryCache ℕ) (MemoryCache ℕ)
layered = record { first = none; second = some full }
