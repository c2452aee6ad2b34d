-- ===== src/Router/Order/Best.antt =====
-- The strategies of `orderByStrategyLocked` in internal/service/router/router.go that sort put the best
-- candidate first.
use gateyes.Common.{
  ◌⊎◌, ℕ, ◌<◌, ◌≤ℤ◌, ◌+ℤ◌, add_parts, pos, All, some, ◌≡◌, refl, String, Bool, true, false, Option,
  none, List, [], ◌∷◌, length, leb, string_eq, Map, ℤ, arith, Bool-cases, inl, inr,
}
use gateyes.Router.{Provider}
use gateyes.Router.Strategies.{
  Signals, Random, Stats, less_load, less_known, less_tpm, less_cost, avg_latency, kv_cache_usage,
  gpu_cache_usage, slice_stable, tpm_of,
}
use gateyes.Router.Strategies.Sorted.{
  IsOrder, IsSorted, slice_stable-IsSorted, less_cost-IsOrder, less_tpm-IsOrder, less_known-IsOrder,
  less_load-IsOrder,
}
use gateyes.Router.Order.{order_by_strategy}

-- A strategy that sorts, by what it sorts.
pub data Sorting : Type 0 where
  by_latency : Sorting
  by_kv_cache : Sorting
  by_gpu_cache : Sorting
  by_tpm : Sorting
  by_cost : Sorting

abbrev pub strategy_of : Sorting → String
strategy_of by_latency = "least_latency"
strategy_of by_kv_cache = "least_kv_cache"
strategy_of by_gpu_cache = "least_gpu_cache"
strategy_of by_tpm = "least_tpm"
strategy_of by_cost = "cost_based"

abbrev test_of : Signals → Sorting → Provider → Provider → Bool
test_of sig by_latency = less_known (avg_latency sig)
test_of sig by_kv_cache = less_known (kv_cache_usage sig)
test_of sig by_gpu_cache = less_known (gpu_cache_usage sig)
test_of sig by_tpm = less_tpm sig
test_of sig by_cost = less_cost

test_of-IsOrder : (sig : Signals) (s : Sorting) → IsOrder (test_of sig s)
test_of-IsOrder sig by_latency = less_known-IsOrder (avg_latency sig)
test_of-IsOrder sig by_kv_cache = less_known-IsOrder (kv_cache_usage sig)
test_of-IsOrder sig by_gpu_cache = less_known-IsOrder (gpu_cache_usage sig)
test_of-IsOrder sig by_tpm = less_tpm-IsOrder sig
test_of-IsOrder sig by_cost = less_cost-IsOrder

short-IsSorted :
    (less : Provider → Provider → Bool) (ps : List Provider)
    → leb (length ps) 1 ≡ true
    → IsSorted less ps
short-IsSorted less [] h = tt
short-IsSorted less (p ∷ []) h = (tt, tt)
short-IsSorted less (p ∷ q ∷ ps) h = absurd (ground arith)

order_by_strategy-sort :
    (sig : Signals) (rand : Random) (s : Sorting) (ps : List Provider) (m : Map String ℤ)
    → leb (length ps) 1 ≡ false
    → (order_by_strategy sig rand (strategy_of s) ps m).1 ≡ slice_stable (test_of sig s) ps
unfolding order_by_strategy
order_by_strategy-sort sig rand by_latency ps m h = rw h refl
order_by_strategy-sort sig rand by_kv_cache ps m h = rw h refl
order_by_strategy-sort sig rand by_gpu_cache ps m h = rw h refl
order_by_strategy-sort sig rand by_tpm ps m h = rw h refl
order_by_strategy-sort sig rand by_cost ps m h = rw h refl

-- With the strategies least_latency, least_kv_cache, least_gpu_cache, least_tpm and cost_based no
-- candidate comes before one that the strategy's test puts before it.
order_by_strategy-IsSorted :
    (sig : Signals) (rand : Random) (s : Sorting) (ps : List Provider) (m : Map String ℤ)
    → IsSorted (test_of sig s) (order_by_strategy sig rand (strategy_of s) ps m).1
unfolding order_by_strategy
order_by_strategy-IsSorted sig rand s ps m = elim (Bool-cases (leb (length ps) 1)) [
  | inl h ↦ rw h (short-IsSorted (test_of sig s) ps h)
  | inr h ↦
      rw (order_by_strategy-sort sig rand s ps m h)
        (slice_stable-IsSorted (test_of sig s) (test_of-IsOrder sig s) ps)
]

-- `p` may stand before `q` by a value that one of them may lack: who has one comes first, then the
-- smaller one, then the greater weight.
abbrev KnownFirst : Option ℕ → Option ℕ → ℤ → ℤ → Type 0
KnownFirst none none wp wq = wq ≤ℤ wp
KnownFirst none (some b) wp wq = ⊥
KnownFirst (some a) none wp wq = Unit
KnownFirst (some a) (some b) wp wq = (a < b) ⊎ ((a ≡ b) × (wq ≤ℤ wp))

-- What a strategy promises of two candidates of which the first stands before the second.
abbrev pub MayPrecede : Signals → Sorting → Provider → Provider → Type 0
MayPrecede sig by_latency p q =
    KnownFirst (avg_latency sig p.name) (avg_latency sig q.name) p.weight q.weight
MayPrecede sig by_kv_cache p q =
    KnownFirst (kv_cache_usage sig p.name) (kv_cache_usage sig q.name) p.weight q.weight
MayPrecede sig by_gpu_cache p q =
    KnownFirst (gpu_cache_usage sig p.name) (gpu_cache_usage sig q.name) p.weight q.weight
MayPrecede sig by_tpm p q =
    (tpm_of sig p.name +ℤ pos 1 ≤ℤ tpm_of sig q.name)
    ⊎ ((tpm_of sig p.name ≤ℤ tpm_of sig q.name) × (q.weight ≤ℤ p.weight))
MayPrecede sig by_cost p q =
    (p.unit_cost < q.unit_cost) ⊎ ((p.unit_cost ≡ q.unit_cost) × (q.weight ≤ℤ p.weight))

known-MayPrecede :
    (value : String → Option ℕ) (p q : Provider)
    → less_known value q p ≡ false
    → KnownFirst (value p.name) (value q.name) p.weight q.weight
unfolding less_known
known-MayPrecede value p q h = ground arith

tpm-MayPrecede :
    (sig : Signals) (p q : Provider) → less_tpm sig q p ≡ false → MayPrecede sig by_tpm p q
unfolding less_tpm
tpm-MayPrecede sig p q h = ground (arith, add_parts (tpm_of sig p.name) (pos 1))

cost-MayPrecede :
    (sig : Signals) (p q : Provider) → less_cost q p ≡ false → MayPrecede sig by_cost p q
unfolding less_cost
cost-MayPrecede sig p q h = ground arith

test_of-MayPrecede :
    (sig : Signals) (s : Sorting) (p q : Provider)
    → test_of sig s q p ≡ false
    → MayPrecede sig s p q
test_of-MayPrecede sig by_latency p q h = known-MayPrecede (avg_latency sig) p q h
test_of-MayPrecede sig by_kv_cache p q h = known-MayPrecede (kv_cache_usage sig) p q h
test_of-MayPrecede sig by_gpu_cache p q h = known-MayPrecede (gpu_cache_usage sig) p q h
test_of-MayPrecede sig by_tpm p q h = tpm-MayPrecede sig p q h
test_of-MayPrecede sig by_cost p q h = cost-MayPrecede sig p q h

-- Every two candidates in a list stand as the strategy promises.
abbrev pub InOrder : Signals → Sorting → List Provider → Type 0
InOrder sig s [] = Unit
InOrder sig s (p ∷ ps) = All (MayPrecede sig s p) ps × InOrder sig s ps

All-imp :
    {P Q : Provider → Type 0}
    → ((q : Provider) → P q → Q q)
    → (ps : List Provider) → All P ps
    → All Q ps
All-imp f [] h = tt
All-imp f (p ∷ ps) (h, hs) = (f p h, All-imp f ps hs)

IsSorted-InOrder :
    (sig : Signals) (s : Sorting) (ps : List Provider)
    → IsSorted (test_of sig s) ps
    → InOrder sig s ps
IsSorted-InOrder sig s [] h = tt
IsSorted-InOrder sig s (p ∷ ps) (h, hs) =
    (All-imp (test_of-MayPrecede sig s p) ps h, IsSorted-InOrder sig s ps hs)

-- Of any two candidates in the order that a strategy gives, the first one has: with least_latency,
-- least_kv_cache and least_gpu_cache a value where the second has none or a smaller one, with
-- least_tpm fewer tokens, with cost_based a lower cost; or the same (or none, like the second) and
-- no less weight.
pub order_by_strategy-InOrder :
    (sig : Signals) (rand : Random) (s : Sorting) (ps : List Provider) (m : Map String ℤ)
    → InOrder sig s (order_by_strategy sig rand (strategy_of s) ps m).1
order_by_strategy-InOrder sig rand s ps m =
    IsSorted-InOrder sig s _ (order_by_strategy-IsSorted sig rand s ps m)

-- Without inference metrics, the strategy least_load puts no candidate before one with less load of this
-- process, or with the same load and more weight.
pub order_by_strategy-least_load :
    (stats : Option Stats) (rand : Random) (ps : List Provider) (m : Map String ℤ)
    → IsSorted
        (less_load (record { scraper = none; stats = stats }))
        (order_by_strategy (record { scraper = none; stats = stats }) rand "least_load" ps m).1
unfolding order_by_strategy
order_by_strategy-least_load stats rand ps m = elim (Bool-cases (leb (length ps) 1)) [
  | inl h ↦ rw h (short-IsSorted _ ps h)
  | inr h ↦ rw h (slice_stable-IsSorted _ (less_load-IsOrder stats) ps)
]
