-- ===== src/Router/Strategies.antt =====
-- The strategies of `orderByStrategyLocked` in internal/service/router/router.go that keep no state.
-- Scores, latencies and costs are natural numbers of a small unit, where the source has floats. What
-- `rand` returns is an argument. The sort is the insertion sort that sort.SliceStable is on up to
-- twenty candidates.
pub mod Rearrange
pub mod Sorted
use gateyes.Common.{
  ℕ, zero, suc, ◌+◌, ◌*◌, ◌-◌, String, Bool, true, false, ◌||◌, not, Option, none, some, List, [],
  ◌∷◌, ◌++◌, length, ltb, leb, ◌==◌, nat_eq, string_eq, if◌then◌else◌, ℤ, pos, ltb_ℤ,
}
use mathlib.Core.List.{reverse}
use gateyes.Router.{Provider, weight_of, total_weight}

-- The gauges of an inference server, of inference_signal.go.
pub record InferenceState : Type 0 where
  pub num_requests_running : ℕ
  pub num_requests_waiting : ℕ
  pub gpu_cache_usage_perc : ℕ
  pub cpu_cache_usage_perc : ℕ
  pub stale : Bool

unfoldable pub load_score : InferenceState → ℕ
load_score s =
    if s.stale
    then 0
    else s.num_requests_waiting * 4
      + s.num_requests_running * 1
      + s.gpu_cache_usage_perc * 2
      + s.cpu_cache_usage_perc * 1

-- What `provider.Stats` tells of a provider; the average latency of one that it knows.
pub record Stats : Type 0 where
  pub current_load : String → ℤ
  pub tpm : String → ℤ
  pub avg_latency_ms : String → Option ℕ

-- The scraper's cache and the statistics, each of which the router may lack.
pub record Signals : Type 0 where
  pub scraper : Option (String → Option InferenceState)
  pub stats : Option Stats

unfoldable pub inference_state : Signals → String → Option InferenceState
inference_state sig name = elim sig.scraper [
  | none ↦ none
  | some get ↦ elim (get name) [ none ↦ none | some s ↦ if s.stale then none else some s ]
]

abbrev pub score_by : (InferenceState → ℕ) → Option InferenceState → Option ℕ
score_by f none = none
score_by f (some s) = some (f s)

unfoldable pub inference_load : Signals → String → Option ℕ
inference_load sig name = score_by load_score (inference_state sig name)

unfoldable pub kv_cache_usage : Signals → String → Option ℕ
kv_cache_usage sig name =
    score_by (λ s. s.gpu_cache_usage_perc + s.cpu_cache_usage_perc) (inference_state sig name)

unfoldable pub gpu_cache_usage : Signals → String → Option ℕ
gpu_cache_usage sig name = score_by (λ s. s.gpu_cache_usage_perc) (inference_state sig name)

unfoldable pub current_load : Signals → String → ℤ
current_load sig name = elim sig.stats [ none ↦ pos 0 | some s ↦ s.current_load name ]

unfoldable pub tpm_of : Signals → String → ℤ
tpm_of sig name = elim sig.stats [ none ↦ pos 0 | some s ↦ s.tpm name ]

unfoldable pub avg_latency : Signals → String → Option ℕ
avg_latency sig name = elim sig.stats [
  | none ↦ none
  | some s ↦ elim (s.avg_latency_ms name) [
    | none ↦ none
    | some l ↦ if leb l 0 then none else some l
  ]
]

-- `comparableLoadLocked`: the scraped score, or the load of this process.
unfoldable pub comparable_load : Signals → String → ℤ
comparable_load sig name = elim (inference_load sig name) [
  | some score ↦ pos score
  | none ↦ current_load sig name
]

-- `if a != b { return a < b }; return tie`.
abbrev pub first_by {ℓ} : {A : Type ℓ} → (A → A → Bool) → A → A → Bool → Bool
first_by lt a b tie = if lt a b then true else if lt b a then false else tie

-- `ordered[i].Weight() > ordered[j].Weight()`.
abbrev pub heavier : Provider → Provider → Bool
heavier p q = ltb_ℤ q.weight p.weight

unfoldable pub less_load : Signals → Provider → Provider → Bool
less_load sig p q =
    let tie = first_by ltb_ℤ (current_load sig p.name) (current_load sig q.name) (heavier p q) in
    elim (inference_load sig p.name) [
      | none ↦ tie
      | some a ↦ elim (inference_load sig q.name) [ none ↦ tie | some b ↦ first_by ltb a b tie ]
    ]

-- The test of least_latency, least_kv_cache and least_gpu_cache: who has a value comes first.
unfoldable pub less_known : (String → Option ℕ) → Provider → Provider → Bool
less_known value p q = elim (value p.name) [
  | none ↦ elim (value q.name) [ none ↦ heavier p q | some b ↦ false ]
  | some a ↦ elim (value q.name) [ none ↦ true | some b ↦ first_by ltb a b (heavier p q) ]
]

unfoldable pub less_tpm : Signals → Provider → Provider → Bool
less_tpm sig p q = first_by ltb_ℤ (tpm_of sig p.name) (tpm_of sig q.name) (heavier p q)

unfoldable pub less_cost : Provider → Provider → Bool
less_cost p q = first_by ltb p.unit_cost q.unit_cost (heavier p q)

-- `for j := i; j > 0 && less(j, j-1); j--`, on the sorted part from its last element on.
unfoldable pub sink : (Provider → Provider → Bool) → Provider → List Provider → List Provider
sink less x [] = x ∷ []
sink less x (y ∷ ys) = let rest = sink less x ys in if less x y then y ∷ rest else x ∷ y ∷ ys

unfoldable pub sort_onto :
    (Provider → Provider → Bool) → List Provider → List Provider → List Provider
sort_onto less [] sorted = sorted
sort_onto less (x ∷ xs) sorted = sort_onto less xs (sink less x sorted)

unfoldable pub slice_stable : (Provider → Provider → Bool) → List Provider → List Provider
slice_stable less ps = reverse (sort_onto less ps [])

-- The elements whose index does not meet the test, the first index being `k`.
unfoldable pub drop_at : (ℕ → Bool) → ℕ → List Provider → List Provider
drop_at gone k [] = []
drop_at gone k (p ∷ ps) = let rest = drop_at gone (k + 1) ps in if gone k then rest else p ∷ rest

unfoldable pub nth : ℕ → List Provider → Option Provider
nth i [] = none
nth zero (p ∷ ps) = some p
nth (suc i) (p ∷ ps) = nth i ps

-- What `rand` returns in one call of the router.
pub record Random : Type 0 where
  pub first : ℕ → ℕ
  pub second : ℕ → ℕ
  pub shuffle : List Provider → List Provider

-- `candidates[i]` in front of `candidates[:i]` and `candidates[i+1:]`.
unfoldable pub index_to_front : ℕ → List Provider → List Provider
index_to_front i ps = elim (nth i ps) [ none ↦ ps | some p ↦ p ∷ drop_at (λ k. k == i) 0 ps ]

-- The two candidates of `powerOfTwoChoices`; `i` and `j` are two indices.
unfoldable pub two_choices : Signals → ℕ → ℕ → List Provider → List Provider
two_choices sig i j ps = elim (nth i ps) [
  | none ↦ ps
  | some a ↦ elim (nth j ps) [
    | none ↦ ps
    | some b ↦
        let pick =
          if ltb_ℤ (comparable_load sig b.name) (comparable_load sig a.name) then b else a in
        let others = drop_at (λ k. k == i || k == j) 0 ps in
        (pick ∷ others) ++ (if pick.name == a.name then b else a) ∷ []
  ]
]

unfoldable pub power_of_two_choices : Signals → Random → List Provider → List Provider
power_of_two_choices sig rand ps =
    if leb (length ps) 1
    then ps
    else if leb (length ps) 2
    then slice_stable (less_load sig) ps
    else (let i = rand.first (length ps) in
        let j = rand.second (length ps - 1) in two_choices sig i (if leb i j then j + 1 else j) ps)

-- The loop with `cum` of the case "random": the index at which the sum exceeds the pick.
unfoldable pub weighted_index : ℕ → ℕ → ℕ → List Provider → Option ℕ
weighted_index pick cum i [] = none
weighted_index pick cum i (p ∷ ps) =
    if ltb pick (cum + weight_of p)
    then some i
    else weighted_index pick (cum + weight_of p) (i + 1) ps

-- `result[0]` stays, and what follows it is shuffled.
unfoldable pub shuffle_tail : Random → List Provider → List Provider
shuffle_tail rand [] = []
shuffle_tail rand (p ∷ ps) = p ∷ rand.shuffle ps

unfoldable pub random_order : Random → List Provider → List Provider
random_order rand ps =
    if ltb 0 (total_weight ps)
    then elim (weighted_index (rand.first (total_weight ps)) 0 0 ps) [
      | none ↦ rand.shuffle ps
      | some i ↦ shuffle_tail rand (index_to_front i ps)
    ]
    else rand.shuffle ps
