-- ===== src/Router/RoundRobin.antt =====
-- `weightedRoundRobin` of internal/service/router/router.go: each call gives every candidate its weight
-- as credit, takes the one with the most, and takes the total of the weights from its credit.
pub mod Credits
pub mod Best
pub mod Turns
pub mod Waiting
use gateyes.Common.{
  ℕ, zero, suc, ◌+◌, String, Bool, false, ◌||◌, Option, none, some, List, [], ◌∷◌, length, ltb, leb,
  ◌==◌, string_eq, if◌then◌else◌, Map, lookup, insert, ℤ, pos, negsuc, ◌+ℤ◌, ◌-ℤ◌, ltb_ℤ,
}
use gateyes.Router.{Provider, weight_of, total_weight}
use gateyes.Router.Strategies.{nth, index_to_front}

abbrev pub or_zero : Option ℤ → ℤ
or_zero none = pos 0
or_zero (some v) = v

-- `r.rrWeights[name]`, which is 0 for a name that is not there.
unfoldable pub credit : String → Map String ℤ → ℤ
credit name m = or_zero (lookup name m)

-- The second loop, from index `i` on, with `maxIdx` and `maxVal`.
unfoldable pub give_credit : List Provider → ℕ → ℕ → ℤ → Map String ℤ → Map String ℤ × ℕ
give_credit [] i max_idx max_val m = (m, max_idx)
give_credit (p ∷ ps) i max_idx max_val m =
    let v = credit p.name m +ℤ pos (weight_of p) in
    let better = ltb_ℤ max_val v in
    give_credit ps (i + 1) (if better then i else max_idx) (if better then v else max_val)
      (insert p.name v m)

unfoldable pub charge_selected : ℕ → ℕ → List Provider → Map String ℤ → Map String ℤ
charge_selected total max_idx ps m = elim (nth max_idx ps) [
  | none ↦ m
  | some p ↦ insert p.name (credit p.name m -ℤ pos total) m
]

unfoldable pub weighted_round_robin : List Provider → Map String ℤ → Map String ℤ × List Provider
weighted_round_robin ps m =
    if leb (length ps) 1
    then (m, ps)
    else (let (m', max_idx) = give_credit ps 0 0 (negsuc 0) m in
        (charge_selected (total_weight ps) max_idx ps m', index_to_front max_idx ps))

abbrev pub among : String → List Provider → Bool
among name [] = false
among name (p ∷ ps) = p.name == name || among name ps

-- The loop of `SetProviders` over the credits.
unfoldable pub forget_gone : List Provider → Map String ℤ → Map String ℤ
forget_gone ps [] = []
forget_gone ps ((name, v) ∷ m) =
    let rest = forget_gone ps m in if among name ps then (name, v) ∷ rest else rest
