-- ===== src/Router.antt =====
-- internal/service/router: which providers a request may go to, and in what order. Of a provider the
-- router reads the record below. The ranker of ranker.go returns its argument in every case.
pub mod Rules
pub mod Session
pub mod Profile
pub mod Prefix
pub mod Affinity
pub mod Strategies
pub mod RoundRobin
pub mod Order
pub mod Explain
use gateyes.Common.{
  ℕ, ◌+◌, String, Bool, true, false, Option, none, some, List, [], ◌∷◌, length, leb, ◌==◌,
  string_eq, if◌then◌else◌, Map, ℤ, pos, ltb_ℤ, pos_part,
}

-- What the router reads through the interface `provider.Provider`.
pub record Provider : Type 0 where
  pub name : String
  pub model : String
  pub weight : ℤ
  pub unit_cost : ℕ
  pub labels : Map String String

pub record RouteContext : Type 0 where
  pub model : String
  pub session_id : String
  pub input_text : String
  pub prompt_tokens : ℤ
  pub stream : Bool
  pub has_tools : Bool
  pub has_images : Bool
  pub has_structured_output : Bool
  pub prefix_text : String
  pub routing_profile : String
  pub strategy_override : String

-- `if w <= 0 { w = 1 }`, a natural number.
unfoldable pub weight_of : Provider → ℕ
weight_of p = if ltb_ℤ (pos 0) p.weight then pos_part p.weight else 1

-- The loop with `totalWeight`.
unfoldable pub total_weight : List Provider → ℕ
total_weight [] = 0
total_weight (p ∷ ps) = weight_of p + total_weight ps

-- The loop of `physicalModelBypassCandidate`.
unfoldable pub with_model : String → List Provider → Option Provider
with_model model [] = none
with_model model (p ∷ ps) = if p.model == model then some p else with_model model ps

unfoldable pub physical_model_bypass_candidate : List Provider → String → Option Provider
physical_model_bypass_candidate candidates requested_model =
    if requested_model == "" then none else with_model requested_model candidates
