-- ===== src/Router/Rules.antt =====
-- internal/service/router/rule_engine.go: the rules that filter the candidates. Compiling a regular
-- expression, which the cache does once, is a parameter: the test of a pattern, if it compiles.
pub mod Filters
use gateyes.Common.{
  ℕ, String, Bool, true, false, not, ◌&&◌, ◌||◌, Option, none, some, List, [], ◌∷◌, map, ◌==◌,
  string_eq, if◌then◌else◌, Map, lookup, ℤ, pos, ltb_ℤ,
}
use gateyes.Router.{Provider, RouteContext}

pub record RouteMatch : Type 0 where
  pub models : List String
  pub min_prompt_tokens : ℤ
  pub max_prompt_tokens : ℤ
  pub has_tools : Option Bool
  pub has_images : Option Bool
  pub has_structured_output : Option Bool
  pub stream : Option Bool
  pub any_regex : List String

pub record RouteAction : Type 0 where
  pub providers : List String
  pub provider_labels : Map String String

pub record RouteRule : Type 0 where
  pub name : String
  pub match_config : RouteMatch
  pub action : RouteAction

pub record RuleEngine : Type 0 where
  pub enabled : Bool
  pub rules : List RouteRule

pub record RuleTrace : Type 0 where
  pub matched : Bool
  pub rule_name : String
  pub providers : List String

abbrev pub is_empty {ℓ} : {A : Type ℓ} → List A → Bool
is_empty [] = true
is_empty (x ∷ xs) = false

unfoldable pub contains_string : List String → String → Bool
contains_string [] target = false
contains_string (v ∷ vs) target = if v == target then true else contains_string vs target

-- `providerLabels[key]`: a missing key reads as the empty text.
unfoldable pub label_of : String → Map String String → String
label_of k labels = elim (lookup k labels) [ none ↦ "" | some v ↦ v ]

unfoldable pub provider_labels_match : Map String String → Map String String → Bool
provider_labels_match labels [] = true
provider_labels_match labels ((k, v) ∷ required) =
    if label_of k labels == v then provider_labels_match labels required else false

unfoldable pub filter_providers_by_name : List Provider → List String → List Provider
filter_providers_by_name [] names = []
filter_providers_by_name (p ∷ ps) names =
    let rest = filter_providers_by_name ps names in
    if contains_string names p.name then p ∷ rest else rest

unfoldable pub filter_providers_by_labels : List Provider → Map String String → List Provider
filter_providers_by_labels [] labels = []
filter_providers_by_labels (p ∷ ps) labels =
    let rest = filter_providers_by_labels ps labels in
    if provider_labels_match p.labels labels then p ∷ rest else rest

unfoldable pub filter_providers : List Provider → RouteAction → List Provider
filter_providers candidates action =
    let named =
      if is_empty action.providers
      then candidates
      else filter_providers_by_name candidates action.providers in
    let labelled =
      if is_empty action.provider_labels
      then named
      else filter_providers_by_labels named action.provider_labels in
    if is_empty action.providers && is_empty action.provider_labels then [] else labelled

-- `match.X != nil && ctx.X != *match.X`.
unfoldable pub differs : Option Bool → Bool → Bool
differs none actual = false
differs (some true) actual = not actual
differs (some false) actual = actual

unfoldable pub provider_name_list : List Provider → List String
provider_name_list ps = map (λ p. p.name) ps

module _ (cached_regexp : String → Option (String → Bool)) where
  unfoldable pub match_any : List String → String → Bool
  match_any [] input = false
  match_any (pattern ∷ patterns) input =
      let rest = match_any patterns input in
      elim (cached_regexp pattern) [
        | none ↦ rest
        | some matches ↦ if matches input then true else rest
      ]

  unfoldable pub match_any_regex : List String → String → Bool
  match_any_regex patterns input = if input == "" then false else match_any patterns input

  unfoldable pub match_route_rule : RouteMatch → RouteContext → Bool
  match_route_rule m ctx =
      if not (is_empty m.models) && not (contains_string m.models ctx.model)
      then false
      else if ltb_ℤ (pos 0) m.min_prompt_tokens && ltb_ℤ ctx.prompt_tokens m.min_prompt_tokens
      then false
      else if ltb_ℤ (pos 0) m.max_prompt_tokens && ltb_ℤ m.max_prompt_tokens ctx.prompt_tokens
      then false
      else if differs m.has_tools ctx.has_tools
      then false
      else if differs m.has_images ctx.has_images
      then false
      else if differs m.has_structured_output ctx.has_structured_output
      then false
      else if differs m.stream ctx.stream
      then false
      else if not (is_empty m.any_regex) && not (match_any_regex m.any_regex ctx.input_text)
      then false
      else true

  -- The loop over the rules: the first one that matches decides.
  unfoldable pub apply_rules :
      List RouteRule → List Provider → RouteContext → List Provider × RuleTrace
  apply_rules [] candidates ctx =
      (candidates, record { matched = false; rule_name = ""; providers = [] })
  apply_rules (rule ∷ rules) candidates ctx =
      let rest = apply_rules rules candidates ctx in
      let filtered = filter_providers candidates rule.action in
      if match_route_rule rule.match_config ctx
      then (
        filtered,
        record { matched = true; rule_name = rule.name; providers = provider_name_list filtered },
      )
      else rest

  unfoldable pub apply_rule_engine :
      RuleEngine → List Provider → RouteContext → List Provider × RuleTrace
  apply_rule_engine engine candidates ctx =
      if not engine.enabled || is_empty engine.rules || is_empty candidates
      then (candidates, record { matched = false; rule_name = ""; providers = [] })
      else apply_rules engine.rules candidates ctx
