-- ===== src/Router/Explain.antt =====
-- `ExplainOrderCandidates` of internal/service/router/router.go, with the records of trace.go: the order
-- of the candidates and how it came about.
pub mod Agreement
use gateyes.Common.{
  ℕ, ◌+◌, String, Bool, true, false, ◌&&◌, ◌||◌, not, Option, none, some, List, [], ◌∷◌, map,
  length, leb, ◌==◌, string_eq, if◌then◌else◌, Map, ℤ, pos,
}
use Prim.Native.String.{◌++◌ as concat}
use gateyes.Router.{Provider, RouteContext, physical_model_bypass_candidate}
use gateyes.Router.Rules.{
  RuleTrace, is_empty, contains_string, provider_name_list, apply_rule_engine,
}
use gateyes.Router.Prefix.{Texts}
use gateyes.Router.Affinity.{Affinity, noop, composite}
use gateyes.Router.Profile.{normalize_routing_profile, resolve_route_strategy}
use gateyes.Router.Strategies.{
  InferenceState, Stats, Signals, Random, inference_state, inference_load, avg_latency,
}
use gateyes.Router.Order.{Router, order_by_strategy, apply_affinity, strategy_after_affinity}

pub record ScoreTrace : Type 0 where
  pub provider : String
  pub lower_is_better : Bool
  pub total : ℤ
  pub components : Map String ℤ

pub record QualificationExclusion : Type 0 where
  pub provider : String
  pub reason : String
  pub detail : String

pub record QualificationTrace : Type 0 where
  pub eligible : List String
  pub excluded : List QualificationExclusion

pub record OrderTrace : Type 0 where
  pub initial : List String
  pub qualification : QualificationTrace
  pub rule : RuleTrace
  pub after_rule : List String
  pub ranker : String
  pub after_ranker : List String
  pub affinity : String
  pub after_affinity : List String
  pub routing_profile : String
  pub strategy : String
  pub ordered : List String
  pub scores : List ScoreTrace
  pub bypass : Bool
  pub bypass_reason : String
  pub bypass_provider : String

unfoldable pub excluded_provider_names : List Provider → List Provider → List String
excluded_provider_names [] eligible = []
excluded_provider_names (p ∷ ps) eligible =
    let rest = excluded_provider_names ps eligible in
    if contains_string (provider_name_list eligible) p.name then rest else p.name ∷ rest

-- What `qualifyCandidatesLocked` notes about the candidates that a rule has left out.
unfoldable pub qualify : List Provider → List Provider → RuleTrace → QualificationTrace
qualify candidates eligible rule = record {
  eligible = provider_name_list eligible;
  excluded =
      if rule.matched
      then map (λ name. record { provider = name; reason = "route_rule"; detail = rule.rule_name })
          (excluded_provider_names candidates eligible)
      else [];
}

unfoldable pub affinity_base : Affinity → String
affinity_base noop = "none"
affinity_base (composite chain) = "composite"

-- The components of a score; the total is what they sum up to, and 0 if there are none.
abbrev pub one_component : String → ℤ → ℤ × Map String ℤ
one_component name v = (v, (name, v) ∷ [])

abbrev pub known_component : String → Option ℕ → ℤ × Map String ℤ
known_component name none = (pos 0, [])
known_component name (some v) = one_component name (pos v)

unfoldable pub load_component : Signals → String → ℤ × Map String ℤ
load_component sig name = elim (inference_load sig name) [
  | some score ↦ one_component "inference_load" (pos score)
  | none ↦ elim sig.stats [
    | none ↦ (pos 0, [])
    | some s ↦ one_component "current_load" (s.current_load name)
  ]
]

unfoldable pub kv_components : Option InferenceState → ℤ × Map String ℤ
kv_components none = (pos 0, [])
kv_components (some s) = (
  pos (s.gpu_cache_usage_perc + s.cpu_cache_usage_perc),
  ("gpu_cache_usage", pos s.gpu_cache_usage_perc)
      ∷ ("cpu_cache_usage", pos s.cpu_cache_usage_perc)
      ∷ [],
)

unfoldable pub gpu_components : Option InferenceState → ℤ × Map String ℤ
gpu_components none = (pos 0, [])
gpu_components (some s) = one_component "gpu_cache_usage" (pos s.gpu_cache_usage_perc)

unfoldable pub tpm_component : Signals → String → ℤ × Map String ℤ
tpm_component sig name = elim sig.stats [
  | none ↦ (pos 0, [])
  | some s ↦ one_component "tpm" (s.tpm name)
]

abbrev pub scored : Provider → Bool → ℤ × Map String ℤ → ScoreTrace
scored p lower (total, components) = record {
  provider = p.name;
  lower_is_better = lower;
  total = total;
  components = components;
}

unfoldable pub score : Signals → String → Provider → ScoreTrace
score sig strategy p =
    if strategy == "least_load" || strategy == "power_of_two"
    then scored p true (load_component sig p.name)
    else if strategy == "least_latency"
    then scored p true (known_component "avg_latency_ms" (avg_latency sig p.name))
    else if strategy == "least_tpm"
    then scored p true (tpm_component sig p.name)
    else if strategy == "cost_based"
    then scored p true (one_component "unit_cost" (pos p.unit_cost))
    else if strategy == "least_kv_cache"
    then scored p true (kv_components (inference_state sig p.name))
    else if strategy == "least_gpu_cache"
    then scored p true (gpu_components (inference_state sig p.name))
    else scored p false (one_component "weight" p.weight)

unfoldable pub score_trace : Signals → List Provider → String → List ScoreTrace
score_trace sig ps strategy = map (score sig strategy) ps

-- The trace before the first step.
unfoldable pub first_trace : Texts → List Provider → RouteContext → Router → OrderTrace
first_trace texts candidates ctx r =
    let profile = (normalize_routing_profile texts.normal ctx.routing_profile).0 in
    let base = affinity_base r.affinity in
    record {
      initial = provider_name_list candidates;
      qualification = record { eligible = []; excluded = [] };
      rule = record { matched = false; rule_name = ""; providers = [] };
      after_rule = [];
      ranker = r.cfg.ranker_method;
      after_ranker = [];
      affinity =
          if profile == "sticky"
          then concat base "+profile:sticky"
          else if profile == "cache"
          then concat base "+profile:cache"
          else base;
      after_affinity = [];
      routing_profile = profile;
      strategy = resolve_route_strategy texts.normal r.cfg.strategy ctx;
      ordered = [];
      scores = [];
      bypass = false;
      bypass_reason = "";
      bypass_provider = "";
    }

module _ (texts : Texts) where
  -- What it does with the candidates that a rule has let through, and the trace so far.
  unfoldable pub explain_eligible :
      ℕ
      → Signals
      → Random
      → List Provider
      → RouteContext
      → Router
      → OrderTrace
      → Router × List Provider × OrderTrace
  explain_eligible now sig rand ps ctx r trace =
      let (r', pinned) = apply_affinity texts now ps ctx r in
      let strategy = strategy_after_affinity texts r ctx ps pinned in
      let (m, ordered) = order_by_strategy sig rand strategy pinned r'.rr_weights in
      (
        record r' { rr_weights = m },
        ordered,
        record trace {
          after_ranker = provider_name_list ps;
          after_affinity = provider_name_list pinned;
          strategy = strategy;
          ordered = provider_name_list ordered;
          scores = score_trace sig ordered strategy;
        },
      )

  unfoldable pub explain_order_candidates :
      (String → Option (String → Bool))
      → ℕ
      → Signals
      → Random
      → List Provider
      → RouteContext
      → Router
      → Router × List Provider × OrderTrace
  explain_order_candidates cached_regexp now sig rand candidates ctx r =
      let (eligible, rule) = apply_rule_engine cached_regexp r.cfg.rule_engine candidates ctx in
      let start = first_trace texts candidates ctx r in
      let names = provider_name_list eligible in
      let qualified = record start {
        qualification = qualify candidates eligible rule;
        rule = rule;
        after_rule = names;
      } in
      if is_empty candidates
      then (r, [], start)
      else elim (physical_model_bypass_candidate eligible ctx.model) [
        | some p ↦ (
          r,
          p ∷ [],
          record qualified {
            bypass = true;
            bypass_reason = "explicit_physical_model";
            bypass_provider = p.name;
            after_ranker = names;
            after_affinity = names;
            ordered = p.name ∷ [];
          },
        )
        | none ↦ explain_eligible now sig rand eligible ctx r qualified
      ]
