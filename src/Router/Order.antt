-- ===== src/Router/Order.antt =====
-- internal/service/router/router.go: the router's state, and the order in which a request tries the
-- providers. A call takes the time, what `rand` returns, and the statistics as arguments; the mutex
-- makes it one step.
pub mod Rearranged
pub mod Best
pub mod Sticky
use gateyes.Common.{
  ℕ, String, Bool, true, false, ◌&&◌, Option, none, some, List, [], ◌∷◌, length, leb, ◌==◌,
  string_eq, if◌then◌else◌, Map, ℤ,
}
use gateyes.Router.{Provider, RouteContext, with_model, physical_model_bypass_candidate}
use gateyes.Router.Rules.{RuleEngine, is_empty, apply_rule_engine}
use gateyes.Router.Session.{SessionAffinity, pin, promote}
use gateyes.Router.Prefix.{PrefixAffinity, Texts, pin_prefix, promote_prefix}
use gateyes.Router.Affinity.{
  Affinity, noop, AffinityConfig, first_candidate_changed, pin_affinity, promote_affinity_of,
  init_affinity, profile_session_of, profile_prefix_of,
}
use gateyes.Router.Profile.{normalize_routing_profile, resolve_route_strategy}
use gateyes.Router.Strategies.{
  Signals, Random, less_load, less_known, less_tpm, less_cost, avg_latency, kv_cache_usage,
  gpu_cache_usage, slice_stable, power_of_two_choices, random_order,
}
use gateyes.Router.RoundRobin.{weighted_round_robin, forget_gone}

pub record RouterConfig : Type 0 where
  pub strategy : String
  pub ranker_method : String
  pub rule_engine : RuleEngine
  pub affinity : AffinityConfig

pub record Router : Type 0 where
  pub cfg : RouterConfig
  pub providers : List Provider
  pub rr_weights : Map String ℤ
  pub affinity : Affinity
  pub profile_session : SessionAffinity
  pub profile_prefix : PrefixAffinity

unfoldable pub new_router : RouterConfig → Router
new_router cfg = record {
  cfg = cfg;
  providers = [];
  rr_weights = [];
  affinity = init_affinity cfg.strategy cfg.affinity noop;
  profile_session = profile_session_of cfg.affinity;
  profile_prefix = profile_prefix_of cfg.affinity;
}

unfoldable pub reload : RouterConfig → Router → Router
reload cfg r = record r {
  cfg = cfg;
  affinity = init_affinity cfg.strategy cfg.affinity noop;
  profile_session = profile_session_of cfg.affinity;
  profile_prefix = profile_prefix_of cfg.affinity;
}

unfoldable pub set_providers : List Provider → Router → Router
set_providers providers r = record r {
  providers = providers;
  rr_weights = forget_gone providers r.rr_weights;
}

-- `orderByStrategyLocked`, with the credits of the round robin.
unfoldable pub order_by_strategy :
    Signals → Random → String → List Provider → Map String ℤ → Map String ℤ × List Provider
order_by_strategy sig rand strategy ps m =
    if leb (length ps) 1
    then (m, ps)
    else if strategy == "round_robin"
    then weighted_round_robin ps m
    else if strategy == "least_load"
    then (m, slice_stable (less_load sig) ps)
    else if strategy == "least_latency"
    then (m, slice_stable (less_known (avg_latency sig)) ps)
    else if strategy == "least_kv_cache"
    then (m, slice_stable (less_known (kv_cache_usage sig)) ps)
    else if strategy == "least_gpu_cache"
    then (m, slice_stable (less_known (gpu_cache_usage sig)) ps)
    else if strategy == "power_of_two"
    then (m, power_of_two_choices sig rand ps)
    else if strategy == "least_tpm"
    then (m, slice_stable (less_tpm sig) ps)
    else if strategy == "cost_based"
    then (m, slice_stable less_cost ps)
    else if strategy == "sticky"
    then (m, ps)
    else if strategy == "random"
    then (m, random_order rand ps)
    else (m, ps)

abbrev pub head_of {ℓ} : {A : Type ℓ} → List A → Option A
head_of [] = none
head_of (x ∷ xs) = some x

module _ (texts : Texts) where
  -- `applyAffinityLocked`: the configured affinity, and then the one of the request's profile.
  unfoldable pub apply_affinity : ℕ → List Provider → RouteContext → Router → Router × List Provider
  apply_affinity now ps ctx r =
      let profile = (normalize_routing_profile texts.normal ctx.routing_profile).0 in
      let (affinity, pinned) = pin_affinity texts now ps ctx r.affinity in
      let (session, by_session) = pin texts.sum32 now pinned ctx r.profile_session in
      if leb (length ps) 1
      then (r, ps)
      else if profile == "sticky"
      then (record r { affinity = affinity; profile_session = session }, by_session)
      else if profile == "cache"
      then (record r { affinity = affinity }, pin_prefix texts now pinned ctx r.profile_prefix)
      else (record r { affinity = affinity }, pinned)

  unfoldable pub strategy_after_affinity :
      Router → RouteContext → List Provider → List Provider → String
  strategy_after_affinity r ctx before after =
      let profile = (normalize_routing_profile texts.normal ctx.routing_profile).0 in
      if profile == "cache" && first_candidate_changed before after
      then "sticky"
      else resolve_route_strategy texts.normal r.cfg.strategy ctx

  unfoldable pub promote_affinity : ℕ → RouteContext → String → Router → Router
  promote_affinity now ctx name r =
      let profile = (normalize_routing_profile texts.normal ctx.routing_profile).0 in
      let promoted = record r { affinity = promote_affinity_of texts now ctx name r.affinity } in
      if profile == "sticky"
      then record promoted { profile_session = promote now ctx name r.profile_session }
      else if profile == "cache"
      then record promoted { profile_prefix = promote_prefix texts now ctx name r.profile_prefix }
      else promoted

  -- What `OrderCandidates` does with the candidates that a rule has let through.
  unfoldable pub order_eligible :
      ℕ → Signals → Random → List Provider → RouteContext → Router → Router × List Provider
  order_eligible now sig rand ps ctx r =
      let (r', pinned) = apply_affinity now ps ctx r in
      let (m, ordered) =
        order_by_strategy sig rand (strategy_after_affinity r ctx ps pinned) pinned r'.rr_weights in
      (record r' { rr_weights = m }, ordered)

  module _ (cached_regexp : String → Option (String → Bool)) where
    unfoldable pub order_candidates :
        ℕ → Signals → Random → List Provider → RouteContext → Router → Router × List Provider
    order_candidates now sig rand candidates ctx r =
        let eligible = (apply_rule_engine cached_regexp r.cfg.rule_engine candidates ctx).0 in
        if is_empty candidates
        then (r, [])
        else elim (physical_model_bypass_candidate eligible ctx.model) [
          | some bypass ↦ (r, bypass ∷ [])
          | none ↦ order_eligible now sig rand eligible ctx r
        ]

    unfoldable pub select_from_with_context :
        ℕ → Signals → Random → List Provider → RouteContext → Router → Router × Option Provider
    select_from_with_context now sig rand candidates ctx r =
        let (r', ordered) = order_candidates now sig rand candidates ctx r in
        (
          r',
          elim (with_model ctx.model ordered) [
            | some p ↦ if ctx.model == "" then head_of ordered else some p
            | none ↦ head_of ordered
          ],
        )
