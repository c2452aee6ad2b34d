-- ===== src/Router/Profile.antt =====
-- internal/service/router/profile.go: the routing profile that a request names, and the strategy it
-- stands for. `normal` is strings.ToLower after strings.TrimSpace.
use gateyes.Common.{String, List, [], ◌∷◌, ◌==◌, string_eq, if◌then◌else◌}
use gateyes.Router.{RouteContext}
use gateyes.Router.Rules.{contains_string}

abbrev pub latency_names : List String
latency_names = "latency" ∷ "load" ∷ "least_load" ∷ "least-load" ∷ []

abbrev pub least_latency_names : List String
least_latency_names = "least_latency" ∷ "least-latency" ∷ "fast" ∷ "fastest" ∷ []

abbrev pub cost_names : List String
cost_names = "cost" ∷ "cheap" ∷ "cheapest" ∷ "cost_based" ∷ "cost-based" ∷ []

abbrev pub throughput_names : List String
throughput_names = "throughput" ∷ "tpm" ∷ "least_tpm" ∷ "least-tpm" ∷ []

abbrev pub power_of_two_names : List String
power_of_two_names = "power_of_two" ∷ "power-of-two" ∷ "p2c" ∷ []

abbrev pub sticky_names : List String
sticky_names = "sticky" ∷ "session" ∷ "session_affinity" ∷ "session-affinity" ∷ []

abbrev pub cache_names : List String
cache_names =
    "cache" ∷ "cache_affinity" ∷ "cache-affinity" ∷ "prefix" ∷ "prefix_affinity" ∷ "prefix-affinity"
    ∷ []

abbrev pub kv_cache_names : List String
kv_cache_names = "least_kv_cache" ∷ "least-kv-cache" ∷ "kv_cache" ∷ "kv-cache" ∷ []

abbrev pub gpu_cache_names : List String
gpu_cache_names = "least_gpu_cache" ∷ "least-gpu-cache" ∷ "gpu_cache" ∷ "gpu-cache" ∷ []

abbrev pub balanced_names : List String
balanced_names = "balanced" ∷ "round_robin" ∷ "round-robin" ∷ []

-- The switch, on the text in lower case and without space around it.
unfoldable pub profile_of : String → String × String
profile_of name =
    if contains_string ("" ∷ "default" ∷ []) name
    then ("", "")
    else if contains_string latency_names name
    then ("latency", "least_load")
    else if contains_string least_latency_names name
    then ("latency", "least_latency")
    else if contains_string cost_names name
    then ("cost", "cost_based")
    else if contains_string throughput_names name
    then ("throughput", "least_tpm")
    else if contains_string power_of_two_names name
    then ("balanced", "power_of_two")
    else if contains_string sticky_names name
    then ("sticky", "sticky")
    else if contains_string cache_names name
    then ("cache", "")
    else if contains_string kv_cache_names name
    then ("cache", "least_kv_cache")
    else if contains_string gpu_cache_names name
    then ("cache", "least_gpu_cache")
    else if name == "random"
    then ("random", "random")
    else if contains_string balanced_names name
    then ("balanced", "round_robin")
    else ("", "")

module _ (normal : String → String) where
  unfoldable pub normalize_routing_profile : String → String × String
  normalize_routing_profile raw = profile_of (normal raw)

  unfoldable pub resolve_route_strategy : String → RouteContext → String
  resolve_route_strategy default ctx =
      let strategy = (normalize_routing_profile ctx.routing_profile).1 in
      if ctx.strategy_override == ""
      then (if strategy == "" then default else strategy)
      else ctx.strategy_override
