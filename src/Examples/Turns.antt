-- ===== src/Examples/Turns.antt =====
-- The theorems on the order of the candidates, applied to two providers of weights 1 and 3.
use gateyes.Common.{◌≡◌, refl, true, false, none, some, [], ◌+◌, ◌*◌, length, pos}
use mathlib.Core.List.{Perm}
use mathlib.Core.List.Perm
use gateyes.Router.{RouteContext, total_weight, physical_model_bypass_candidate}
use gateyes.Router.Rules.{contains_string, apply_rule_engine, provider_name_list}
use gateyes.Router.Session.{outdated, new_session_affinity}
use gateyes.Router.Affinity.{profile_session_of}
use gateyes.Router.Session.Sticky.{first_name}
use gateyes.Router.Prefix.{Texts}
use gateyes.Router.Profile.{profile_of, normalize_routing_profile}
use gateyes.Router.Strategies.{Signals, Random, nth, less_load}
use gateyes.Router.Strategies.Rearrange.{IsRandom}
use gateyes.Router.Strategies.Sorted.{IsSorted}
use gateyes.Router.RoundRobin.Waiting.{served, empty-IsFair, weighted_round_robin-served}
use gateyes.Router.Order.{
  RouterConfig, new_router, order_by_strategy, order_candidates, promote_affinity,
}
use gateyes.Router.Order.Rearranged.{eligible_for, order_candidates-Arranged}
use gateyes.Router.Order.Best.{
  by_cost, InOrder, order_by_strategy-InOrder, order_by_strategy-least_load,
}
use gateyes.Router.Order.Sticky.{order_candidates-promote_affinity}
use gateyes.Router.Explain.{explain_order_candidates}
use gateyes.Router.Explain.Agreement.{explain_order_candidates-order_candidates}
use gateyes.Examples.Routes.{small, both, request, no_regexp}

abbrev no_signals : Signals
no_signals = record { scraper = none; stats = none }

abbrev dice : Random
dice = record { first = λ n. 0; second = λ n. 0; shuffle = λ ps. ps }

dice-IsRandom : IsRandom dice
dice-IsRandom = (λ n h. h, λ n h. h, λ ps. Perm.refl ps)

abbrev plain_texts : Texts
plain_texts = record {
  runes = λ t. [];
  of_runes = λ rs. "";
  sha256 = λ t. t;
  normal = λ t. t;
  sum32 = λ t. 6;
}

abbrev cheapest : RouterConfig
cheapest = record {
  strategy = "cost_based";
  ranker_method = "none";
  rule_engine = record { enabled = false; rules = [] };
  affinity = record {
    enabled = false;
    session_ttl = pos 0;
    prefix_ttl = pos 0;
    prefix_depth = pos 0;
  };
}

abbrev sticky_request : RouteContext
sticky_request = record request { routing_profile = "sticky" }

at_first : nth 0 both ≡ some small
unfolding nth
at_first = refl

weighted_round_robin-served_example :
    served "small" ((length both + 1) * total_weight both) both [] ≡ true
weighted_round_robin-served_example =
    weighted_round_robin-served both refl small 0 at_first [] (empty-IsFair both)

order_candidates-Arranged_example :
    Perm both
      (order_candidates plain_texts no_regexp 5 no_signals dice both request
        (new_router cheapest)).1
unfolding physical_model_bypass_candidate apply_rule_engine new_router
order_candidates-Arranged_example =
    order_candidates-Arranged plain_texts no_regexp 5 no_signals dice both request
      (new_router cheapest) dice-IsRandom

order_by_strategy-InOrder_example :
    InOrder no_signals by_cost (order_by_strategy no_signals dice "cost_based" both []).1
order_by_strategy-InOrder_example = order_by_strategy-InOrder no_signals dice by_cost both []

order_by_strategy-least_load_example :
    IsSorted (less_load no_signals) (order_by_strategy no_signals dice "least_load" both []).1
order_by_strategy-least_load_example = order_by_strategy-least_load none dice both []

is_sticky :
    normalize_routing_profile plain_texts.normal sticky_request.routing_profile
    ≡ ("sticky", "sticky")
unfolding normalize_routing_profile profile_of contains_string
is_sticky = refl

order_candidates-promote_affinity_example :
    first_name
      (order_candidates plain_texts no_regexp 20 no_signals dice both sticky_request
        (promote_affinity plain_texts 10 sticky_request "large" (new_router cheapest))).1
    ≡ some "large"
unfolding physical_model_bypass_candidate apply_rule_engine new_router outdated profile_session_of
    new_session_affinity
order_candidates-promote_affinity_example =
    order_candidates-promote_affinity plain_texts sticky_request is_sticky refl no_regexp 10 20
      no_signals dice both "large" (new_router cheapest) refl refl refl refl

explain_order_candidates-order_candidates_example :
    let (r', ordered, trace) =
      explain_order_candidates plain_texts no_regexp 5 no_signals dice both request
        (new_router cheapest) in
    ((r', ordered)
      ≡ order_candidates plain_texts no_regexp 5 no_signals dice both request (new_router cheapest))
    × (trace.ordered ≡ provider_name_list ordered)
    × (trace.after_rule
        ≡ provider_name_list
            (eligible_for plain_texts no_regexp both request (new_router cheapest)))
explain_order_candidates-order_candidates_example =
    explain_order_candidates-order_candidates plain_texts no_regexp 5 no_signals dice both request
      (new_router cheapest)
