-- ===== src/Examples/Routes.antt =====
-- The theorems on the router, applied to two providers, a rule for long prompts, and a session.
use gateyes.Common.{
  ◌≡◌, refl, String, Bool, true, false, Option, none, some, List, [], ◌∷◌, ◌++◌, ℕ, pos, lookup,
  inr, string_eq,
}
use gateyes.Router.{Provider, RouteContext}
use gateyes.Router.Rules.{
  RouteMatch, RouteRule, contains_string, differs, match_any_regex, match_route_rule,
  apply_rule_engine,
}
use gateyes.Router.Rules.Filters.{keep, eligible, apply_rule_engine-first, apply_rule_engine-none}
use gateyes.Router.Session.{SessionEntry, SessionAffinity, outdated, pin}
use gateyes.Router.Session.Sticky.{first_name, pins, promotes, run, pin-run}

abbrev pub small : Provider
small = record {
  name = "small";
  model = "m-1";
  weight = pos 1;
  unit_cost = 5;
  labels = ("region", "eu") ∷ [];
}

abbrev pub large : Provider
large = record {
  name = "large";
  model = "m-2";
  weight = pos 3;
  unit_cost = 2;
  labels = ("region", "us") ∷ [];
}

abbrev pub both : List Provider
both = small ∷ large ∷ []

abbrev pub request : RouteContext
request = record {
  model = "";
  session_id = "s";
  input_text = "hello";
  prompt_tokens = pos 900;
  stream = false;
  has_tools = true;
  has_images = false;
  has_structured_output = false;
  prefix_text = "";
  routing_profile = "";
  strategy_override = "";
}

abbrev any : RouteMatch
any = record {
  models = [];
  min_prompt_tokens = pos 0;
  max_prompt_tokens = pos 0;
  has_tools = none;
  has_images = none;
  has_structured_output = none;
  stream = none;
  any_regex = [];
}

abbrev streaming : RouteRule
streaming = record {
  name = "streaming";
  match_config = record any { stream = some true };
  action = record { providers = "small" ∷ []; provider_labels = [] };
}

abbrev long_prompts : RouteRule
long_prompts = record {
  name = "long";
  match_config = record any { min_prompt_tokens = pos 500 };
  action = record { providers = []; provider_labels = ("region", "us") ∷ [] };
}

-- No pattern compiles.
abbrev pub no_regexp : String → Option (String → Bool)
no_regexp pattern = none

not_streaming : match_route_rule no_regexp streaming.match_config request ≡ false
unfolding match_route_rule contains_string differs match_any_regex
not_streaming = refl

is_long : match_route_rule no_regexp long_prompts.match_config request ≡ true
unfolding match_route_rule contains_string differs match_any_regex
is_long = refl

apply_rule_engine-first_example :
    (apply_rule_engine no_regexp
      (record { enabled = true; rules = (streaming ∷ []) ++ long_prompts ∷ [] })
      both
      request).0
    ≡ keep (eligible long_prompts.action) both
apply_rule_engine-first_example =
    apply_rule_engine-first no_regexp (streaming ∷ []) long_prompts [] both request
      (not_streaming, tt) is_long

apply_rule_engine-none_example :
    (apply_rule_engine no_regexp (record { enabled = true; rules = streaming ∷ [] }) both request).0
    ≡ both
apply_rule_engine-none_example =
    apply_rule_engine-none no_regexp (record { enabled = true; rules = streaming ∷ [] }) both
      request (inr (not_streaming, tt))

abbrev sum32 : String → ℕ
sum32 key = 6

abbrev large_at_ten : SessionEntry
large_at_ten = record { provider_name = "large"; created_at = 10 }

abbrev pinned : SessionAffinity
pinned = record { sessions = ("s", large_at_ten) ∷ []; ttl = 100 }

abbrev other : RouteContext
other = record request { session_id = "t" }

fresh_enough : outdated 100 50 large_at_ten ≡ false
unfolding outdated
fresh_enough = refl

still_fresh : outdated 100 90 large_at_ten ≡ false
unfolding outdated
still_fresh = refl

has_entry : lookup request.session_id pinned.sessions ≡ some large_at_ten
unfolding lookup
has_entry = refl

pin-run_example :
    first_name
      (pin sum32 90 both request
        (run sum32 (pins 50 both other ∷ promotes 60 other "small" ∷ []) pinned)).1
    ≡ some "large"
pin-run_example =
    pin-run sum32 90 both request large_at_ten pinned
      (pins 50 both other ∷ promotes 60 other "small" ∷ []) has_entry (fresh_enough, (refl, tt))
      refl still_fresh refl
