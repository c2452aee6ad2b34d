-- ===== src/Examples/Looped.antt =====
-- The theorems on tools, applied to a request with a tool of the gateway's and one of the client's.
use gateyes.Common.{
  ℕ, ◌≤◌, length, ◌≡◌, ◌≢◌, refl, String, Bool, true, false, none, some, List, [], ◌∷◌, ◌==◌,
  string_eq, nat_beq, if◌then◌else◌, Map, lookup, pos, All,
}
use gateyes.Calling.{responds, Ports, no_command, no_post_command, RetryConfig}
use gateyes.Tools.{
  ToolOwner, gateway, client, ToolDecision, ToolOwnershipConfig, object, ok, tool_owner_by_name,
  has_gateway_owned_tool, validate_tool_ownership,
}
use gateyes.Tools.Rules.{validate_tool_ownership-no_executor}
use gateyes.Tools.Turns.{ToolCall, Usage, Response, Message, Executed, returns, Looped}
use gateyes.Tools.Loop.{run_gateway_tool_loop}
use gateyes.Tools.Loop.Owned.{IsRight, IsReturned, run_gateway_tool_loop-IsOwned}

abbrev tokens : Usage
tokens = record {
  prompt_tokens = pos 3;
  completion_tokens = pos 4;
  total_tokens = pos 7;
  cached_tokens = pos 0;
}

abbrev calling : String → Response
calling tool = record {
  output =
      record {
        id = "c1";
        type = "function_call";
        call_id = "";
        name = tool;
        args = "{}";
        content = [];
      }
      ∷ [];
  usage = tokens;
}

abbrev owners : Map String ToolOwner
owners = ("sum", gateway) ∷ ("buy", client) ∷ []

-- After one more call of the gateway's tool the provider calls the client's.
abbrev upstream : ℕ → Ports (List Message) Response
upstream round = record {
  pre_upstream = λ i req. no_command;
  create_response = λ i req. responds (if nat_beq round 0 then calling "sum" else calling "buy");
  post_upstream = λ i req resp. no_post_command;
  context_ends = λ i. none;
  contains = λ text part. false;
}

abbrev once : RetryConfig
once = record {
  max_retries = pos 0;
  initial_delay_ms = 100;
  max_delay_ms = 150;
  backoff_factor = 2000;
}

abbrev execute : ℕ → ℕ → ToolCall → Executed
execute round n c = returns "6"

abbrev as_is : Response → Response
as_is r = r

run_gateway_tool_loop-IsOwned_example :
    (l : Looped) × (run_gateway_tool_loop execute upstream once as_is owners 4 5 [] (calling "sum")
      ≡ some l)
    × (length l.turns ≤ 4)
    × All (IsRight owners) l.tool_calls
    × IsReturned owners tokens l.turns l.result
run_gateway_tool_loop-IsOwned_example =
    run_gateway_tool_loop-IsOwned owners execute upstream once as_is 4 [] (calling "sum")

abbrev by_client : ToolOwnershipConfig
by_client = record {
  enabled = true;
  default_owner = "client-owned";
  max_loop_rounds = pos 4;
  rules = [];
}

abbrev trim : String → String
trim s = s

abbrev same_text : String → String → Bool
same_text a b = a == b

abbrev decided : List ToolDecision
decided = record { name = "buy"; type = "function"; owner = client } ∷ []

accepted :
    validate_tool_ownership trim trim same_text by_client false
      (object (some "function") (some "buy") none ∷ [])
    ≡ ok decided
unfolding validate_tool_ownership
accepted = refl

validate_tool_ownership-no_executor_example :
    (has_gateway_owned_tool decided ≡ false)
    × (lookup "buy" (tool_owner_by_name decided) ≢ some gateway)
validate_tool_ownership-no_executor_example =
    validate_tool_ownership-no_executor trim trim same_text by_client
      (object (some "function") (some "buy") none ∷ []) decided "buy" accepted
