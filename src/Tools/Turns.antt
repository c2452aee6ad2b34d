-- ===== src/Tools/Turns.antt =====
-- The turns of the loop of `runGatewayToolLoop` of internal/service/responses/tool_ownership.go: responses,
-- the calls in them, messages, the trace, and the execution of one turn's calls.
use gateyes.Common.{
  ℕ, ◌+◌, String, Option, none, some, List, [], ◌∷◌, ◌++◌, ◌==◌, string_eq, if◌then◌else◌, Map,
  lookup, ℤ, pos, pos_part, ltb_ℤ, ◌+ℤ◌,
}
use gateyes.Calling.{Failure}
use gateyes.Tools.{ToolOwner, gateway, is_gateway, ToolOwnershipConfig}

pub record ToolCall : Type 0 where
  pub id : String
  pub name : String
  pub arguments : String

pub record Usage : Type 0 where
  pub prompt_tokens : ℤ
  pub completion_tokens : ℤ
  pub total_tokens : ℤ
  pub cached_tokens : ℤ

-- The texts of `Content`, of which an empty one is left out of a message.
pub record ResponseOutput : Type 0 where
  pub id : String
  pub type : String
  pub call_id : String
  pub name : String
  pub args : String
  pub content : List String

pub record Response : Type 0 where
  pub output : List ResponseOutput
  pub usage : Usage

pub record Message : Type 0 where
  pub role : String
  pub type : String
  pub tool_call_id : String
  pub content : List String
  pub tool_calls : List ToolCall

pub data Executed : Type 0 where
  returns fails : String → Executed

pub record TraceEntry : Type 0 where
  pub call_id : String
  pub name : String
  pub owner : Option ToolOwner
  pub outcome : String
  pub error : String

pub data LoopError : Type 0 where
  unowned_tool : String → LoopError
  mixed_turn : LoopError
  loop_limit : ℕ → LoopError
  tool_failed : String → String → LoopError
  call_failed : Option Failure → LoopError

-- How the loop ends, with the responses that the provider gave in it and the trace of tool calls.
pub record Looped : Type 0 where
  pub turns : List Response
  pub tool_calls : List TraceEntry
  pub retries : ℕ
  pub result : Option Response
  pub error : Option LoopError

abbrev pub first_non_empty : String → String → String
first_non_empty a b = if a == "" then b else a

abbrev pub call_of : ResponseOutput → ToolCall
call_of o = record { id = first_non_empty o.id o.call_id; name = o.name; arguments = o.args }

abbrev pub calls_in : List ResponseOutput → List ToolCall
calls_in [] = []
calls_in (o ∷ os) = if o.type == "function_call" then call_of o ∷ calls_in os else calls_in os

unfoldable pub output_tool_calls : Response → List ToolCall
output_tool_calls r = calls_in r.output

abbrev pub not_empty : List String → List String
not_empty [] = []
not_empty (t ∷ ts) = if t == "" then not_empty ts else t ∷ not_empty ts

abbrev pub texts_in : List ResponseOutput → List String
texts_in [] = []
texts_in (o ∷ os) = (if o.type == "message" then not_empty o.content else []) ++ texts_in os

abbrev pub or_no_message : List String → List ToolCall → List Message
or_no_message [] [] = []
or_no_message texts calls =
    record {
      role = "assistant";
      type = "message";
      tool_call_id = "";
      content = texts;
      tool_calls = calls;
    }
    ∷ []

unfoldable pub tool_loop_response_messages : Response → List Message
tool_loop_response_messages r = or_no_message (texts_in r.output) (calls_in r.output)

-- The calls that are the gateway's, or the first one that nobody owns.
pub data Sorted : Type 0 where
  gateway_calls : List ToolCall → Sorted
  unowned : String → Sorted

abbrev pub with_call : Option ToolOwner → ToolCall → Sorted → Sorted
with_call none c rest = unowned c.name
with_call (some o) c (unowned n) = unowned n
with_call (some o) c (gateway_calls cs) = gateway_calls (if is_gateway o then c ∷ cs else cs)

unfoldable pub sort_calls : Map String ToolOwner → List ToolCall → Sorted
unfolding lookup
sort_calls owners [] = gateway_calls []
sort_calls owners (c ∷ cs) = with_call (lookup c.name owners) c (sort_calls owners cs)

abbrev pub add_usage : Usage → Usage → Usage
add_usage a b = record {
  prompt_tokens = a.prompt_tokens +ℤ b.prompt_tokens;
  completion_tokens = a.completion_tokens +ℤ b.completion_tokens;
  total_tokens = a.total_tokens +ℤ b.total_tokens;
  cached_tokens = a.cached_tokens +ℤ b.cached_tokens;
}

unfoldable pub record_external_tool_calls : Map String ToolOwner → List ToolCall → List TraceEntry
unfolding lookup
record_external_tool_calls owners [] = []
record_external_tool_calls owners (c ∷ cs) =
    record {
      call_id = c.id;
      name = c.name;
      owner = lookup c.name owners;
      outcome = "returned";
      error = "";
    }
    ∷ record_external_tool_calls owners cs

-- The outputs of a round's calls up to the first that fails, with the trace.
pub record Round : Type 0 where
  pub messages : List Message
  pub entries : List TraceEntry
  pub failed : Option LoopError

abbrev pub entry : ToolCall → String → String → TraceEntry
entry c outcome error = record {
  call_id = c.id;
  name = c.name;
  owner = some gateway;
  outcome = outcome;
  error = error;
}

abbrev pub tool_message : ToolCall → String → Message
tool_message c output = record {
  role = "tool";
  type = "function_call_output";
  tool_call_id = c.id;
  content = output ∷ [];
  tool_calls = [];
}

abbrev pub after_call : ToolCall → Executed → Round → Round
after_call c (returns output) rest = record rest {
  messages = tool_message c output ∷ rest.messages;
  entries = entry c "success" "" ∷ rest.entries;
}
after_call c (fails e) rest = record {
  messages = [];
  entries = entry c "error" e ∷ [];
  failed = some (tool_failed c.name e);
}

unfoldable pub execute_calls : (ℕ → ToolCall → Executed) → ℕ → List ToolCall → Round
execute_calls execute n [] = record { messages = []; entries = []; failed = none }
execute_calls execute n (c ∷ cs) = after_call c (execute n c) (execute_calls execute (n + 1) cs)

unfoldable pub max_rounds_of : ToolOwnershipConfig → ℕ
max_rounds_of cfg = if ltb_ℤ (pos 0) cfg.max_loop_rounds then pos_part cfg.max_loop_rounds else 4

abbrev pub ends : Option Response → Option LoopError → List TraceEntry → Looped
ends result error entries = record {
  turns = [];
  tool_calls = entries;
  retries = 0;
  result = result;
  error = error;
}

-- A turn of the provider before the rest of the loop.
abbrev pub after_turn : List TraceEntry → ℕ → Response → Option Looped → Option Looped
after_turn entries retries r none = none
after_turn entries retries r (some rest) = some record rest {
  turns = r ∷ rest.turns;
  tool_calls = entries ++ rest.tool_calls;
  retries = retries + rest.retries;
}
