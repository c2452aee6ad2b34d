-- ===== src/Tools/Loop.antt =====
-- `runGatewayToolLoop` of internal/service/responses/tool_ownership.go, with its calls of
-- `callWithRetry`. The executor answers by the round and the place of a call in it; what building the
-- upstream request makes of the messages is part of the provider's port.
pub mod Ends
pub mod Owned
use gateyes.Common.{
  ℕ, zero, suc, ◌+◌, String, Bool, true, false, Option, none, some, List, [], ◌∷◌, ◌++◌, ◌==◌,
  string_eq, length, leb, nat_beq, not, if◌then◌else◌, Map, lookup, ℤ, pos, pos_part, ltb_ℤ, ◌+ℤ◌,
}
use gateyes.Calling.{Ports, RetryConfig, Called, Failure, call_with_retry}
use gateyes.Tools.{ToolOwner, gateway, is_gateway, ToolOwnershipConfig}
use gateyes.Tools.Turns.{
  ToolCall, Usage, ResponseOutput, Response, Message, Executed, TraceEntry, LoopError, Looped,
  first_non_empty, call_of, calls_in, output_tool_calls, not_empty, texts_in, or_no_message,
  tool_loop_response_messages, Sorted, with_call, sort_calls, add_usage, record_external_tool_calls,
  Round, entry, tool_message, after_call, execute_calls, max_rounds_of, ends, after_turn, returns,
  fails, unowned_tool, mixed_turn, loop_limit, tool_failed, call_failed, gateway_calls, unowned,
}

module _ (execute : ℕ → ℕ → ToolCall → Executed) (upstream : ℕ → Ports (List Message) Response)
    (retrying : RetryConfig) (normalize : Response → Response) (owners : Map String ToolOwner)
    (max_rounds : ℕ) where
  -- The provider has been asked again. `again` is the loop's next round.
  unfoldable pub after_answer :
      List TraceEntry
      → (Response → Option Looped)
      → Called Response
      → Option Response
      → Option Looped
  after_answer entries again called none =
      some
        record (ends none (some (call_failed called.failure)) entries) { retries = called.retries }
  after_answer entries again called (some next) =
      after_turn entries called.retries (normalize next) (again (normalize next))

  -- The round from the executed calls on, with the messages that they leave.
  unfoldable pub ask_again :
      ℕ
      → List Message
      → List TraceEntry
      → (Response → Option Looped)
      → Option LoopError
      → Option Looped
  unfolding after_answer
  ask_again round messages entries again (some e) = some (ends none (some e) entries)
  ask_again round messages entries again none =
      let called = call_with_retry (upstream round) retrying messages in
      after_answer entries again called called.response

  -- A round that is not the last one: the calls are executed, and the provider is asked again.
  unfoldable pub next_round :
      ℕ
      → List Message
      → Response
      → List ToolCall
      → (List Message → Response → Option Looped)
      → Option Looped
  unfolding tool_loop_response_messages execute_calls ask_again
  next_round round messages r calls again =
      let done : Round = execute_calls (execute round) 0 calls in
      let messages' : List Message = (messages ++ tool_loop_response_messages r) ++ done.messages in
      ask_again round messages' done.entries (again messages') done.failed

  -- The loop from round `round` on, with fuel; `none` says that the fuel ran out.
  unfoldable pub loop_from : ℕ → ℕ → List Message → Usage → Response → Option Looped
  unfolding output_tool_calls sort_calls record_external_tool_calls next_round
  loop_from zero round messages total r = none
  loop_from (suc fuel) round messages total r =
      let calls : List ToolCall = output_tool_calls r in
      elim (sort_calls owners calls) [
        | unowned name ↦ some (ends none (some (unowned_tool name)) [])
        | gateway_calls [] ↦
            some (
              ends (some record r { usage = total }) none (record_external_tool_calls owners calls))
        | gateway_calls (c ∷ cs) ↦
            if not (nat_beq (length (c ∷ cs)) (length calls))
            then some (ends none (some mixed_turn) [])
            else if leb max_rounds round
            then some (ends none (some (loop_limit max_rounds)) [])
            else next_round round messages r (c ∷ cs) (λ messages' next.
              loop_from fuel (round + 1) messages' (add_usage total next.usage) next)
      ]

  unfoldable pub run_gateway_tool_loop : ℕ → List Message → Response → Option Looped
  unfolding loop_from
  run_gateway_tool_loop fuel messages initial = loop_from fuel 0 messages initial.usage initial
