-- ===== src/Tools/Loop/Ends.antt =====
-- The loop of `runGatewayToolLoop`, which has no condition of its own, ends.
use gateyes.Common.{
  ℕ, zero, suc, ◌+◌, ◌-◌, ◌≤◌, ◌<◌, ◌≡◌, refl, String, Option, none, some, List, [], ◌∷◌, length,
  leb, nat_beq, Map, arith, Bool-cases, inl, inr, ◌⊎◌,
}
use gateyes.Calling.{Ports, RetryConfig, Called, call_with_retry}
use gateyes.Tools.{ToolOwner}
use gateyes.Tools.Turns.{
  TraceEntry, ToolCall, Usage, Response, Message, Executed, Looped, LoopError, Sorted,
  gateway_calls, unowned, output_tool_calls, sort_calls, after_turn, add_usage,
}
use gateyes.Tools.Loop.{after_answer, ask_again, next_round, loop_from, run_gateway_tool_loop}

-- The loop has ended, after at most so many more turns of the provider.
abbrev pub EndsWithin : ℕ → Option Looped → Type 0
EndsWithin n none = ⊥
EndsWithin n (some l) = length l.turns ≤ n

pub Sorted-cases :
    (s : Sorted)
    → ((name : String) × (s ≡ unowned name))
      ⊎ (s ≡ gateway_calls [])
      ⊎ ((c : ToolCall) × (cs : List ToolCall) × (s ≡ gateway_calls (c ∷ cs)))
Sorted-cases (unowned name) = inl (name, refl)
Sorted-cases (gateway_calls []) = inr (inl refl)
Sorted-cases (gateway_calls (c ∷ cs)) = inr (inr (c, cs, refl))

module _ (execute : ℕ → ℕ → ToolCall → Executed) (upstream : ℕ → Ports (List Message) Response)
    (retrying : RetryConfig) (normalize : Response → Response) (owners : Map String ToolOwner)
    (max_rounds : ℕ) where
  after_turn-EndsWithin :
      (n retries : ℕ) (entries : List TraceEntry) (r : Response) (o : Option Looped)
      → 0 < n
      → EndsWithin (n - 1) o
      → EndsWithin n (after_turn entries retries r o)
  after_turn-EndsWithin n retries entries r none p h = h
  after_turn-EndsWithin n retries entries r (some l) p h = omega arith

  after_answer-EndsWithin :
      (n : ℕ) (entries : List TraceEntry) (again : Response → Option Looped)
      (called : Called Response) (o : Option Response)
      → 0 < n
      → ((next : Response) → EndsWithin (n - 1) (again next))
      → EndsWithin n (
          after_answer execute upstream retrying normalize owners max_rounds entries again called o)
  unfolding after_answer
  after_answer-EndsWithin n entries again called none p h = omega arith
  after_answer-EndsWithin n entries again called (some next) p h =
      after_turn-EndsWithin n called.retries entries (normalize next) (again (normalize next)) p
        (h (normalize next))

  ask_again-EndsWithin :
      (n round : ℕ) (messages : List Message) (entries : List TraceEntry)
      (again : Response → Option Looped) (failed : Option LoopError)
      → 0 < n
      → ((next : Response) → EndsWithin (n - 1) (again next))
      → EndsWithin n (
          ask_again execute upstream retrying normalize owners max_rounds round messages entries
            again failed)
  unfolding ask_again
  ask_again-EndsWithin n round messages entries again (some e) p h = omega arith
  ask_again-EndsWithin n round messages entries again none p h =
      let called : Called Response = call_with_retry (upstream round) retrying messages in
      after_answer-EndsWithin n entries again called called.response p h

  next_round-EndsWithin :
      (n round : ℕ) (messages : List Message) (r : Response) (calls : List ToolCall)
      (again : List Message → Response → Option Looped)
      → 0 < n
      → ((messages : List Message) (next : Response) → EndsWithin (n - 1) (again messages next))
      → EndsWithin n (
          next_round execute upstream retrying normalize owners max_rounds round messages r calls
            again)
  unfolding next_round
  next_round-EndsWithin n round messages r calls again p h =
      ask_again-EndsWithin n round _ _ _ _ p (h _)

  loop_from-EndsWithin :
      (fuel round n : ℕ) (messages : List Message) (total : Usage) (r : Response)
      → round + n ≡ max_rounds
      → n < fuel
      → EndsWithin n (
          loop_from execute upstream retrying normalize owners max_rounds fuel round messages total
            r)
  unfolding loop_from
  loop_from-EndsWithin zero round n messages total r e h = elim h [ ]
  loop_from-EndsWithin (suc fuel) round n messages total r e h =
      elim (Sorted-cases (sort_calls owners (output_tool_calls r))) [
        | inl (name, s) ↦ rw (s, loop_from) (omega arith)
        | inr (inl s) ↦ rw (s, loop_from) (omega arith)
        | inr (inr (c, cs, s)) ↦
            elim (Bool-cases (nat_beq (length (c ∷ cs)) (length (output_tool_calls r)))) [
              | inr m ↦ rw (s, loop_from, m) (omega arith)
              | inl m ↦ elim (Bool-cases (leb max_rounds round)) [
                | inl l ↦ rw (s, loop_from, m, l) (omega arith)
                | inr l ↦
                    rw (s, loop_from, m, l)
                      (next_round-EndsWithin n round messages r (c ∷ cs) _ (ground arith)
                        (λ messages' next.
                          loop_from-EndsWithin fuel (round + 1) (n - 1) messages'
                            (add_usage total next.usage) next (ground arith) (ground arith)))
              ]
            ]
      ]

  -- The loop ends: with one round more than the configured maximum as its bound, it comes to a response
  -- or an error, after at most as many turns of the provider as the maximum says.
  pub run_gateway_tool_loop-EndsWithin :
      (messages : List Message) (initial : Response)
      → EndsWithin max_rounds (
          run_gateway_tool_loop execute upstream retrying normalize owners max_rounds
            (suc max_rounds)
            messages
            initial)
  unfolding run_gateway_tool_loop
  run_gateway_tool_loop-EndsWithin messages initial =
      loop_from-EndsWithin (suc max_rounds) 0 max_rounds messages initial.usage initial
        (omega arith) (omega arith)
