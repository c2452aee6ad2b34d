-- ===== src/Tools/Loop/Owned.antt =====
-- Whose tools the loop of `runGatewayToolLoop` runs, and what it hands back.
use gateyes.Common.{
  ℕ, zero, suc, ◌+◌, ◌≤◌, ◌≡◌, refl, String, true, false, Option, none, some, List, [], ◌∷◌, ◌++◌,
  string_eq, length, leb, nat_beq, Map, lookup, All, arith, Bool-cases, inl, inr, ◌⊎◌, ap, subst,
  ◌∙◌,
}
use gateyes.Calling.{Ports, RetryConfig, Called, call_with_retry}
use gateyes.Tools.{ToolOwner, gateway, client, provider, is_gateway}
use gateyes.Tools.Turns.{
  TraceEntry, ToolCall, Usage, Response, Message, Executed, returns, fails, Looped, LoopError,
  Round, Sorted, gateway_calls, unowned, output_tool_calls, sort_calls, with_call, execute_calls,
  after_call, after_turn, record_external_tool_calls, add_usage,
}
use gateyes.Tools.Loop.{after_answer, ask_again, next_round, loop_from, run_gateway_tool_loop}
use gateyes.Tools.Loop.Ends.{Sorted-cases, EndsWithin, run_gateway_tool_loop-EndsWithin}

-- The usage after some more turns.
abbrev pub spent : Usage → List Response → Usage
spent total [] = total
spent total (r ∷ rs) = spent (add_usage total r.usage) rs

module _ (owners : Map String ToolOwner) where
  abbrev pub IsGateways : ToolCall → Type 0
  IsGateways c = lookup c.name owners ≡ some gateway

  -- A call that another party owns.
  abbrev pub IsOthers : ToolCall → Type 0
  IsOthers c = (o : ToolOwner) × (lookup c.name owners ≡ some o) × (is_gateway o ≡ false)

  -- The trace names the owner, and what was executed was the gateway's.
  abbrev pub IsRight : TraceEntry → Type 0
  IsRight e =
      (lookup e.name owners ≡ e.owner) × ((e.outcome ≡ "returned") ⊎ (e.owner ≡ some gateway))

  abbrev pub IsReturned : Usage → List Response → Option Response → Type 0
  IsReturned total turns none = Unit
  IsReturned total turns (some r) =
      All IsOthers (output_tool_calls r) × (r.usage ≡ spent total turns)

  abbrev pub IsOwned : Usage → Option Looped → Type 0
  IsOwned total none = Unit
  IsOwned total (some l) = All IsRight l.tool_calls × IsReturned total l.turns l.result

  is_gateway_only : (o : ToolOwner) → is_gateway o ≡ true → o ≡ gateway
  is_gateway_only gateway h = refl
  is_gateway_only client h = absurd (ground arith)
  is_gateway_only provider h = absurd (ground arith)

  -- What sorting tells of the calls that it keeps, and of all when it keeps none.
  IsSorted : List ToolCall → Sorted → Type 0
  IsSorted calls (unowned name) = Unit
  IsSorted calls (gateway_calls []) = All IsOthers calls
  IsSorted calls (gateway_calls (c ∷ cs)) = All IsGateways (c ∷ cs)

  with_call-IsSorted :
      (c : ToolCall) (cs : List ToolCall) (o : Option ToolOwner) (s : Sorted)
      → lookup c.name owners ≡ o
      → IsSorted cs s
      → IsSorted (c ∷ cs) (with_call o c s)
  unfolding IsSorted
  with_call-IsSorted c cs none s e h = tt
  with_call-IsSorted c cs (some o) (unowned name) e h = tt
  with_call-IsSorted c cs (some o) (gateway_calls []) e h = elim (Bool-cases (is_gateway o)) [
    | inl y ↦ rw (y, with_call) (e ∙ ap some (is_gateway_only o y), tt)
    | inr n ↦ rw (n, with_call) ((o, e, n), h)
  ]
  with_call-IsSorted c cs (some o) (gateway_calls (d ∷ ds)) e h = elim (Bool-cases (is_gateway o)) [
    | inl y ↦ rw (y, with_call) (e ∙ ap some (is_gateway_only o y), h)
    | inr n ↦ rw (n, with_call) h
  ]

  sort_calls-IsSorted : (calls : List ToolCall) → IsSorted calls (sort_calls owners calls)
  unfolding sort_calls IsSorted
  sort_calls-IsSorted [] = tt
  sort_calls-IsSorted (c ∷ cs) =
      with_call-IsSorted c cs (lookup c.name owners) (sort_calls owners cs) refl
        (sort_calls-IsSorted cs)

  after_call-IsRight :
      (c : ToolCall) (x : Executed) (rest : Round)
      → IsGateways c
      → All IsRight rest.entries
      → All IsRight (after_call c x rest).entries
  after_call-IsRight c (returns output) rest g h = ((g, inr refl), h)
  after_call-IsRight c (fails e) rest g h = ((g, inr refl), tt)

  execute_calls-IsRight :
      (execute : ℕ → ToolCall → Executed) (n : ℕ) (cs : List ToolCall)
      → All IsGateways cs
      → All IsRight (execute_calls execute n cs).entries
  unfolding execute_calls
  execute_calls-IsRight execute n [] h = tt
  execute_calls-IsRight execute n (c ∷ cs) (g, h) =
      after_call-IsRight c (execute n c) (execute_calls execute (n + 1) cs) g
        (execute_calls-IsRight execute (n + 1) cs h)

  external-IsRight : (cs : List ToolCall) → All IsRight (record_external_tool_calls owners cs)
  unfolding record_external_tool_calls
  external-IsRight [] = tt
  external-IsRight (c ∷ cs) = ((refl, inl refl), external-IsRight cs)

  IsRight-append :
      (es fs : List TraceEntry) → All IsRight es → All IsRight fs → All IsRight (es ++ fs)
  IsRight-append [] fs h g = g
  IsRight-append (e ∷ es) fs (h, hs) g = (h, IsRight-append es fs hs g)

  after_turn-IsOwned :
      (total : Usage) (retries : ℕ) (entries : List TraceEntry) (r : Response) (o : Option Looped)
      → All IsRight entries
      → IsOwned (add_usage total r.usage) o
      → IsOwned total (after_turn entries retries r o)
  after_turn-IsOwned total retries entries r none h g = tt
  after_turn-IsOwned total retries entries r (some l) h (g, q) =
      (IsRight-append entries l.tool_calls h g, returned l.result q)
    where
      returned :
          (x : Option Response)
          → IsReturned (add_usage total r.usage) l.turns x
          → IsReturned total (r ∷ l.turns) x
      returned none q = tt
      returned (some y) q = q

  ended_owned :
      (total : Usage) (n : ℕ) (o : Option Looped)
      → EndsWithin n o
      → IsOwned total o
      → (l : Looped) × (o ≡ some l)
        × (length l.turns ≤ n)
        × All IsRight l.tool_calls
        × IsReturned total l.turns l.result
  ended_owned total n none h g = elim h [ ]
  ended_owned total n (some l) h (g, q) = (l, refl, h, g, q)

  module _ (execute : ℕ → ℕ → ToolCall → Executed) (upstream : ℕ → Ports (List Message) Response)
      (retrying : RetryConfig) (normalize : Response → Response) (max_rounds : ℕ) where
    after_answer-IsOwned :
        (total : Usage) (entries : List TraceEntry) (again : Response → Option Looped)
        (called : Called Response) (o : Option Response)
        → All IsRight entries
        → ((next : Response) → IsOwned (add_usage total next.usage) (again next))
        → IsOwned total (
            after_answer execute upstream retrying normalize owners max_rounds entries again called
              o)
    unfolding after_answer
    after_answer-IsOwned total entries again called none h g = (h, tt)
    after_answer-IsOwned total entries again called (some next) h g =
        after_turn-IsOwned total called.retries entries (normalize next) (again (normalize next)) h
          (g (normalize next))

    ask_again-IsOwned :
        (total : Usage) (round : ℕ) (messages : List Message) (entries : List TraceEntry)
        (again : Response → Option Looped) (failed : Option LoopError)
        → All IsRight entries
        → ((next : Response) → IsOwned (add_usage total next.usage) (again next))
        → IsOwned total (
            ask_again execute upstream retrying normalize owners max_rounds round messages entries
              again failed)
    unfolding ask_again
    ask_again-IsOwned total round messages entries again (some e) h g = (h, tt)
    ask_again-IsOwned total round messages entries again none h g =
        let called : Called Response = call_with_retry (upstream round) retrying messages in
        after_answer-IsOwned total entries again called called.response h g

    next_round-IsOwned :
        (total : Usage) (round : ℕ) (messages : List Message) (r : Response) (calls : List ToolCall)
        (again : List Message → Response → Option Looped)
        → All IsGateways calls
        → ((messages : List Message) (next : Response)
            → IsOwned (add_usage total next.usage) (again messages next))
        → IsOwned total (
            next_round execute upstream retrying normalize owners max_rounds round messages r calls
              again)
    unfolding next_round
    next_round-IsOwned total round messages r calls again h g =
        ask_again-IsOwned total round _ _ _ _ (execute_calls-IsRight (execute round) 0 calls h)
          (g _)

    loop_from-IsOwned :
        (fuel round : ℕ) (messages : List Message) (total : Usage) (r : Response)
        → IsOwned total (
            loop_from execute upstream retrying normalize owners max_rounds fuel round messages
              total r)
    unfolding loop_from IsSorted output_tool_calls
    loop_from-IsOwned zero round messages total r = tt
    loop_from-IsOwned (suc fuel) round messages total r =
        let sorted = sort_calls-IsSorted (output_tool_calls r) in
        elim (Sorted-cases (sort_calls owners (output_tool_calls r))) [
          | inl (name, s) ↦ rw (s, loop_from) (tt, tt)
          | inr (inl s) ↦
              rw (s, loop_from)
                (
                  external-IsRight (output_tool_calls r),
                  (subst (IsSorted (output_tool_calls r)) s sorted, refl),
                )
          | inr (inr (c, cs, s)) ↦
              elim (Bool-cases (nat_beq (length (c ∷ cs)) (length (output_tool_calls r)))) [
                | inr m ↦ rw (s, loop_from, m) (tt, tt)
                | inl m ↦ elim (Bool-cases (leb max_rounds round)) [
                  | inl l ↦ rw (s, loop_from, m, l) (tt, tt)
                  | inr l ↦
                      rw (s, loop_from, m, l)
                        (next_round-IsOwned total round messages r (c ∷ cs) _
                          (subst (IsSorted (output_tool_calls r)) s sorted)
                          (λ messages' next.
                            loop_from-IsOwned fuel (round + 1) messages'
                              (add_usage total next.usage) next))
                ]
              ]
        ]

    -- However the executor, the provider and its plugins answer, the loop comes to an end, after at most
    -- as many more turns of the provider as the maximum says. It executes only calls whose tool is
    -- the gateway's, and its trace names the owner of each call. A response that it hands back calls
    -- only tools of other parties, and its usage is that of the first response and of all turns.
    pub run_gateway_tool_loop-IsOwned :
        (messages : List Message) (initial : Response)
        → (l : Looped) × (run_gateway_tool_loop execute upstream retrying normalize owners
              max_rounds
              (suc max_rounds)
              messages
              initial
            ≡ some l)
          × (length l.turns ≤ max_rounds)
          × All IsRight l.tool_calls
          × IsReturned initial.usage l.turns l.result
    unfolding run_gateway_tool_loop
    run_gateway_tool_loop-IsOwned messages initial =
        ended_owned initial.usage max_rounds _
          (run_gateway_tool_loop-EndsWithin execute upstream retrying normalize owners max_rounds
            messages initial)
          (loop_from-IsOwned (suc max_rounds) 0 messages initial.usage initial)
