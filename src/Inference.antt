-- ===== src/Inference.antt =====
-- internal/application/inference/orchestrator.go: the ports and the loops of `Create`, which tries the
-- planned providers in turn.
-- The ports are arguments. What a port answers depends on all the calls before, so a port is a
-- function of the log of calls, newest first. A nil port is `none`, a nil error as well.
pub mod Creation
pub mod Closing
pub mod Attempts
use gateyes.Common.{
  ℕ, zero, suc, ◌+◌, ◌-◌, String, Bool, true, false, Option, none, some, List, [], ◌∷◌, ltb, leb,
  if◌then◌else◌,
}

-- A call of a port, with the name of the provider that it is about.
pub data Call : Type 0 where
  admit before lookup_cache plan create_record after complete_record fail_record audit wait : Call
  invoke record_usage store_cache : String → Call

abbrev pub Log : Type 0
Log = List Call

module _ (Req Resp Error : Type 0) where
  pub record PluginHooks : Type 0 where
    pub before_hook : Log → Req → Req × Option Error
    pub after_hook : Log → Option Resp → Option Resp × Option Error

  pub record StreamCache : Type 0 where
    -- The decoded entry and its provider; an error, of the lookup or of decoding, is the second part.
    pub lookup : Log → Req → Option (Resp × String) × Option Error

  pub record Dependencies : Type 0 where
    pub admission : Option (Log → Req → Option Error)
    pub router : Option (Log → Req → List String × Option Error)
    pub invoker : Log → String → Req → Option Resp × Option Error
    pub cache : Option StreamCache
    pub usage : Option (Log → String → Option Resp → Option Error)
    pub plugins : Option PluginHooks
    -- The answer of `Create`; those of `Complete` and `Fail` are dropped.
    pub repository : Option (Log → Option Error)
    pub max_attempts : ℕ
    pub initial_delay : ℕ

pub record Result (Resp : Type 0) : Type 0 where
  pub response : Option Resp
  pub provider_name : String
  pub retries : ℕ
  pub fallback : ℕ

pub data Reply (Resp Error : Type 0) : Type 0 where
  replies : Result Resp → Reply Resp Error
  fails : Error → Reply Resp Error

-- `if o.deps.X != nil { ... }`, for a port whose answer is dropped.
abbrev pub note {ℓ} : {A : Type ℓ} → Option A → Call → Log → Log
note none c log = log
note (some port) c log = c ∷ log

abbrev pub run_usage :
    {Resp Error : Type 0}
    → Option (Log → String → Option Resp → Option Error)
    → Log
    → String
    → Option Resp
    → Log × Option Error
run_usage none log name resp = (log, none)
run_usage (some answer) log name resp = (record_usage name ∷ log, answer log name resp)

-- How one attempt ends: with the response, or with `lastErr`.
pub data Attempt (Resp Error : Type 0) : Type 0 where
  succeeded : Option Resp → Attempt Resp Error
  failed : Option Error → Attempt Resp Error

-- How the loops end: with a result, with the error of the context, or with `lastErr`.
pub data Ending (Resp Error : Type 0) : Type 0 where
  served : Result Resp → Ending Resp Error
  cancelled : Error → Ending Resp Error
  exhausted : Option Error → Ending Resp Error

module _ {Req Resp Error : Type 0} where
  -- The part of `NewOrchestrator` that is about numbers.
  unfoldable pub new_orchestrator : Dependencies Req Resp Error → Dependencies Req Resp Error
  new_orchestrator d = record d {
    max_attempts = if ltb d.max_attempts 1 then 1 else d.max_attempts;
  }

  abbrev pub run_after :
      Option (PluginHooks Req Resp Error) → Log → Option Resp → Log × (Option Resp × Option Error)
  run_after none log resp = (log, (resp, none))
  run_after (some p) log resp = (after ∷ log, p.after_hook log resp)

  -- The calls after a response is recorded.
  unfoldable pub finish : Dependencies Req Resp Error → String → Log → Log
  finish d name log =
      note d.plugins audit (note d.cache (store_cache name) (note d.repository complete_record log))

  unfoldable pub record_response :
      Dependencies Req Resp Error
      → String
      → Log × (Option Resp × Option Error)
      → Log × Attempt Resp Error
  record_response d name (log, (resp, some e)) = (log, failed (some e))
  record_response d name (log, (resp, none)) =
      let (log', err) = run_usage d.usage log name resp in
      elim err [ some e ↦ (log', failed (some e)) | none ↦ (finish d name log', succeeded resp) ]

  -- One round of the loop over the attempts, up to `lastErr = callErr`.
  unfoldable pub try_once :
      Dependencies Req Resp Error → Req → String → Log → Log × Attempt Resp Error
  try_once d req name log =
      let (resp, err) = d.invoker log name req in
      let called : Log = invoke name ∷ log in
      elim err [
        | some e ↦ (called, failed (some e))
        | none ↦ elim resp [
          | none ↦ (called, failed none)
          | some r ↦ record_response d name (run_after d.plugins called (some r))
        ]
      ]

  -- The wait between two attempts: the error of the context if it ends meanwhile. `ended` is what
  -- `ctx.Err()` is then.
  unfoldable pub wait_for :
      Dependencies Req Resp Error → (Log → Option Error) → Log → Log × Option Error
  wait_for d ended log = if ltb 0 d.initial_delay then (wait ∷ log, ended log) else (log, none)

  -- The loop over the attempts of a candidate, `left` of them; the numbers are `retries` and
  -- `fallback`. It ends with the number of retries when the candidate is given up.
  unfoldable pub attempts_loop :
      Dependencies Req Resp Error
      → (Log → Option Error)
      → Req
      → String
      → ℕ
      → ℕ
      → ℕ
      → Option Error
      → Log
      → Log × (Ending Resp Error × ℕ)
  attempts_loop d ended req name zero retries fallback last log = (log, (exhausted last, retries))
  attempts_loop d ended req name (suc left) retries fallback last log =
      let (log', a) = try_once d req name log in
      elim a [
        | succeeded resp ↦ (
          log',
          (
            served (record {
              response = resp;
              provider_name = name;
              retries = retries;
              fallback = fallback;
            }),
            retries,
          ),
        )
        | failed e ↦
            if ltb 0 left
            then (let (waited, stop) = wait_for d ended log' in
                elim stop [
                  | some c ↦ (waited, (cancelled c, retries + 1))
                  | none ↦ attempts_loop d ended req name left (retries + 1) fallback e waited
                ])
            else (log', (exhausted e, retries))
      ]

  -- The loop over the candidates. The source leaves `fallback` alone after the last one, where the
  -- number is not read any more.
  unfoldable pub candidates_loop :
      Dependencies Req Resp Error
      → (Log → Option Error)
      → Req
      → List String
      → ℕ
      → ℕ
      → Option Error
      → Log
      → Log × Ending Resp Error
  candidates_loop d ended req [] retries fallback last log = (log, exhausted last)
  candidates_loop d ended req (name ∷ names) retries fallback last log =
      let (log', (ending, retries')) =
        attempts_loop d ended req name d.max_attempts retries fallback last log in
      elim ending [
        | served r ↦ (log', served r)
        | cancelled c ↦ (log', cancelled c)
        | exhausted e ↦ candidates_loop d ended req names retries' (fallback + 1) e log'
      ]

  -- `Create` from the loops on.
  unfoldable pub conclude :
      Dependencies Req Resp Error → Error → Log × Ending Resp Error → Log × Reply Resp Error
  conclude d no_provider (log, served r) = (log, replies r)
  conclude d no_provider (log, cancelled c) = (log, fails c)
  conclude d no_provider (log, exhausted none) =
      (note d.repository fail_record log, fails no_provider)
  conclude d no_provider (log, exhausted (some e)) = (note d.repository fail_record log, fails e)

  unfoldable pub serve :
      Dependencies Req Resp Error
      → (Log → Option Error)
      → Error
      → Req
      → List String
      → Log
      → Log × Reply Resp Error
  serve d ended no_provider req names log =
      conclude d no_provider (candidates_loop d ended req names 0 0 none log)
