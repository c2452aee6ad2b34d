-- ===== src/Inference/Attempts.antt =====
-- How often `Create` of internal/application/inference/orchestrator.go calls the providers.
use gateyes.Common.{
  ℕ, zero, suc, ◌+◌, ◌*◌, ◌≤◌, ◌≡◌, refl, String, Option, none, some, List, [], ◌∷◌, length, arith,
  Option-cases, inl, inr,
}
use gateyes.Inference.{
  fail_record, invoke, Log, Dependencies, PluginHooks, note, run_usage, run_after, finish,
  record_response, try_once, wait_for, attempts_loop, candidates_loop, conclude, serve,
}
use gateyes.Inference.Closing.{Attempt-cases, Ending-cases}

abbrev pub invocations : Log → ℕ
invocations [] = 0
invocations (invoke name ∷ log) = suc (invocations log)
invocations (_ ∷ log) = invocations log

invocations-run_usage :
    {Resp Error : Type 0} (usage : Option (Log → String → Option Resp → Option Error)) (log : Log)
    (name : String) (resp : Option Resp)
    → invocations (run_usage usage log name resp).0 ≡ invocations log
invocations-run_usage none log name resp = refl
invocations-run_usage (some u) log name resp = refl

invocations-run_after :
    {Req Resp Error : Type 0} (p : Option (PluginHooks Req Resp Error)) (log : Log)
    (resp : Option Resp)
    → invocations (run_after p log resp).0 ≡ invocations log
invocations-run_after none log resp = refl
invocations-run_after (some p) log resp = refl

module _ {Req Resp Error : Type 0} (d : Dependencies Req Resp Error) where
  invocations-finish :
      (name : String) (log : Log) → invocations (finish d name log) ≡ invocations log
  unfolding finish
  invocations-finish name log = ground arith

  invocations-record_response :
      (name : String) (log : Log) (resp : Option Resp) (err : Option Error)
      → invocations (record_response d name (log, (resp, err))).0 ≡ invocations log
  unfolding record_response
  invocations-record_response name log resp (some e) = refl
  invocations-record_response name log resp none = ground (
    arith,
    invocations-finish name (run_usage d.usage log name resp).0,
    invocations-run_usage d.usage log name resp,
  )

  invocations-try_once :
      (req : Req) (name : String) (log : Log)
      → invocations (try_once d req name log).0 ≡ suc (invocations log)
  unfolding try_once
  invocations-try_once req name log = elim (Option-cases (d.invoker log name req).1) [
    | inr (e, f) ↦ rw (f, try_once) refl
    | inl f ↦ elim (Option-cases (d.invoker log name req).0) [
      | inl g ↦ rw (f, g, try_once) refl
      | inr (r, g) ↦
          let ran = run_after d.plugins (invoke name ∷ log) (some r) in
          rw (f, g, try_once)
            (omega (
              arith,
              invocations-record_response name ran.0 ran.1.0 ran.1.1,
              invocations-run_after d.plugins (invoke name ∷ log) (some r),
            ))
    ]
  ]

  invocations-wait_for :
      (ended : Log → Option Error) (log : Log)
      → invocations (wait_for d ended log).0 ≡ invocations log
  unfolding wait_for
  invocations-wait_for ended log = ground arith

  invocations-attempts_loop :
      (ended : Log → Option Error) (req : Req) (name : String) (left retries fallback : ℕ)
      (last : Option Error) (log : Log)
      → invocations (attempts_loop d ended req name left retries fallback last log).0
        ≤ invocations log + left
  unfolding attempts_loop
  invocations-attempts_loop ended req name zero retries fallback last log = omega arith
  invocations-attempts_loop ended req name (suc left) retries fallback last log =
      elim (Attempt-cases (try_once d req name log).1) [
        | inl (r, f) ↦ ground (arith, f, invocations-try_once req name log)
        | inr (e, f) ↦
            let log' = (try_once d req name log).0 in
            elim (Option-cases (wait_for d ended log').1) [
              | inl g ↦ ground (
                arith,
                f,
                g,
                invocations-try_once req name log,
                invocations-wait_for ended log',
                invocations-attempts_loop ended req name left (retries + 1) fallback e
                    (wait_for d ended log').0,
              )
              | inr (c, g) ↦
                  ground (
                    arith,
                    f,
                    g,
                    invocations-try_once req name log,
                    invocations-wait_for ended log',
                  )
            ]
      ]

  invocations-candidates_loop :
      (ended : Log → Option Error) (req : Req) (names : List String) (retries fallback : ℕ)
      (last : Option Error) (log : Log)
      → invocations (candidates_loop d ended req names retries fallback last log).0
        ≤ invocations log + length names * d.max_attempts
  unfolding candidates_loop
  invocations-candidates_loop ended req [] retries fallback last log = omega arith
  invocations-candidates_loop ended req (name ∷ names) retries fallback last log =
      let ran = attempts_loop d ended req name d.max_attempts retries fallback last log in
      let one = invocations-attempts_loop ended req name d.max_attempts retries fallback last log in
      elim (Ending-cases ran.1.0) [
        | inl (r, f) ↦ ground (arith, f, one)
        | inr (inl (c, f)) ↦ ground (arith, f, one)
        | inr (inr (e, f)) ↦ ground (
          arith,
          f,
          one,
          invocations-candidates_loop ended req names ran.1.1 (fallback + 1) e ran.0,
        )
      ]

  invocations-note_fail :
      {A : Type 0} (port : Option A) (log : Log)
      → invocations (note port fail_record log) ≡ invocations log
  invocations-note_fail none log = refl
  invocations-note_fail (some a) log = refl

  -- However the ports answer, a request calls the providers at most as often as there are planned
  -- candidates, times the attempts that the configuration allows for one.
  pub invocations-serve :
      (ended : Log → Option Error) (no_provider : Error) (req : Req) (names : List String)
      (log : Log)
      → invocations (serve d ended no_provider req names log).0
        ≤ invocations log + length names * d.max_attempts
  unfolding serve conclude
  invocations-serve ended no_provider req names log =
      let all = invocations-candidates_loop ended req names 0 0 none log in
      elim (Ending-cases (candidates_loop d ended req names 0 0 none log).1) [
        | inl (r, f) ↦ ground (arith, f, all)
        | inr (inl (c, f)) ↦ ground (arith, f, all)
        | inr (inr (e, f)) ↦ ground (arith, f, all)
      ]
