-- ===== src/Inference/Closing.antt =====
-- How `Create` of internal/application/inference/orchestrator.go closes the record it has created.
use gateyes.Common.{
  ℕ, zero, suc, ◌+◌, ◌≡◌, refl, String, Option, none, some, List, [], ◌∷◌, arith, Option-cases, inl,
  inr, ◌⊎◌,
}
use gateyes.Inference.{
  complete_record, fail_record, invoke, store_cache, Log, Dependencies, PluginHooks, Result, note,
  run_usage, run_after, Attempt, succeeded, failed, Ending, served, cancelled, exhausted, finish,
  record_response, try_once, wait_for, attempts_loop, candidates_loop, conclude, serve,
}

-- How often the record is given its final status.
abbrev pub closings : Log → ℕ
closings [] = 0
closings (complete_record ∷ log) = suc (closings log)
closings (fail_record ∷ log) = suc (closings log)
closings (_ ∷ log) = closings log

abbrev pub one_if {ℓ} : {A : Type ℓ} → Option A → ℕ
one_if none = 0
one_if (some a) = 1

closings-note_store :
    {A : Type 0} (port : Option A) (name : String) (log : Log)
    → closings (note port (store_cache name) log) ≡ closings log
closings-note_store none name log = refl
closings-note_store (some a) name log = refl

closings-run_usage :
    {Resp Error : Type 0} (usage : Option (Log → String → Option Resp → Option Error)) (log : Log)
    (name : String) (resp : Option Resp)
    → closings (run_usage usage log name resp).0 ≡ closings log
closings-run_usage none log name resp = refl
closings-run_usage (some u) log name resp = refl

closings-run_after :
    {Req Resp Error : Type 0} (p : Option (PluginHooks Req Resp Error)) (log : Log)
    (resp : Option Resp)
    → closings (run_after p log resp).0 ≡ closings log
closings-run_after none log resp = refl
closings-run_after (some p) log resp = refl

pub Attempt-cases :
    {Resp Error : Type 0} (a : Attempt Resp Error)
    → ((r : Option Resp) × (a ≡ succeeded r)) ⊎ ((e : Option Error) × (a ≡ failed e))
Attempt-cases (succeeded r) = inl (r, refl)
Attempt-cases (failed e) = inr (e, refl)

pub Ending-cases :
    {Resp Error : Type 0} (a : Ending Resp Error)
    → ((r : Result Resp) × (a ≡ served r))
      ⊎ (((c : Error) × (a ≡ cancelled c)) ⊎ ((e : Option Error) × (a ≡ exhausted e)))
Ending-cases (served r) = inl (r, refl)
Ending-cases (cancelled c) = inr (inl (c, refl))
Ending-cases (exhausted e) = inr (inr (e, refl))

module _ {Req Resp Error : Type 0} (d : Dependencies Req Resp Error) where
  closings-finish :
      (name : String) (log : Log)
      → closings (finish d name log) ≡ closings log + one_if d.repository
  unfolding finish
  closings-finish name log = ground arith

  -- The status that an attempt gives the record.
  abbrev closed_by : Attempt Resp Error → ℕ
  closed_by (succeeded r) = one_if d.repository
  closed_by (failed e) = 0

  closings-record_response :
      (name : String) (log : Log) (resp : Option Resp) (err : Option Error)
      → closings (record_response d name (log, (resp, err))).0
        ≡ closings log + closed_by (record_response d name (log, (resp, err))).1
  unfolding record_response
  closings-record_response name log resp (some e) = omega arith
  closings-record_response name log resp none = ground (
    arith,
    closings-finish name (run_usage d.usage log name resp).0,
    closings-run_usage d.usage log name resp,
  )

  closings-try_once :
      (req : Req) (name : String) (log : Log)
      → closings (try_once d req name log).0 ≡ closings log + closed_by (try_once d req name log).1
  unfolding try_once
  closings-try_once req name log = elim (Option-cases (d.invoker log name req).1) [
    | inr (e, f) ↦ rw (f, try_once) (omega arith)
    | inl f ↦ elim (Option-cases (d.invoker log name req).0) [
      | inl g ↦ rw (f, g, try_once) (omega arith)
      | inr (r, g) ↦
          let ran = run_after d.plugins (invoke name ∷ log) (some r) in
          rw (f, g, try_once)
            (omega (
              arith,
              closings-record_response name ran.0 ran.1.0 ran.1.1,
              closings-run_after d.plugins (invoke name ∷ log) (some r),
            ))
    ]
  ]

  abbrev closed_at_end : Ending Resp Error → ℕ
  closed_at_end (served r) = one_if d.repository
  closed_at_end (cancelled c) = 0
  closed_at_end (exhausted e) = 0

  closings-wait_for :
      (ended : Log → Option Error) (log : Log) → closings (wait_for d ended log).0 ≡ closings log
  unfolding wait_for
  closings-wait_for ended log = ground arith

  closings-attempts_loop :
      (ended : Log → Option Error) (req : Req) (name : String) (left retries fallback : ℕ)
      (last : Option Error) (log : Log)
      → closings (attempts_loop d ended req name left retries fallback last log).0
        ≡ closings log
          + closed_at_end (attempts_loop d ended req name left retries fallback last log).1.0
  unfolding attempts_loop
  closings-attempts_loop ended req name zero retries fallback last log = omega arith
  closings-attempts_loop ended req name (suc left) retries fallback last log =
      elim (Attempt-cases (try_once d req name log).1) [
        | inl (r, f) ↦ ground (arith, f, closings-try_once req name log)
        | inr (e, f) ↦
            let log' = (try_once d req name log).0 in
            elim (Option-cases (wait_for d ended log').1) [
              | inl g ↦ ground (
                arith,
                f,
                g,
                closings-try_once req name log,
                closings-wait_for ended log',
                closings-attempts_loop ended req name left (retries + 1) fallback e
                    (wait_for d ended log').0,
              )
              | inr (c, g) ↦
                  ground (arith, f, g, closings-try_once req name log, closings-wait_for ended log')
            ]
      ]

  closings-candidates_loop :
      (ended : Log → Option Error) (req : Req) (names : List String) (retries fallback : ℕ)
      (last : Option Error) (log : Log)
      → closings (candidates_loop d ended req names retries fallback last log).0
        ≡ closings log
          + closed_at_end (candidates_loop d ended req names retries fallback last log).1
  unfolding candidates_loop
  closings-candidates_loop ended req [] retries fallback last log = omega arith
  closings-candidates_loop ended req (name ∷ names) retries fallback last log =
      let ran = attempts_loop d ended req name d.max_attempts retries fallback last log in
      let one = closings-attempts_loop ended req name d.max_attempts retries fallback last log in
      elim (Ending-cases ran.1.0) [
        | inl (r, f) ↦ ground (arith, f, one)
        | inr (inl (c, f)) ↦ ground (arith, f, one)
        | inr (inr (e, f)) ↦
            ground (
              arith,
              f,
              one,
              closings-candidates_loop ended req names ran.1.1 (fallback + 1) e ran.0,
            )
      ]

  -- The record gets one final status, `Complete` or `Fail`, if the loops end with a result or with
  -- every attempt used up. It gets none if the context ends during a wait: it stays in progress.
  pub closings-serve :
      (ended : Log → Option Error) (no_provider : Error) (req : Req) (names : List String)
      (log : Log)
      → closings (serve d ended no_provider req names log).0
        ≡ closings log + elim (candidates_loop d ended req names 0 0 none log).1 [
          | cancelled c ↦ 0
          | _ ↦ one_if d.repository
        ]
  unfolding serve conclude
  closings-serve ended no_provider req names log =
      let all = closings-candidates_loop ended req names 0 0 none log in
      elim (Ending-cases (candidates_loop d ended req names 0 0 none log).1) [
        | inl (r, f) ↦ ground (arith, f, all)
        | inr (inl (c, f)) ↦ ground (arith, f, all)
        | inr (inr (e, f)) ↦ ground (arith, f, all)
      ]
