-- ===== src/Examples/Circuits.antt =====
-- The theorems on internal/service/responses/circuit_breaker.go at small histories.
use gateyes.Common.{
  ℕ, ◌*◌, ◌≤◌, ◌≡◌, refl, inr, String, true, false, some, List, [], ◌∷◌, arith, Map, lookup, insert,
  string_eq,
}
use text.Mathlib.TextEquality.{eq_iff}
use gateyes.Breaker.{
  Config, state_closed, state_open, state_half_open, CircuitBreaker, new_circuit_breaker, key,
  second, max_requests, is_available, get_state, modify,
}
use gateyes.Breaker.Transitions.{
  Call, acquires, successes, checks, failures, step, run, circuit, effect,
}
use gateyes.Breaker.Operations.{restores, operate, Transition, operate-Transition}
use gateyes.Breaker.Trip.{fail_at, trip-after_success, blocked-record_failure, recovery_cycle}
use gateyes.Breaker.Isolation.{get_state-step_ne}
use gateyes.Breaker.Probes.{half_open_requests_bound}
use gateyes.Breaker.Restart.{restart, get_state-restart}

program : Unit {0}
unfolding new_circuit_breaker key max_requests is_available get_state step run circuit effect modify
    lookup insert
program = tt

abbrev cfg : Config
cfg = record { failure_threshold = 2; recovery_timeout = 60; half_open_max_requests = 1 }

abbrev start : CircuitBreaker
start = new_circuit_breaker cfg

-- Two failures, at one and two seconds.
abbrev tripped : CircuitBreaker
tripped =
    run start (failures (1 * second) "acme" "openai" ∷ failures (2 * second) "acme" "openai" ∷ [])

tripped_state : get_state tripped "acme" "openai" ≡ state_open
unfolding program
tripped_state = refl

operate-Transition_example :
    Transition some tripped.cfg
      (restores (90 * second) (some ((key "acme" "openai", 2) ∷ [])))
      (key "acme" "openai")
      (circuit tripped (key "acme" "openai"))
      (circuit
        (operate some tripped (restores (90 * second) (some ((key "acme" "openai", 2) ∷ []))))
        (key "acme" "openai"))
operate-Transition_example =
    operate-Transition some tripped (restores (90 * second) (some ((key "acme" "openai", 2) ∷ [])))
      (key "acme" "openai")

trip-after_success_example :
    get_state
      (run tripped (successes "acme" "openai" ∷ fail_at "acme" "openai" (5 ∷ 6 ∷ [])))
      "acme"
      "openai"
    ≡ state_open
unfolding program
trip-after_success_example = trip-after_success tripped "acme" "openai" 5 (6 ∷ [])

blocked-record_failure_example :
    (is_available
      (run
        (step tripped (failures (3 * second) "acme" "openai"))
        (checks (10 * second) "acme" "openai" ∷ []))
      (63 * second)
      "acme"
      "openai").1
    ≡ false
unfolding program
blocked-record_failure_example =
    blocked-record_failure tripped "acme" "openai" (3 * second) (63 * second)
      (checks (10 * second) "acme" "openai" ∷ []) refl (omega arith) (omega arith)

recovery_cycle_example :
    ((is_available tripped (90 * second) "acme" "openai").1 ≡ true)
    × (get_state (step tripped (checks (90 * second) "acme" "openai")) "acme" "openai"
        ≡ state_half_open)
    × (get_state
          (step (step tripped (checks (90 * second) "acme" "openai")) (successes "acme" "openai"))
          "acme"
          "openai"
        ≡ state_closed)
    × (get_state
          (step
            (step tripped (checks (90 * second) "acme" "openai"))
            (failures (91 * second) "acme" "openai"))
          "acme"
          "openai"
        ≡ state_open)
unfolding program
recovery_cycle_example =
    recovery_cycle tripped "acme" "openai" (90 * second) (91 * second) refl (omega arith)

get_state-step_ne_example :
    get_state (step tripped (successes "acme" "azure")) "acme" "openai"
    ≡ get_state tripped "acme" "openai"
get_state-step_ne_example =
    get_state-step_ne tripped (successes "acme" "azure") "acme" "openai" (omega arith) (omega arith)
      (inr (ground (arith, eq_iff "azure" "openai")))

half_open_requests_bound_example :
    (circuit
      (run start (acquires "acme" "openai" ∷ acquires "acme" "openai" ∷ []))
      (key "acme" "openai")).half_open_requests
    ≤ max_requests cfg
half_open_requests_bound_example =
    half_open_requests_bound cfg (acquires "acme" "openai" ∷ acquires "acme" "openai" ∷ [])
      (key "acme" "openai")

abbrev probing : List Call
probing =
    failures (1 * second) "acme" "openai"
    ∷ failures (2 * second) "acme" "openai"
    ∷ checks (90 * second) "acme" "openai"
    ∷ checks (91 * second) "acme" "openai"
    ∷ []

-- A store that keeps the map itself.
abbrev keep : Map String ℕ → Map String ℕ
keep m = m

abbrev keep_back :
    (m : Map String ℕ)
    → (m' : Map String ℕ) × (some m ≡ some m') × ((k : String) → lookup k m' ≡ lookup k m)
keep_back m = (m, refl, λ k. refl)

get_state-restart_example :
    get_state (restart keep some keep_back tripped (10 * second) (100 * second)) "acme" "openai"
    ≡ state_open
unfolding program
get_state-restart_example =
    get_state-restart keep some keep_back tripped (10 * second) (100 * second) "acme" "openai"
