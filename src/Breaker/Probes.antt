-- ===== src/Breaker/Probes.antt =====
-- How many probes a half-open circuit of internal/service/responses/circuit_breaker.go lets
-- through.
use gateyes.Common.{
  ℕ, ◌≤◌, ◌<◌, ◌≡◌, refl, sym, ◌∙◌, subst, String, true, List, [], ◌∷◌, arith, All, inl, inr,
  Bool-cases, lookup, string_eq, ◌==◌, ==→≡, ==_refl,
}
use gateyes.Breaker.{
  Config, state_half_open, ProviderState, CircuitBreaker, new_circuit_breaker, key, max_requests,
  available_state, is_available, get_state,
}
use gateyes.Breaker.Transitions.{
  Call, acquires, releases, successes, checks, failures, called, step, run, circuit, effect,
  step-cfg, circuit-step_self, circuit-step_ne,
}
use gateyes.Breaker.Trip.{get_state-circuit, is_available-circuit}

max_requests_pos : (c : Config) → 0 < max_requests c
unfolding max_requests
max_requests_pos c = ground arith

-- A circuit keeps a property that every call's effect keeps.
run-keeps :
    (P : Config → ProviderState → Type 0) (Allowed : Call → Type 0)
    → ((cfg : Config) (c : Call) (s : ProviderState) → Allowed c → P cfg s → P cfg (effect cfg c s))
    → (cb : CircuitBreaker) (k : String) (cs : List Call) → All Allowed cs
    → P cb.cfg (circuit cb k)
    → P cb.cfg (circuit (run cb cs) k)
unfolding run
run-keeps P Allowed keep cb k [] a h = h
run-keeps P Allowed keep cb k (c ∷ cs) a h =
    subst (λ cfg. P cfg (circuit (run (step cb c) cs) k)) (step-cfg cb c)
      (run-keeps P Allowed keep (step cb c) k cs a.1
        (subst (λ cfg. P cfg (circuit (step cb c) k)) (sym (step-cfg cb c)) stepped))
  where
    stepped : P cb.cfg (circuit (step cb c) k)
    stepped = elim (Bool-cases (called c == k)) [
      | inl same ↦
          let e = ==→≡ (called c) k same in
          subst (λ j. P cb.cfg (circuit (step cb c) j)) e
            (rw (circuit-step_self cb c) (
              keep cb.cfg c (circuit cb (called c)) a.0
                (subst (λ j. P cb.cfg (circuit cb j)) (sym e) h)))
      | inr other ↦ rw (circuit-step_ne cb c k (λ e. ground (arith, ==_refl k))) h
    ]

effect_bound :
    (cfg : Config) (c : Call) (s : ProviderState)
    → s.half_open_requests ≤ max_requests cfg
    → (effect cfg c s).half_open_requests ≤ max_requests cfg
unfolding effect
effect_bound cfg (acquires t p) s h = ground arith
effect_bound cfg (releases t p) s h = ground arith
effect_bound cfg (successes t p) s h = ground arith
effect_bound cfg (checks now t p) s h = ground arith
effect_bound cfg (failures now t p) s h = ground arith

-- Whatever calls are made, no circuit ever counts more probes in flight than the configured maximum
-- (one, where none is configured).
pub half_open_requests_bound :
    (cfg : Config) (cs : List Call) (k : String)
    → (circuit (run (new_circuit_breaker cfg) cs) k).half_open_requests ≤ max_requests cfg
unfolding new_circuit_breaker circuit lookup
half_open_requests_bound cfg cs k =
    run-keeps (λ cfg s. s.half_open_requests ≤ max_requests cfg) (λ _. Unit {0})
      (λ cfg c s _ h. effect_bound cfg c s h) (new_circuit_breaker cfg) k cs (every cs)
      (omega (arith, max_requests_pos cfg))
  where
    every : (l : List Call) → All (λ _. Unit {0}) l
    every [] = tt
    every (c ∷ l) = (tt, every l)

-- The calls that the request pipeline makes: it never asks for a probe's permit.
abbrev pub IsPipelineCall : Call → Type 0
IsPipelineCall (acquires t p) = ⊥
IsPipelineCall c = Unit

effect_none :
    (cfg : Config) (c : Call) (s : ProviderState)
    → IsPipelineCall c
    → s.half_open_requests ≡ 0
    → (effect cfg c s).half_open_requests ≡ 0
unfolding effect
effect_none cfg (acquires t p) s q h = absurd q
effect_none cfg (releases t p) s q h = ground arith
effect_none cfg (successes t p) s q h = ground arith
effect_none cfg (checks now t p) s q h = ground arith
effect_none cfg (failures now t p) s q h = ground arith

idle_probes :
    (cfg : Config) (cs : List Call) (k : String)
    → All IsPipelineCall cs
    → (circuit (run (new_circuit_breaker cfg) cs) k).half_open_requests ≡ 0
unfolding new_circuit_breaker circuit lookup
idle_probes cfg cs k q =
    run-keeps (λ _ s. s.half_open_requests ≡ 0) IsPipelineCall effect_none (new_circuit_breaker cfg)
      k cs q refl

-- Without calls of `TryAcquireHalfOpenRequest` a half-open circuit refuses no check, however many
-- have passed before and whatever maximum is configured.
pub probes_unlimited :
    (cfg : Config) (cs : List Call) (t p : String) (now : ℕ)
    → All IsPipelineCall cs
    → get_state (run (new_circuit_breaker cfg) cs) t p ≡ state_half_open
    → (is_available (run (new_circuit_breaker cfg) cs) now t p).1 ≡ true
unfolding new_circuit_breaker available_state
probes_unlimited cfg cs t p now q h =
    rw (is_available-circuit (run (new_circuit_breaker cfg) cs) now t p) (
      ground (
        arith,
        idle_probes cfg cs (key t p) q,
        sym (get_state-circuit (run (new_circuit_breaker cfg) cs) t p) ∙ h,
        max_requests_pos (run (new_circuit_breaker cfg) cs).cfg,
      ))
