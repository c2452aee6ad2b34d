-- ===== src/Breaker/Transitions.antt =====
-- The calls on the breaker as one step function, and the transitions of internal/service/
-- responses/circuit_breaker.go as a relation: which call may take a circuit from which state to
-- which other.
use gateyes.Common.{
  ℕ, ◌+◌, ◌-◌, ◌*◌, ◌≤◌, ◌<◌, ◌≡◌, ◌≢◌, refl, sym, ap, subst, String, List, [], ◌∷◌, arith, lookup,
  inl, inr, lookup-insert_self, lookup-insert_ne, Option-cases, Bool-cases, ◌==◌, ==→≡, ==_refl,
  string_eq, ltb, leb,
}
use gateyes.Breaker.{
  Config, CircuitState, state_closed, state_open, state_half_open, ProviderState, CircuitBreaker,
  second, key, fresh, or_fresh, modify, acquire_state, try_acquire_half_open_request, release_state,
  release_half_open_request, recovered, available_state, is_available, success_state,
  record_success, failure_state, record_failure,
}

pub data Call : Type 0 where
  acquires releases successes : String → String → Call
  checks failures : ℕ → String → String → Call

-- The circuit that a call is about.
abbrev pub called : Call → String
called (acquires t p) = key t p
called (releases t p) = key t p
called (successes t p) = key t p
called (checks now t p) = key t p
called (failures now t p) = key t p

unfoldable pub step : CircuitBreaker → Call → CircuitBreaker
unfolding try_acquire_half_open_request release_half_open_request record_success is_available
    record_failure
step cb (acquires t p) = (try_acquire_half_open_request cb t p).0
step cb (releases t p) = release_half_open_request cb t p
step cb (successes t p) = record_success cb t p
step cb (checks now t p) = (is_available cb now t p).0
step cb (failures now t p) = record_failure cb now t p

unfoldable pub run : CircuitBreaker → List Call → CircuitBreaker
run cb [] = cb
run cb (c ∷ cs) = run (step cb c) cs

-- The circuit under a key; one that was never recorded reads as closed.
unfoldable pub circuit : CircuitBreaker → String → ProviderState
circuit cb k = or_fresh (lookup k cb.providers)

-- What a call does to its own circuit.
unfoldable pub effect : Config → Call → ProviderState → ProviderState
unfolding acquire_state release_state success_state available_state failure_state recovered
effect c (acquires t p) s = (acquire_state c s).0
effect c (releases t p) s = release_state s
effect c (successes t p) s = success_state s
effect c (checks now t p) s = (available_state c now s).0
effect c (failures now t p) s = failure_state c now s

module _ (cb : CircuitBreaker) (k : String) (f : ProviderState → ProviderState) where
  circuit-modify : f fresh ≡ fresh → circuit (modify cb k f) k ≡ f (circuit cb k)
  unfolding circuit modify
  circuit-modify h = elim (Option-cases (lookup k cb.providers)) [
    | inl e ↦ rw (e, modify) (rw (e, or_fresh) (sym h))
    | inr (s, e) ↦ rw (e, modify) (rw (lookup-insert_self k (f s) cb.providers))
  ]

  circuit-modify_ne : (j : String) → k ≢ j → circuit (modify cb k f) j ≡ circuit cb j
  unfolding circuit modify
  circuit-modify_ne j h = elim (Option-cases (lookup k cb.providers)) [
    | inl e ↦ rw (e, modify)
    | inr (s, e) ↦ rw (e, modify) (rw (lookup-insert_ne k j (f s) cb.providers h))
  ]

  modify-cfg : (modify cb k f).cfg ≡ cb.cfg
  unfolding modify
  modify-cfg = ground arith

pub step-cfg : (cb : CircuitBreaker) (c : Call) → (step cb c).cfg ≡ cb.cfg
unfolding step
step-cfg cb (acquires t p) = modify-cfg cb _ _
step-cfg cb (releases t p) = modify-cfg cb _ _
step-cfg cb (successes t p) = modify-cfg cb _ _
step-cfg cb (checks now t p) = modify-cfg cb _ _
step-cfg cb (failures now t p) = refl

-- A call leaves every circuit but its own as it was.
pub circuit-step_ne :
    (cb : CircuitBreaker) (c : Call) (k : String)
    → called c ≢ k
    → circuit (step cb c) k ≡ circuit cb k
unfolding step circuit
circuit-step_ne cb (acquires t p) k h = circuit-modify_ne cb _ _ k h
circuit-step_ne cb (releases t p) k h = circuit-modify_ne cb _ _ k h
circuit-step_ne cb (successes t p) k h = circuit-modify_ne cb _ _ k h
circuit-step_ne cb (checks now t p) k h = circuit-modify_ne cb _ _ k h
circuit-step_ne cb (failures now t p) k h =
    ap or_fresh (lookup-insert_ne (key t p) k _ cb.providers h)

-- A call does to its own circuit what its method's switch says.
pub circuit-step_self :
    (cb : CircuitBreaker) (c : Call)
    → circuit (step cb c) (called c) ≡ effect cb.cfg c (circuit cb (called c))
unfolding step effect circuit
circuit-step_self cb (acquires t p) = circuit-modify cb _ (λ s. (acquire_state cb.cfg s).0) refl
circuit-step_self cb (releases t p) = circuit-modify cb _ release_state refl
circuit-step_self cb (successes t p) = circuit-modify cb _ success_state refl
circuit-step_self cb (checks now t p) =
    circuit-modify cb _ (λ s. (available_state cb.cfg now s).0) refl
circuit-step_self cb (failures now t p) = ap or_fresh (lookup-insert_self (key t p) _ cb.providers)

-- What a call may do to a circuit: leave its state, or take one of five transitions.
pub data Move (cfg : Config) (c : Call) (k : String) (s s' : ProviderState) : Type 0 where
  keep : s'.state ≡ s.state → Move cfg c k s s'
  trip :
      (now : ℕ) (t p : String)
      → c ≡ failures now t p
      → key t p ≡ k
      → s.state ≡ state_closed
      → s'.state ≡ state_open
      → cfg.failure_threshold ≤ s'.failures
      → s'.last_failure ≡ now
      → Move cfg c k s s'
  reopen :
      (now : ℕ) (t p : String)
      → c ≡ failures now t p
      → key t p ≡ k
      → s.state ≡ state_half_open
      → s'.state ≡ state_open
      → s'.last_failure ≡ now
      → Move cfg c k s s'
  probe :
      (now : ℕ) (t p : String)
      → c ≡ checks now t p
      → key t p ≡ k
      → s.state ≡ state_open
      → s'.state ≡ state_half_open
      → s.last_failure + cfg.recovery_timeout * second < now
      → Move cfg c k s s'
  recover :
      (t p : String)
      → c ≡ successes t p
      → key t p ≡ k
      → s'.state ≡ state_closed
      → s'.failures ≡ 0
      → Move cfg c k s s'

effect-Move :
    (cfg : Config) (c : Call) (s : ProviderState) → Move cfg c (called c) s (effect cfg c s)
unfolding effect
effect-Move cfg (acquires t p) s = keep (ground arith)
effect-Move cfg (releases t p) s = keep (ground arith)
effect-Move cfg (successes t p) s = recover t p refl refl (ground arith) (ground arith)
effect-Move cfg (checks now t p) s = checked s.state refl
  where
    checked :
        (x : CircuitState)
        → s.state ≡ x
        → Move cfg (checks now t p) (key t p) s (effect cfg (checks now t p) s)
    checked state_closed e = keep (ground arith)
    checked state_half_open e = keep (ground arith)
    checked state_open e =
        elim (Bool-cases (ltb (cfg.recovery_timeout * second) (now - s.last_failure))) [
          | inl late ↦ probe now t p refl refl e (ground arith) (ground arith)
          | inr early ↦ keep (ground arith)
        ]
effect-Move cfg (failures now t p) s = failed s.state refl
  where
    failed :
        (x : CircuitState)
        → s.state ≡ x
        → Move cfg (failures now t p) (key t p) s (effect cfg (failures now t p) s)
    failed state_open e = keep (ground arith)
    failed state_half_open e = reopen now t p refl refl e (ground arith) (ground arith)
    failed state_closed e = elim (Bool-cases (leb cfg.failure_threshold (s.failures + 1))) [
      | inl full ↦ trip now t p refl refl e (ground arith) (ground arith) (ground arith)
      | inr room ↦ keep (ground arith)
    ]

-- Every call takes every circuit along one of the transitions of `Move`: only a failure trips a
-- closed circuit, and only at the threshold; only a failure reopens a half-open one; only a check
-- after the recovery timeout makes an open one half-open; a call about another circuit changes no
-- state.
pub step-Move :
    (cb : CircuitBreaker) (c : Call) (k : String)
    → Move cb.cfg c k (circuit cb k) (circuit (step cb c) k)
step-Move cb c k = elim (Bool-cases (called c == k)) [
  | inl same ↦
      let e = ==→≡ (called c) k same in
      subst (λ j. Move cb.cfg c j (circuit cb j) (circuit (step cb c) j)) e
        (rw (circuit-step_self cb c) (effect-Move cb.cfg c (circuit cb (called c))))
  | inr other ↦ keep (
      ap (λ (s : ProviderState). s.state) (circuit-step_ne cb c k (λ e. ground (arith, ==_refl k))))
]
