-- ===== src/Breaker/Trip.antt =====
-- When a circuit of internal/service/responses/circuit_breaker.go opens, and for how long it stays
-- open.
use gateyes.Common.{
  ℕ, ◌+◌, ◌*◌, ◌≤◌, ◌<◌, ◌≡◌, ◌≢◌, refl, sym, ◌∙◌, subst, String, true, false, List, [], ◌∷◌, arith,
  lookup, length, All, inl, inr, Option-cases, Bool-cases, leb, if◌then◌else◌, string_eq, ◌==◌,
  ==→≡, ==_refl,
}
use gateyes.Breaker.{
  Config, CircuitState, state_closed, state_open, state_half_open, ProviderState, CircuitBreaker,
  second, key, recovered, available_state, is_available, get_state,
}
use gateyes.Breaker.Transitions.{
  Call, acquires, releases, successes, checks, failures, called, step, run, circuit, effect,
  step-cfg, circuit-step_self, circuit-step_ne,
}

-- The failures of one provider, at the times given.
abbrev pub fail_at : String → String → List ℕ → List Call
fail_at t p [] = []
fail_at t p (now ∷ rest) = failures now t p ∷ fail_at t p rest

pub get_state-circuit :
    (cb : CircuitBreaker) (t p : String) → get_state cb t p ≡ (circuit cb (key t p)).state
unfolding get_state circuit
get_state-circuit cb t p = elim (Option-cases (lookup (key t p) cb.providers)) [
  | inl e ↦ rw (e, get_state, circuit)
  | inr (s, e) ↦ rw (e, get_state, circuit)
]

abbrev opened : Config → ℕ → CircuitState
opened c n = if leb c.failure_threshold n then state_open else state_closed

failures-open :
    (cb : CircuitBreaker) (t p : String) (times : List ℕ)
    → (circuit cb (key t p)).state ≡ state_open
    → (circuit (run cb (fail_at t p times)) (key t p)).state ≡ state_open
unfolding run effect
failures-open cb t p [] h = h
failures-open cb t p (now ∷ times) h =
    failures-open (step cb (failures now t p)) t p times
      (rw (circuit-step_self cb (failures now t p)) (ground arith))

failures-closed :
    (cb : CircuitBreaker) (t p : String) (now : ℕ) (times : List ℕ) (n : ℕ)
    → (circuit cb (key t p)).state ≡ state_closed
    → (circuit cb (key t p)).failures ≡ n
    → (circuit (run cb (fail_at t p (now ∷ times))) (key t p)).state
      ≡ opened cb.cfg (n + length (now ∷ times))
unfolding run effect
failures-closed cb t p now [] n h k = rw (circuit-step_self cb (failures now t p)) (ground arith)
failures-closed cb t p now (later ∷ times) n h k =
    elim (Bool-cases (leb cb.cfg.failure_threshold (n + 1))) [
      | inl full ↦ ground (arith, failures-open next t p (later ∷ times) (ground (arith, self)))
      | inr room ↦ ground (
        arith,
        step-cfg cb (failures now t p),
        failures-closed next t p later times (n + 1) (ground (arith, self)) (ground (arith, self)),
      )
    ]
  where
    next : CircuitBreaker
    next = step cb (failures now t p)

    self : circuit next (key t p) ≡ effect cb.cfg (failures now t p) (circuit cb (key t p))
    self = circuit-step_self cb (failures now t p)

after_success :
    (cb : CircuitBreaker) (t p : String) (now : ℕ) (times : List ℕ)
    → (circuit (run cb (successes t p ∷ fail_at t p (now ∷ times))) (key t p)).state
      ≡ opened cb.cfg (length (now ∷ times))
unfolding run effect
after_success cb t p now times = ground (
  arith,
  step-cfg cb (successes t p),
  failures-closed next t p now times 0 (ground (arith, self)) (ground (arith, self)),
)
  where
    next : CircuitBreaker
    next = step cb (successes t p)

    self : circuit next (key t p) ≡ effect cb.cfg (successes t p) (circuit cb (key t p))
    self = circuit-step_self cb (successes t p)

-- After a success, whatever the circuit was before, consecutive failures open it exactly from the
-- one that reaches the threshold on; a threshold of zero opens it at the first.
pub trip-after_success :
    (cb : CircuitBreaker) (t p : String) (now : ℕ) (times : List ℕ)
    → get_state (run cb (successes t p ∷ fail_at t p (now ∷ times))) t p
      ≡ (if leb cb.cfg.failure_threshold (length (now ∷ times)) then state_open else state_closed)
trip-after_success cb t p now times =
    rw (get_state-circuit (run cb (successes t p ∷ fail_at t p (now ∷ times))) t p)
      (after_success cb t p now times)

-- Calls that do not close the circuit under `k`, check it no later than `limit`, and report failures
-- no earlier than `since`.
abbrev pub Quiet : String → ℕ → ℕ → Call → Type 0
Quiet k since limit (acquires t p) = Unit
Quiet k since limit (releases t p) = Unit
Quiet k since limit (successes t p) = key t p ≢ k
Quiet k since limit (checks now t p) = now ≤ limit
Quiet k since limit (failures now t p) = since ≤ now

abbrev window : CircuitBreaker → ℕ
window cb = cb.cfg.recovery_timeout * second

record IsBlocked (since : ℕ) (s : ProviderState) : Type 0 where
  still_open : s.state ≡ state_open
  recent : since ≤ s.last_failure

effect-IsBlocked :
    (cfg : Config) (k : String) (since : ℕ) (c : Call) (s : ProviderState)
    → called c ≡ k
    → Quiet k since (since + cfg.recovery_timeout * second) c
    → IsBlocked since s
    → IsBlocked since (effect cfg c s)
unfolding effect
effect-IsBlocked cfg k since (acquires t p) s e q b = ground arith
effect-IsBlocked cfg k since (releases t p) s e q b = ground arith
effect-IsBlocked cfg k since (successes t p) s e q b = absurd (q e)
effect-IsBlocked cfg k since (checks now t p) s e q b = ground arith
effect-IsBlocked cfg k since (failures now t p) s e q b = ground arith

step-IsBlocked :
    (cb : CircuitBreaker) (k : String) (since : ℕ) (c : Call)
    → Quiet k since (since + window cb) c
    → IsBlocked since (circuit cb k)
    → IsBlocked since (circuit (step cb c) k)
step-IsBlocked cb k since c q b = elim (Bool-cases (called c == k)) [
  | inl same ↦
      let e = ==→≡ (called c) k same in
      subst (λ j. IsBlocked since (circuit (step cb c) j)) e
        (rw (circuit-step_self cb c) (
          effect-IsBlocked cb.cfg k since c (circuit cb (called c)) e q
            (subst (λ j. IsBlocked since (circuit cb j)) (sym e) b)))
  | inr other ↦ rw (circuit-step_ne cb c k (λ e. ground (arith, ==_refl k))) b
]

run-IsBlocked :
    (cb : CircuitBreaker) (k : String) (since limit : ℕ) (cs : List Call)
    → limit ≡ since + window cb
    → All (Quiet k since limit) cs
    → IsBlocked since (circuit cb k)
    → IsBlocked since (circuit (run cb cs) k)
unfolding run
run-IsBlocked cb k since limit [] e q b = b
run-IsBlocked cb k since limit (c ∷ cs) e q b =
    run-IsBlocked (step cb c) k since limit cs (rw (step-cfg cb c) e) q.1
      (step-IsBlocked cb k since c (rw e at (q.0)) b)

pub run-cfg : (cb : CircuitBreaker) (cs : List Call) → (run cb cs).cfg ≡ cb.cfg
unfolding run
run-cfg cb [] = refl
run-cfg cb (c ∷ cs) = run-cfg (step cb c) cs ∙ step-cfg cb c

pub is_available-circuit :
    (cb : CircuitBreaker) (now : ℕ) (t p : String)
    → (is_available cb now t p).1 ≡ (available_state cb.cfg now (circuit cb (key t p))).1
unfolding is_available circuit available_state
is_available-circuit cb now t p = elim (Option-cases (lookup (key t p) cb.providers)) [
  | inl e ↦ rw (e, is_available, circuit)
  | inr (s, e) ↦ rw (e, is_available, circuit)
]

blocked_state :
    (c : Config) (since now : ℕ) (s : ProviderState)
    → IsBlocked since s
    → now ≤ since + c.recovery_timeout * second
    → (available_state c now s).1 ≡ false
unfolding available_state recovered
blocked_state c since now s b h = ground arith

tripped :
    (cb : CircuitBreaker) (t p : String) (since : ℕ)
    → get_state (step cb (failures since t p)) t p ≡ state_open
    → IsBlocked since (circuit (step cb (failures since t p)) (key t p))
unfolding effect
tripped cb t p since h = record {
  still_open = sym (get_state-circuit _ t p) ∙ h;
  recent = ground (arith, circuit-step_self cb (failures since t p));
}

-- A failure that leaves the circuit open blocks the provider for the recovery timeout: whatever
-- calls follow on any circuit, if none is a success of this provider, its checks fall within the
-- timeout and its failures are not earlier, a check within the timeout is refused.
pub blocked-record_failure :
    (cb : CircuitBreaker) (t p : String) (since now : ℕ) (cs : List Call)
    → get_state (step cb (failures since t p)) t p ≡ state_open
    → All (Quiet (key t p) since (since + cb.cfg.recovery_timeout * second)) cs
    → now ≤ since + cb.cfg.recovery_timeout * second
    → (is_available (run (step cb (failures since t p)) cs) now t p).1 ≡ false
blocked-record_failure cb t p since now cs h q n = rw (is_available-circuit (run next cs) now t p) (
    blocked_state (run next cs).cfg since now _
      (run-IsBlocked next (key t p) since _ cs (rw (step-cfg cb (failures since t p))) q
        (tripped cb t p since h))
      (rw (run-cfg next cs, step-cfg cb (failures since t p)) n))
  where
    next : CircuitBreaker
    next = step cb (failures since t p)

-- Once the recovery timeout has passed since the last failure, a check of an open circuit passes
-- and makes it half-open; then a success closes it and a failure opens it again.
pub recovery_cycle :
    (cb : CircuitBreaker) (t p : String) (now later : ℕ)
    → get_state cb t p ≡ state_open
    → (circuit cb (key t p)).last_failure + cb.cfg.recovery_timeout * second < now
    → let probing = step cb (checks now t p) in
      ((is_available cb now t p).1 ≡ true)
      × (get_state probing t p ≡ state_half_open)
      × (get_state (step probing (successes t p)) t p ≡ state_closed)
      × (get_state (step probing (failures later t p)) t p ≡ state_open)
unfolding effect
recovery_cycle cb t p now later h late = (
  rw (is_available-circuit cb now t p) (ground (arith, open_now)),
  rw (get_state-circuit probing t p) half,
  rw (get_state-circuit (step probing (successes t p)) t p)
      (ground (arith, circuit-step_self probing (successes t p))),
  rw (get_state-circuit (step probing (failures later t p)) t p)
      (ground (arith, half, circuit-step_self probing (failures later t p))),
)
  where
    probing : CircuitBreaker
    probing = step cb (checks now t p)

    open_now : (circuit cb (key t p)).state ≡ state_open
    open_now = sym (get_state-circuit cb t p) ∙ h

    half : (circuit probing (key t p)).state ≡ state_half_open
    half = ground (arith, open_now, circuit-step_self cb (checks now t p))
