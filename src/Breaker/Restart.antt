-- ===== src/Breaker/Restart.antt =====
-- `PersistState` and `RestoreState` of internal/service/responses/circuit_breaker.go: a gateway
-- that restarts takes its circuits over from Redis.
use gateyes.Common.{
  ℕ, ◌+◌, ◌*◌, ◌≤◌, ◌≡◌, refl, sym, ap, ◌∙◌, Bool, subst, String, true, false, Option, none, some,
  [], ◌∷◌, arith, ltb, if◌then◌else◌, Map, lookup, lookup-insert, Bool-cases, inl, inr, string_eq,
  nat_eq, ◌==◌,
}
use gateyes.Breaker.{
  Config, CircuitState, state_closed, state_open, state_half_open, ProviderState, CircuitBreaker,
  second, key, or_fresh, new_circuit_breaker, recovered, available_state, is_available, get_state,
  state_value, state_values, persist_state, persist_ttl, read_persisted, value_state, restored,
  restore_loop, restore_state,
}
use gateyes.Breaker.Trip.{get_state-circuit, is_available-circuit}
use gateyes.Breaker.Transitions.{circuit}

value_state-state_value : (s : CircuitState) → value_state (state_value s) ≡ s
unfolding value_state state_value
value_state-state_value state_closed = refl
value_state-state_value state_open = refl
value_state-state_value state_half_open = refl

abbrev value_of : Option ProviderState → Option ℕ
value_of none = none
value_of (some s) = some (state_value s.state)

lookup-state_values :
    (k : String) (m : Map String ProviderState) → lookup k (state_values m) ≡ value_of (lookup k m)
unfolding lookup state_values
lookup-state_values k [] = refl
lookup-state_values k ((j, s) ∷ m) = ground (arith, lookup-state_values k m)

-- What a restored entry holds.
abbrev IsRestored : ℕ → Option ℕ → Option ProviderState → Type 0
IsRestored now none found = found ≡ none
IsRestored now (some v) none = ⊥
IsRestored now (some v) (some s) =
    (s.state ≡ value_state v) × (s.state ≡ state_open → s.last_failure ≡ now)

restored-IsRestored :
    (now v : ℕ) (old : Option ProviderState) → IsRestored now (some v) (some (restored now v old))
unfolding restored
restored-IsRestored now v old = ground arith

restore_loop-IsRestored :
    (k : String) (now : ℕ) (states : Map String ℕ)
    → IsRestored now (lookup k states) (lookup k (restore_loop now states []))
unfolding lookup restore_loop
restore_loop-IsRestored k now [] = refl
restore_loop-IsRestored k now ((j, v) ∷ states) = elim (Bool-cases (j == k)) [
  | inl same ↦
      rw
        (
          lookup-insert j k (restored now v (lookup j (restore_loop now states [])))
              (restore_loop now states []),
          same,
        )
        (restored-IsRestored now v (lookup j (restore_loop now states [])))
  | inr other ↦
      rw
        (
          lookup-insert j k (restored now v (lookup j (restore_loop now states [])))
              (restore_loop now states []),
          other,
        )
        (restore_loop-IsRestored k now states)
]

same_circuit :
    (now : ℕ) (o o' : Option ProviderState)
    → IsRestored now (value_of o) o'
    → ((or_fresh o').state ≡ (or_fresh o).state)
      × ((or_fresh o).state ≡ state_open → (or_fresh o').last_failure ≡ now)
same_circuit now none none h = (refl, λ e. cc)
same_circuit now none (some s) h = cc
same_circuit now (some s) none h = absurd h
same_circuit now (some s) (some s') h =
    let e = h.0 ∙ value_state-state_value s.state in (e, λ o. h.1 (e ∙ o))

blocked_at :
    (c : Config) (now later : ℕ) (s : ProviderState)
    → s.state ≡ state_open
    → s.last_failure ≡ now
    → later ≤ now + c.recovery_timeout * second
    → (available_state c later s).1 ≡ false
unfolding available_state recovered
blocked_at c now later s e l h = ground arith

if-true : (x y : CircuitState) (b : Bool) → b ≡ true → (if b then x else y) ≡ x
if-true x y b h = rw h refl

if-false : (x y : CircuitState) (b : Bool) → b ≡ false → (if b then x else y) ≡ y
if-false x y b h = rw h refl

get_state-new : (c : Config) (t p : String) → get_state (new_circuit_breaker c) t p ≡ state_closed
unfolding get_state new_circuit_breaker lookup
get_state-new c t p = refl

module _ {Data : Type 0} (marshal : Map String ℕ → Data) (unmarshal : Data → Option (Map String ℕ))
    (decode_encode : (m : Map String ℕ)
      → (m' : Map String ℕ) × (unmarshal (marshal m) ≡ some m')
        × ((k : String) → lookup k m' ≡ lookup k m)) where
  -- The breaker of a process that starts at `now` and reads what `cb` wrote at `written`.
  abbrev pub restart : CircuitBreaker → ℕ → ℕ → CircuitBreaker
  restart cb written now =
      restore_state unmarshal true now
        (read_persisted now (persist_state marshal true written cb none))
        (new_circuit_breaker cb.cfg)

  restart-IsRestored :
      (cb : CircuitBreaker) (written now : ℕ) (k : String)
      → ltb now (written + persist_ttl) ≡ true
      → IsRestored now
          (value_of (lookup k cb.providers))
          (lookup k (restart cb written now).providers)
  unfolding restore_state persist_state read_persisted new_circuit_breaker
  restart-IsRestored cb written now k live =
      let (m, decoded, same) = decode_encode (state_values cb.providers) in
      rw (live, decoded, restore_state)
        (subst (λ v. IsRestored now v (lookup k (restore_loop now m [])))
          (same k ∙ lookup-state_values k cb.providers) (restore_loop-IsRestored k now m))

  restart-circuit :
      (cb : CircuitBreaker) (written now : ℕ) (k : String)
      → ltb now (written + persist_ttl) ≡ true
      → ((circuit (restart cb written now) k).state ≡ (circuit cb k).state)
        × ((circuit cb k).state ≡ state_open
            → (circuit (restart cb written now) k).last_failure ≡ now)
  unfolding circuit
  restart-circuit cb written now k live =
      same_circuit now (lookup k cb.providers) (lookup k (restart cb written now).providers)
        (restart-IsRestored cb written now k live)

  restart-expired :
      (cb : CircuitBreaker) (written now : ℕ)
      → ltb now (written + persist_ttl) ≡ false
      → restart cb written now ≡ new_circuit_breaker cb.cfg
  unfolding restore_state persist_state read_persisted
  restart-expired cb written now late = rw late refl

  restart-cfg : (cb : CircuitBreaker) (written now : ℕ) → (restart cb written now).cfg ≡ cb.cfg
  unfolding restore_state persist_state read_persisted new_circuit_breaker
  restart-cfg cb written now =
      let (m, decoded, same) = decode_encode (state_values cb.providers) in
      elim (Bool-cases (ltb now (written + persist_ttl))) [
        | inl live ↦ rw (live, decoded, restore_state)
        | inr late ↦ rw (late, restore_state)
      ]

  -- A breaker that restarts within five minutes after another one persisted its circuits has every
  -- circuit in the same state; one that restarts later has every circuit closed.
  pub get_state-restart :
      (cb : CircuitBreaker) (written now : ℕ) (t p : String)
      → get_state (restart cb written now) t p
        ≡ (if ltb now (written + 300 * second) then get_state cb t p else state_closed)
  get_state-restart cb written now t p = elim (Bool-cases (ltb now (written + persist_ttl))) [
    | inl live ↦
        get_state-circuit (restart cb written now) t p
        ∙ (restart-circuit cb written now (key t p) live).0
        ∙ sym (get_state-circuit cb t p)
        ∙ sym (if-true _ _ (ltb now (written + 300 * second)) live)
    | inr late ↦
        ap (λ b. get_state b t p) (restart-expired cb written now late)
        ∙ get_state-new cb.cfg t p
        ∙ sym (if-false _ _ (ltb now (written + 300 * second)) late)
  ]

  -- After a restart within five minutes the providers whose circuits were open are refused until the
  -- recovery timeout has passed once more.
  pub blocked-restart :
      (cb : CircuitBreaker) (written now later : ℕ) (t p : String)
      → ltb now (written + persist_ttl) ≡ true
      → get_state cb t p ≡ state_open
      → later ≤ now + cb.cfg.recovery_timeout * second
      → (is_available (restart cb written now) later t p).1 ≡ false
  blocked-restart cb written now later t p live h late =
      let s = restart-circuit cb written now (key t p) live in
      let was_open = sym (get_state-circuit cb t p) ∙ h in
      rw (is_available-circuit (restart cb written now) later t p) (
        blocked_at (restart cb written now).cfg now later _ (s.0 ∙ was_open) (s.1 was_open)
          (rw (restart-cfg cb written now) late))
