-- ===== src/Breaker.antt =====
-- internal/service/responses/circuit_breaker.go: one circuit for each tenant and provider.
-- Times are nanoseconds since the start of the process's clock and an argument of each call. The
-- configuration's numbers are natural, as `Validate` of internal/app/config/config.go demands. The
-- mutex makes each method one step. Encoding to JSON and the Redis server are parameters.
pub mod Keys
pub mod Transitions
pub mod Trip
pub mod Isolation
pub mod Probes
pub mod Operations
pub mod Restart
use gateyes.Common.{
  ℕ, ◌+◌, ◌-◌, ◌*◌, String, Bool, true, false, Option, none, some, [], ◌∷◌, ltb, leb, ◌==◌, nat_eq,
  if◌then◌else◌, Map, lookup, insert, string_eq,
}
use Prim.Native.String.{◌++◌ as concat}

pub record Config : Type 0 where
  pub failure_threshold : ℕ
  pub recovery_timeout : ℕ
  pub half_open_max_requests : ℕ

pub data CircuitState : Type 0 where
  state_closed state_open state_half_open : CircuitState

pub record ProviderState : Type 0 where
  pub failures : ℕ
  pub last_failure : ℕ
  pub state : CircuitState
  pub half_open_requests : ℕ

pub record CircuitBreaker : Type 0 where
  pub providers : Map String ProviderState
  pub cfg : Config

abbrev pub second : ℕ
second = 1_000_000_000

unfoldable pub new_circuit_breaker : Config → CircuitBreaker
new_circuit_breaker c = record { providers = []; cfg = c }

unfoldable pub key : String → String → String
key tenant provider = concat tenant (concat ":" provider)

abbrev pub fresh : ProviderState
fresh = record { failures = 0; last_failure = 0; state = state_closed; half_open_requests = 0 }

abbrev pub or_fresh : Option ProviderState → ProviderState
or_fresh none = fresh
or_fresh (some s) = s

-- `state, ok := cb.providers[key]; if !ok { return }`, and writes through the pointer.
unfoldable pub modify : CircuitBreaker → String → (ProviderState → ProviderState) → CircuitBreaker
modify cb k f = elim (lookup k cb.providers) [
  | none ↦ cb
  | some s ↦ record cb { providers = insert k (f s) cb.providers }
]

unfoldable pub max_requests : Config → ℕ
max_requests c = if leb c.half_open_max_requests 0 then 1 else c.half_open_max_requests

unfoldable pub acquire_state : Config → ProviderState → ProviderState × Bool
acquire_state c s = elim s.state [
  | state_half_open ↦
      if leb (max_requests c) s.half_open_requests
      then (s, false)
      else (record s { half_open_requests = s.half_open_requests + 1 }, true)
  | _ ↦ (s, true)
]

unfoldable pub try_acquire_half_open_request :
    CircuitBreaker → String → String → CircuitBreaker × Bool
try_acquire_half_open_request cb tenant provider = (
  modify cb (key tenant provider) (λ s. (acquire_state cb.cfg s).0),
  elim (lookup (key tenant provider) cb.providers) [
    | none ↦ true
    | some s ↦ (acquire_state cb.cfg s).1
  ],
)

unfoldable pub release_state : ProviderState → ProviderState
release_state s =
    if ltb 0 s.half_open_requests
    then record s { half_open_requests = s.half_open_requests - 1 }
    else s

unfoldable pub release_half_open_request : CircuitBreaker → String → String → CircuitBreaker
release_half_open_request cb tenant provider = modify cb (key tenant provider) release_state

-- `time.Since(lastFailure) > RecoveryTimeout * time.Second`; a clock that went back has not waited.
unfoldable pub recovered : Config → ℕ → ProviderState → Bool
recovered c now s = ltb (c.recovery_timeout * second) (now - s.last_failure)

unfoldable pub available_state : Config → ℕ → ProviderState → ProviderState × Bool
available_state c now s = elim s.state [
  | state_closed ↦ (s, true)
  | state_open ↦
      if recovered c now s then (record s { state = state_half_open }, true) else (s, false)
  | state_half_open ↦ (s, ltb s.half_open_requests (max_requests c))
]

unfoldable pub is_available : CircuitBreaker → ℕ → String → String → CircuitBreaker × Bool
is_available cb now tenant provider = (
  modify cb (key tenant provider) (λ s. (available_state cb.cfg now s).0),
  elim (lookup (key tenant provider) cb.providers) [
    | none ↦ true
    | some s ↦ (available_state cb.cfg now s).1
  ],
)

unfoldable pub success_state : ProviderState → ProviderState
success_state s = elim s.state [
  | state_half_open ↦ record s { failures = 0; state = state_closed }
  | state_closed ↦ record s { failures = 0 }
  | state_open ↦ record s { failures = 0; state = state_closed }
]

unfoldable pub record_success : CircuitBreaker → String → String → CircuitBreaker
record_success cb tenant provider = modify cb (key tenant provider) success_state

unfoldable pub failure_state : Config → ℕ → ProviderState → ProviderState
failure_state c now s = elim s.state [
  | state_closed ↦ record s {
    failures = s.failures + 1;
    last_failure = now;
    state = if leb c.failure_threshold (s.failures + 1) then state_open else state_closed;
  }
  | state_half_open ↦ record s {
    failures = c.failure_threshold;
    last_failure = now;
    state = state_open;
  }
  | state_open ↦ record s { last_failure = now }
]

unfoldable pub record_failure : CircuitBreaker → ℕ → String → String → CircuitBreaker
record_failure cb now tenant provider = record cb {
  providers = insert k (failure_state cb.cfg now (or_fresh (lookup k cb.providers))) cb.providers;
}
  where
    k : String
    k = key tenant provider

unfoldable pub get_state : CircuitBreaker → String → String → CircuitState
get_state cb tenant provider = elim (lookup (key tenant provider) cb.providers) [
  | none ↦ state_closed
  | some s ↦ s.state
]

unfoldable pub state_value : CircuitState → ℕ
state_value state_closed = 0
state_value state_open = 1
state_value state_half_open = 2

-- A loop over the map: the gauge of each circuit.
unfoldable pub state_values : Map String ProviderState → Map String ℕ
state_values [] = []
state_values ((k, s) ∷ m) = (k, state_value s.state) ∷ state_values m

unfoldable pub get_all_states : CircuitBreaker → Map String ℕ
get_all_states cb = state_values cb.providers

-- The key `circuit_breaker:states` in Redis: its text, and when it expires.
pub record Persisted (Data : Type 0) : Type 0 where
  pub text : Data
  pub expires : ℕ

-- `5*time.Minute`.
abbrev pub persist_ttl : ℕ
persist_ttl = 300 * second

module _ {Data : Type 0} (marshal : Map String ℕ → Data) where
  -- What the key holds after `PersistState` at `now`; with no client nothing changes.
  unfoldable pub persist_state :
      Bool → ℕ → CircuitBreaker → Option (Persisted Data) → Option (Persisted Data)
  persist_state rdb now cb stored =
      if rdb
      then some (record { text = marshal (state_values cb.providers); expires = now + persist_ttl })
      else stored

-- What `Get` returns of the key at `now`, if Redis answers.
unfoldable pub read_persisted : {Data : Type 0} → ℕ → Option (Persisted Data) → Option Data
read_persisted now none = none
read_persisted now (some p) = if ltb now p.expires then some (p.text) else none

unfoldable pub value_state : ℕ → CircuitState
value_state v = if v == 1 then state_open else if v == 2 then state_half_open else state_closed

-- One round of the loop of `RestoreState`, on the entry that the map holds, if any.
unfoldable pub restored : ℕ → ℕ → Option ProviderState → ProviderState
restored now v old = elim (value_state v) [
  | state_open ↦ record (or_fresh old) { state = state_open; last_failure = now }
  | s ↦ record (or_fresh old) { state = s }
]

-- The rounds in the order from the last entry to the first; Go leaves the order open.
unfoldable pub restore_loop : ℕ → Map String ℕ → Map String ProviderState → Map String ProviderState
restore_loop now [] providers = providers
restore_loop now ((k, v) ∷ states) providers =
    let rest = restore_loop now states providers in insert k (restored now v (lookup k rest)) rest

module _ {Data : Type 0} (unmarshal : Data → Option (Map String ℕ)) where
  -- The text read back is `none` if the key is missing or Redis fails.
  unfoldable pub restore_state : Bool → ℕ → Option Data → CircuitBreaker → CircuitBreaker
  restore_state false now read cb = cb
  restore_state true now none cb = cb
  restore_state true now (some d) cb = elim (unmarshal d) [
    | none ↦ cb
    | some states ↦ record cb { providers = restore_loop now states cb.providers }
  ]
