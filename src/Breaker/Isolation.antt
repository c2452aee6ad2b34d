-- ===== src/Breaker/Isolation.antt =====
-- The circuits of internal/service/responses/circuit_breaker.go do not touch one another.
use gateyes.Common.{String, ◌≡◌, ◌≢◌, refl, ap, sym, ◌∙◌, ◌⊎◌, inl, inr}
use gateyes.Breaker.{ProviderState, CircuitBreaker, key, get_state}
use gateyes.Breaker.Keys.{HasNoColon, key-injective}
use gateyes.Breaker.Transitions.{
  Call, acquires, releases, successes, checks, failures, called, step, circuit-step_ne,
}
use gateyes.Breaker.Trip.{get_state-circuit}

-- The tenant and the provider that a call names.
abbrev pub tenant_of : Call → String
tenant_of (acquires t p) = t
tenant_of (releases t p) = t
tenant_of (successes t p) = t
tenant_of (checks now t p) = t
tenant_of (failures now t p) = t

abbrev pub provider_of : Call → String
provider_of (acquires t p) = p
provider_of (releases t p) = p
provider_of (successes t p) = p
provider_of (checks now t p) = p
provider_of (failures now t p) = p

called-key : (c : Call) → called c ≡ key (tenant_of c) (provider_of c)
called-key (acquires t p) = refl
called-key (releases t p) = refl
called-key (successes t p) = refl
called-key (checks now t p) = refl
called-key (failures now t p) = refl

-- No call about one tenant or provider changes the state of a circuit of another, as long as no
-- tenant's name holds a colon.
pub get_state-step_ne :
    (cb : CircuitBreaker) (c : Call) (t p : String)
    → HasNoColon t
    → HasNoColon (tenant_of c)
    → (tenant_of c ≢ t) ⊎ (provider_of c ≢ p)
    → get_state (step cb c) t p ≡ get_state cb t p
get_state-step_ne cb c t p n n' other =
    get_state-circuit (step cb c) t p
    ∙ ap (λ (s : ProviderState). s.state) (circuit-step_ne cb c (key t p) (apart other))
    ∙ sym (get_state-circuit cb t p)
  where
    apart : (tenant_of c ≢ t) ⊎ (provider_of c ≢ p) → called c ≢ key t p
    apart (inl h) e =
        h (key-injective (tenant_of c) t (provider_of c) p n' n (sym (called-key c) ∙ e)).0
    apart (inr h) e =
        h (key-injective (tenant_of c) t (provider_of c) p n' n (sym (called-key c) ∙ e)).1
