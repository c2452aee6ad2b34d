-- ===== src/Breaker/Operations.antt =====
-- Every operation of internal/service/responses/circuit_breaker.go that changes a circuit:
-- `RestoreState` beside the calls of Breaker.Transitions.
use gateyes.Common.{
  ℕ, ◌≡◌, ◌≢◌, refl, sym, subst, ap, ==→≡, Option-cases, String, true, Option, none, some, [], ◌∷◌,
  Map, lookup, lookup-insert, Bool-cases, inl, inr, arith, string_eq, nat_eq, ◌==◌,
}
use gateyes.Breaker.{
  state_closed, state_open, state_half_open, ProviderState, CircuitBreaker, Config, or_fresh,
  value_state, restored, restore_loop, restore_state,
}
use gateyes.Breaker.Transitions.{Call, step, circuit, Move, step-Move}

-- A call, or `RestoreState` at a time with what it reads of the key.
pub data Operation (Data : Type 0) : Type 0 where
  calls : Call → Operation Data
  restores : ℕ → Option Data → Operation Data

abbrev SameCounts : ProviderState → ProviderState → Type 0
SameCounts s s' = (s'.failures ≡ s.failures) × (s'.half_open_requests ≡ s.half_open_requests)

-- What `RestoreState` does to a circuit, by the number that the text has for it, if any: the counts
-- stay, and the circuit is open from now on, half-open, or closed.
pub data TakeOver (now : ℕ) (number : Option ℕ) (s s' : ProviderState) : Type 0 where
  unnamed : number ≡ none → s' ≡ s → TakeOver now number s s'
  opens :
      number ≡ some 1
      → SameCounts s s'
      → s'.state ≡ state_open
      → s'.last_failure ≡ now
      → TakeOver now number s s'
  half_opens :
      number ≡ some 2 → SameCounts s s' → s'.state ≡ state_half_open → TakeOver now number s s'
  closes :
      (v : ℕ)
      → number ≡ some v
      → v ≢ 1
      → v ≢ 2
      → SameCounts s s'
      → s'.state ≡ state_closed
      → TakeOver now number s s'

TakeOver-SameCounts :
    (now : ℕ) (number : Option ℕ) (s s' : ProviderState)
    → TakeOver now number s s'
    → SameCounts s s'
TakeOver-SameCounts now number s s' (unnamed n e) =
    (ap (λ (x : ProviderState). x.failures) e, ap (λ (x : ProviderState). x.half_open_requests) e)
TakeOver-SameCounts now number s s' (opens n c e l) = c
TakeOver-SameCounts now number s s' (half_opens n c e) = c
TakeOver-SameCounts now number s s' (closes v n a b c e) = c

restored-TakeOver :
    (now v : ℕ) (s : ProviderState) (old : Option ProviderState)
    → SameCounts s (or_fresh old)
    → TakeOver now (some v) s (restored now v old)
unfolding restored value_state
restored-TakeOver now v s old (f, h) = elim (Bool-cases (v == 1)) [
  | inl one ↦ opens (ground arith) counts (ground arith) (ground arith)
  | inr not_one ↦ elim (Bool-cases (v == 2)) [
    | inl two ↦ half_opens (ground arith) counts (ground arith)
    | inr not_two ↦ closes v refl (λ e. ground arith) (λ e. ground arith) counts (ground arith)
  ]
]
  where
    counts : SameCounts s (restored now v old)
    counts = (ground (arith, f), ground (arith, h))

restore_loop-TakeOver :
    (k : String) (now : ℕ) (states : Map String ℕ) (providers : Map String ProviderState)
    → TakeOver now
        (lookup k states)
        (or_fresh (lookup k providers))
        (or_fresh (lookup k (restore_loop now states providers)))
unfolding lookup restore_loop
restore_loop-TakeOver k now [] providers = unnamed refl refl
restore_loop-TakeOver k now ((j, v) ∷ states) providers = elim (Bool-cases (j == k)) [
  | inl same ↦
      rw (lookup-insert j k (restored now v (lookup j rest)) rest, same)
        (restored-TakeOver now v (or_fresh (lookup k providers)) (lookup j rest) (
          subst (λ i. SameCounts (or_fresh (lookup k providers)) (or_fresh (lookup i rest)))
            (sym (==→≡ j k same))
            (TakeOver-SameCounts now (lookup k states) _ _
              (restore_loop-TakeOver k now states providers))))
  | inr other ↦
      rw (lookup-insert j k (restored now v (lookup j rest)) rest, other)
        (restore_loop-TakeOver k now states providers)
]
  where
    rest : Map String ProviderState
    rest = restore_loop now states providers

module _ {Data : Type 0} (unmarshal : Data → Option (Map String ℕ)) where
  abbrev pub operate : CircuitBreaker → Operation Data → CircuitBreaker
  operate cb (calls c) = step cb c
  operate cb (restores now text) = restore_state unmarshal true now text cb

  -- The number that a text has for a circuit; a text that cannot be decoded has none.
  abbrev pub number_in : String → Option Data → Option ℕ
  number_in k none = none
  number_in k (some d) = elim (unmarshal d) [ none ↦ none | some states ↦ lookup k states ]

  abbrev pub Transition : Config → Operation Data → String → ProviderState → ProviderState → Type 0
  Transition cfg (calls c) k s s' = Move cfg c k s s'
  Transition cfg (restores now text) k s s' = TakeOver now (number_in k text) s s'

  restore-TakeOver :
      (cb : CircuitBreaker) (now : ℕ) (text : Option Data) (k : String)
      → TakeOver now
          (number_in k text)
          (circuit cb k)
          (circuit (restore_state unmarshal true now text cb) k)
  unfolding restore_state circuit
  restore-TakeOver cb now none k = unnamed refl refl
  restore-TakeOver cb now (some d) k = elim (Option-cases (unmarshal d)) [
    | inl n ↦ rw (n, restore_state, number_in) (unnamed refl refl)
    | inr (states, n) ↦
        rw (n, restore_state, number_in) (restore_loop-TakeOver k now states cb.providers)
  ]

  -- Every operation takes every circuit along a transition. Of the calls: only a failure trips a
  -- closed circuit, and only at the threshold; only a failure reopens a half-open one; only a check
  -- after the recovery timeout makes an open one half-open; only a success closes one; a call about
  -- another circuit changes no state. `RestoreState` puts a circuit whose number it reads into the
  -- state with this number, an open one with its time as the last failure, and keeps the others.
  pub operate-Transition :
      (cb : CircuitBreaker) (o : Operation Data) (k : String)
      → Transition cb.cfg o k (circuit cb k) (circuit (operate cb o) k)
  operate-Transition cb (calls c) k = step-Move cb c k
  operate-Transition cb (restores now text) k = restore-TakeOver cb now text k
