-- ===== src/Retry.antt =====
-- internal/pkg/retry/retry.go: `Do`, which calls a function until it succeeds, the context ends or
-- the attempts are used up. What `fn` returns at each of its calls, and whether the context ends
-- while the loop waits after a call, are arguments. A delay is the 64 bits of a `time.Duration`.
pub mod Laws
use gateyes.Common.{
  ℕ, zero, suc, ◌+◌, ◌-◌, ◌*◌, ◌%◌, ◌^◌, Option, none, some, List, [], ◌∷◌, leb, if◌then◌else◌,
}

-- `baseDelay * (1 << i)`.
unfoldable pub backoff : ℕ → ℕ → ℕ
backoff base i = base * 2 ^ i % 2 ^ 64

unfoldable pub attempts_of : ℕ → ℕ
attempts_of max_attempts = if leb max_attempts 0 then 1 else max_attempts

-- What a run did: the number of calls, the delays it waited or began to wait, what it returned.
pub record Run (E : Type 0) : Type 0 where
  pub calls : ℕ
  pub delays : List ℕ
  pub returned : Option E

module _ {E : Type 0} (fn : ℕ → Option E) (cancelled : ℕ → Option E) where
  -- The loop from round `i` with one attempt and `left` more; `none` is the nil error.
  unfoldable pub do_from : ℕ → ℕ → ℕ → Run E
  do_from base zero i = record { calls = i + 1; delays = []; returned = fn i }
  do_from base (suc left) i =
      let rest = do_from base left (i + 1) in
      elim (fn i) [
        | none ↦ record { calls = i + 1; delays = []; returned = none }
        | some error ↦ elim (cancelled i) [
          | some ended ↦ record {
            calls = i + 1;
            delays = backoff base i ∷ [];
            returned = some ended;
          }
          | none ↦ record rest { delays = backoff base i ∷ rest.delays }
        ]
      ]

  unfoldable pub do_retry : ℕ → ℕ → Run E
  do_retry max_attempts base = do_from base (attempts_of max_attempts - 1) 0
