-- ===== src/Retry/Laws.antt =====
-- What `Do` of internal/pkg/retry/retry.go returns, and what it waits for, by its last call.
use gateyes.Common.{
  ℕ, zero, suc, ◌+◌, ◌-◌, ◌<◌, ◌≡◌, refl, Option, none, some, List, [], ◌∷◌, arith, ap, subst,
}
use gateyes.Retry.{Run, backoff, attempts_of, do_from, do_retry}

-- The delays of `n` rounds from `i` on.
abbrev pub backoffs : ℕ → ℕ → ℕ → List ℕ
backoffs base i zero = []
backoffs base i (suc n) = backoff base i ∷ backoffs base (i + 1) n

module _ {E : Type 0} (fn : ℕ → Option E) (cancelled : ℕ → Option E) where
  -- Round `i` is followed by another one, where attempts are left.
  abbrev pub GoesOn : ℕ → Type 0
  GoesOn i = ((e : E) × (fn i ≡ some e)) × (cancelled i ≡ none)

  -- The run is `k` waits longer than another one.
  do_from-GoesOn :
      (base left i : ℕ)
      → GoesOn i
      → do_from fn cancelled base (suc left) i ≡ record (do_from fn cancelled base left (i + 1)) {
        delays = backoff base i ∷ (do_from fn cancelled base left (i + 1)).delays;
      }
  unfolding do_from
  do_from-GoesOn base left i ((e, f), c) = ground (arith, f, c)

  -- The calls, the delays and the result of the run from round `i` on.
  Ends : ℕ → ℕ → ℕ → ℕ → ℕ → Option E → Type 0
  Ends base left i calls waits result =
      (run.calls ≡ calls) × (run.delays ≡ backoffs base i waits) × (run.returned ≡ result)
    where
      run : Run E
      run = do_from fn cancelled base left i

  Ends-GoesOn :
      (base left i calls waits : ℕ) (result : Option E)
      → GoesOn i
      → Ends base left (i + 1) calls waits result
      → Ends base (suc left) i calls (suc waits) result
  unfolding Ends
  Ends-GoesOn base left i calls waits result g (c, d, r) =
      rw (do_from-GoesOn base left i g) (c, ap (◌∷◌ (backoff base i)) d, r)

  Ends-skip :
      (base more i k left last calls waits total : ℕ) (result : Option E)
      → left ≡ more + k
      → last ≡ i + k
      → total ≡ waits + k
      → ((j : ℕ) → j < k → GoesOn (i + j))
      → Ends base more last calls waits result
      → Ends base left i calls total result
  Ends-skip base more i zero left last calls waits total result l n t g h =
      let l' : left ≡ more = omega arith in
      let n' : i ≡ last = omega arith in let t' : total ≡ waits = omega arith in rw (l', n', t') h
  Ends-skip base more i (suc k) left last calls waits total result l n t g h =
      let l' : left ≡ suc (more + k) = omega arith in
      let t' : total ≡ suc (waits + k) = omega arith in
      let first : i + 0 ≡ i = omega arith in
      rw (l', t')
        (Ends-GoesOn base (more + k) i calls (waits + k) result
          (subst GoesOn first (g 0 (omega arith)))
          (Ends-skip base more (i + 1) k (more + k) last calls waits (waits + k) result refl
            (omega arith) refl
            (λ j m.
              let e : i + suc j ≡ i + 1 + j = omega arith in
              subst GoesOn e (g (suc j) (omega arith)))
            h))

  Ends-last : (base more i : ℕ) → fn i ≡ none → Ends base more i (i + 1) 0 none
  unfolding Ends do_from
  Ends-last base zero i f = (refl, refl, f)
  Ends-last base (suc more) i f = ground (arith, f)

  Ends-cancelled :
      (base more i : ℕ) (e c : E)
      → fn i ≡ some e
      → cancelled i ≡ some c
      → Ends base (suc more) i (i + 1) 1 (some c)
  unfolding Ends do_from
  Ends-cancelled base more i e c f d = ground (arith, f, d)

  Ends-attempts :
      (max_attempts base k more calls waits total : ℕ) (result : Option E)
      → attempts_of max_attempts ≡ more + k + 1
      → total ≡ waits + k
      → ((j : ℕ) → j < k → GoesOn j)
      → Ends base more k calls waits result
      → Ends base (attempts_of max_attempts - 1) 0 calls total result
  Ends-attempts max_attempts base k more calls waits total result a t g =
      Ends-skip base more 0 k (attempts_of max_attempts - 1) k calls waits total result
        (omega arith) (omega arith) t
        (λ j l. let e : j ≡ 0 + j = omega arith in subst GoesOn e (g j l))

  -- After `k` failed calls with nothing cancelled, a call that succeeds is the last one: the run
  -- returns nil, and waited the first `k` backoffs.
  pub do_retry-success :
      (max_attempts base k : ℕ)
      → k < attempts_of max_attempts
      → ((j : ℕ) → j < k → GoesOn j)
      → fn k ≡ none
      → ((do_retry fn cancelled max_attempts base).calls ≡ k + 1)
        × ((do_retry fn cancelled max_attempts base).delays ≡ backoffs base 0 k)
        × ((do_retry fn cancelled max_attempts base).returned ≡ none)
  unfolding do_retry Ends
  do_retry-success max_attempts base k l g f =
      Ends-attempts max_attempts base k (attempts_of max_attempts - 1 - k) (k + 1) 0 k none
        (omega arith) (omega arith) g (Ends-last base (attempts_of max_attempts - 1 - k) k f)

  -- When every call fails and nothing is cancelled before the last one, all attempts are made (one
  -- at least), a backoff is waited between any two, and the last call's error is returned.
  pub do_retry-failure :
      (max_attempts base k : ℕ) (e : E)
      → attempts_of max_attempts ≡ k + 1
      → ((j : ℕ) → j < k → GoesOn j)
      → fn k ≡ some e
      → ((do_retry fn cancelled max_attempts base).calls ≡ attempts_of max_attempts)
        × ((do_retry fn cancelled max_attempts base).delays ≡ backoffs base 0 k)
        × ((do_retry fn cancelled max_attempts base).returned ≡ some e)
  unfolding do_retry Ends do_from
  do_retry-failure max_attempts base k e l g f =
      Ends-attempts max_attempts base k 0 (attempts_of max_attempts) 0 k (some e) (omega arith)
        (omega arith) g (omega arith, refl, f)

  -- When the context ends while the loop waits after a failed call, the context's error is
  -- returned, no further call is made, and the interrupted wait is one of the backoffs.
  pub do_retry-cancelled :
      (max_attempts base k : ℕ) (e c : E)
      → k + 1 < attempts_of max_attempts
      → ((j : ℕ) → j < k → GoesOn j)
      → fn k ≡ some e
      → cancelled k ≡ some c
      → ((do_retry fn cancelled max_attempts base).calls ≡ k + 1)
        × ((do_retry fn cancelled max_attempts base).delays ≡ backoffs base 0 (suc k))
        × ((do_retry fn cancelled max_attempts base).returned ≡ some c)
  unfolding do_retry Ends
  do_retry-cancelled max_attempts base k e c l g f d =
      let more = attempts_of max_attempts - 2 - k in
      Ends-attempts max_attempts base k (suc more) (k + 1) 1 (suc k) (some c) (omega arith)
        (omega arith) g (Ends-cancelled base more k e c f d)
