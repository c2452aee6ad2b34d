-- ===== src/Calling/Retried.antt =====
-- `callWithRetry` of internal/service/responses/retry.go asks the provider again only after an error that
-- may pass, and within its limits.
use gateyes.Common.{
  ℕ, zero, suc, ◌+◌, ◌≤◌, ◌≡◌, ◌⊎◌, refl, subst, true, false, Option, none, some, List, [], ◌∷◌,
  length, ◌==◌, nat_eq, pos, pos_part, ltb_ℤ, arith, All, Bool-cases, Option-cases, inl, inr,
}
use gateyes.Calling.{
  CallError, is_retryable, Reply, responds, refuses, Ports, Called, RetryConfig, delay_of,
  attempts_of, ends_with, Round, stops, goes_on, after_response, after_reply, ask_provider,
  after_command, PostCommand, block_response, transform_response, no_post_command, PreCommand,
  block_request, cache_hit, transform_request, no_command, one_round, after_error, Failure,
  exhausted, cancelled, call_from, call_with_retry,
}

module _ {A B : Type 0} (ports : Ports A B) where
  -- An error that may pass.
  abbrev pub MayPass : Reply B → Type 0
  MayPass (responds resp) = ⊥
  MayPass (refuses e) = is_retryable ports.contains e ≡ true

  -- All replies but the last one are errors that may pass.
  abbrev pub AreRetried : List (Reply B) → Type 0
  AreRetried [] = Unit
  AreRetried (r ∷ []) = Unit
  AreRetried (r ∷ s ∷ rs) = MayPass r × AreRetried (s ∷ rs)

  after-AreRetried :
      (r : Reply B) (rs : List (Reply B)) → MayPass r → AreRetried rs → AreRetried (r ∷ rs)
  after-AreRetried r [] h hs = tt
  after-AreRetried r (s ∷ rs) h hs = (h, hs)

  -- What holds of a call with `n` rounds to go after the first, and `retries` behind it.
  abbrev pub IsBounded : RetryConfig → ℕ → ℕ → Called B → Type 0
  IsBounded c n retries r =
      AreRetried r.replies
      × (length r.replies ≤ suc n)
      × (r.retries ≤ retries + n)
      × (length r.delays + retries ≡ r.retries)
      × All (λ d. d ≤ c.max_delay_ms) r.delays

  -- What a round comes to.
  IsRound : RetryConfig → ℕ → ℕ → Round A B → Type 0
  IsRound c n retries (stops r) = IsBounded c n retries r
  IsRound c n retries (goes_on req e) = is_retryable ports.contains e ≡ true

  after_response-IsBounded :
      (c : RetryConfig) (n retries : ℕ) (resp : B) (k : PostCommand B)
      → IsBounded c n retries (after_response ports retries resp k)
  unfolding after_response
  after_response-IsBounded c n retries resp (block_response reason) =
      (tt, omega arith, omega arith, omega arith, tt)
  after_response-IsBounded c n retries resp (transform_response (some r)) =
      (tt, omega arith, omega arith, omega arith, tt)
  after_response-IsBounded c n retries resp (transform_response none) =
      (tt, omega arith, omega arith, omega arith, tt)
  after_response-IsBounded c n retries resp no_post_command =
      (tt, omega arith, omega arith, omega arith, tt)

  after_reply-IsRound :
      (c : RetryConfig) (n i : ℕ) (req : A) (retries : ℕ) (r : Reply B)
      → IsRound c n retries (after_reply ports i req retries r)
  unfolding after_reply IsRound
  after_reply-IsRound c n i req retries (responds resp) =
      after_response-IsBounded c n retries resp _
  after_reply-IsRound c n i req retries (refuses e) =
      elim (Bool-cases (is_retryable ports.contains e)) [
        | inl y ↦ rw y y
        | inr f ↦ rw f (tt, omega arith, omega arith, omega arith, tt)
      ]

  after_command-IsRound :
      (c : RetryConfig) (n i : ℕ) (req : A) (retries : ℕ) (k : PreCommand A B)
      → IsRound c n retries (after_command ports i req retries k)
  unfolding after_command ask_provider IsRound
  after_command-IsRound c n i req retries (block_request reason) =
      (tt, omega arith, omega arith, omega arith, tt)
  after_command-IsRound c n i req retries (cache_hit (some resp)) =
      (tt, omega arith, omega arith, omega arith, tt)
  after_command-IsRound c n i req retries (cache_hit none) = after_reply-IsRound c n i req retries _
  after_command-IsRound c n i req retries (transform_request (some q)) =
      after_reply-IsRound c n i q retries _
  after_command-IsRound c n i req retries (transform_request none) =
      after_reply-IsRound c n i req retries _
  after_command-IsRound c n i req retries no_command = after_reply-IsRound c n i req retries _

  Round-cases :
      (r : Round A B)
      → ((x : Called B) × (r ≡ stops x)) ⊎ ((req : A) × (e : CallError) × (r ≡ goes_on req e))
  Round-cases (stops x) = inl (x, refl)
  Round-cases (goes_on req e) = inr (req, e, refl)

  delay_of-le : (c : RetryConfig) (i : ℕ) → delay_of c i ≤ c.max_delay_ms
  unfolding delay_of
  delay_of-le c i = ground arith

  last-IsBounded :
      (c : RetryConfig) (n retries : ℕ) (e : CallError) (f : Failure)
      → is_retryable ports.contains e ≡ true
      → IsBounded c n retries (after_error ports e [] (ends_with [] retries none (some f)))
  last-IsBounded c n retries e f h = (tt, omega arith, omega arith, omega arith, tt)

  cancelled-IsBounded :
      (c : RetryConfig) (n i retries : ℕ) (e : CallError) (f : Failure)
      → IsBounded c
          (suc n)
          retries
          (after_error ports e (delay_of c i ∷ []) (ends_with [] (retries + 1) none (some f)))
  cancelled-IsBounded c n i retries e f =
      (tt, omega arith, omega arith, omega arith, (delay_of-le c i, tt))

  next-IsBounded :
      (c : RetryConfig) (n i retries : ℕ) (e : CallError) (r : Called B)
      → is_retryable ports.contains e ≡ true
      → IsBounded c n (retries + 1) r
      → IsBounded c (suc n) retries (after_error ports e (delay_of c i ∷ []) r)
  next-IsBounded c n i retries e r h (a, l, m, d, ds) = (
    after-AreRetried (refuses e) r.replies h a,
    omega arith,
    omega arith,
    omega arith,
    (delay_of-le c i, ds),
  )

  call_from-IsBounded :
      (c : RetryConfig) (n i : ℕ) (req : A) (retries : ℕ) (last : Option CallError)
      → IsBounded c n retries (call_from ports c (suc n) i req retries last)
  unfolding call_from one_round IsRound
  call_from-IsBounded c zero i req retries last =
      let round = after_command-IsRound c zero i req retries (ports.pre_upstream i req) in
      elim (Round-cases (one_round ports i req retries)) [
        | inl (x, q) ↦ rw (q, call_from) (subst (IsRound c zero retries) q round)
        | inr (req', e, q) ↦
            rw (q, call_from)
              (last-IsBounded c zero retries e (exhausted (some e))
                (subst (IsRound c zero retries) q round))
      ]
  call_from-IsBounded c (suc n) i req retries last =
      let round = after_command-IsRound c (suc n) i req retries (ports.pre_upstream i req) in
      let more : (suc n == 0) ≡ false = ground arith in
      elim (Round-cases (one_round ports i req retries)) [
        | inl (x, q) ↦ rw (q, call_from) (subst (IsRound c (suc n) retries) q round)
        | inr (req', e, q) ↦ elim (Option-cases (ports.context_ends i)) [
          | inl w ↦
              rw (q, call_from, more, w)
                (next-IsBounded c n i retries e
                  (call_from ports c (suc n) (i + 1) req' (retries + 1) (some e))
                  (subst (IsRound c (suc n) retries) q round)
                  (call_from-IsBounded c n (i + 1) req' (retries + 1) (some e)))
          | inr (d, w) ↦
              rw (q, call_from, more, w) (cancelled-IsBounded c n i retries e (cancelled d))
        ]
      ]

  -- With a limit that is not negative, a call asks the provider again only after an error that may pass, at
  -- most as often as the limit says; it reports as retries just the delays it began, each of which is
  -- within the longest delay.
  pub call_with_retry-IsBounded :
      (c : RetryConfig) (req : A)
      → ltb_ℤ c.max_retries (pos 0) ≡ false
      → IsBounded c (pos_part c.max_retries) 0 (call_with_retry ports c req)
  unfolding call_with_retry attempts_of
  call_with_retry-IsBounded c req h =
      rw h (call_from-IsBounded c (pos_part c.max_retries) 0 req 0 none)
