-- ===== src/Calling.antt =====
-- internal/service/responses/retry.go: a call of a provider, with the plugins around it, that is made again
-- after an error that may pass. Plugins, the provider and the context answer by the number of the
-- attempt; what JSON decoding makes of a plugin's payload is part of its command.
pub mod Retried
use gateyes.Common.{
  ℕ, zero, suc, ◌+◌, ◌*◌, ◌/◌, ◌^◌, String, Bool, true, false, ◌&&◌, ◌||◌, not, Option, none, some,
  List, [], ◌∷◌, ◌++◌, ltb, leb, ◌==◌, nat_eq, if◌then◌else◌, ℤ, pos, negsuc, pos_part, ltb_ℤ,
}

-- An error, as `isRetryable` reads it; `upstream` is the status code of an UpstreamError.
pub record CallError : Type 0 where
  pub unauthorized : Bool
  pub forbidden : Bool
  pub upstream : Option ℕ
  pub message : String

-- `UpstreamError.IsRetryable`.
unfoldable pub upstream_retryable : ℕ → Bool
upstream_retryable code = if leb 400 code && ltb code 500 then code == 429 else leb 500 code

-- `contains` is strings.Contains.
unfoldable pub is_retryable : (String → String → Bool) → CallError → Bool
is_retryable contains e = if e.unauthorized || e.forbidden then false else elim e.upstream [
  | some code ↦ upstream_retryable code
  | none ↦ not (
      contains e.message "401"
      || contains e.message "403"
      || contains e.message "400"
      || contains e.message "422"
      || contains e.message "404")
]

pub data PreCommand (A B : Type 0) : Type 0 where
  block_request : String → PreCommand A B
  transform_request : Option A → PreCommand A B
  cache_hit : Option B → PreCommand A B
  no_command : PreCommand A B

pub data PostCommand (B : Type 0) : Type 0 where
  block_response : String → PostCommand B
  transform_response : Option B → PostCommand B
  no_post_command : PostCommand B

pub data Reply (B : Type 0) : Type 0 where
  responds : B → Reply B
  refuses : CallError → Reply B

pub record Ports (A B : Type 0) : Type 0 where
  pub pre_upstream : ℕ → A → PreCommand A B
  pub create_response : ℕ → A → Reply B
  pub post_upstream : ℕ → A → B → PostCommand B
  pub context_ends : ℕ → Option CallError
  pub contains : String → String → Bool

pub data Failure : Type 0 where
  blocked : String → Failure
  failed : CallError → Failure
  cancelled : CallError → Failure
  exhausted : Option CallError → Failure

-- What the call comes to: the replies of the provider in their order, the count of retries, the delays in
-- milliseconds, and the response or the failure.
pub record Called (B : Type 0) : Type 0 where
  pub replies : List (Reply B)
  pub retries : ℕ
  pub delays : List ℕ
  pub response : Option B
  pub failure : Option Failure

-- The configuration; the backoff factor is in thousandths.
pub record RetryConfig : Type 0 where
  pub max_retries : ℤ
  pub initial_delay_ms : ℕ
  pub max_delay_ms : ℕ
  pub backoff_factor : ℕ

unfoldable pub delay_of : RetryConfig → ℕ → ℕ
delay_of c i =
    let delay = c.initial_delay_ms * c.backoff_factor ^ i / 1000 ^ i in
    if ltb c.max_delay_ms delay then c.max_delay_ms else delay

unfoldable pub attempts_of : RetryConfig → ℕ
attempts_of c = if ltb_ℤ c.max_retries (pos 0) then 0 else suc (pos_part c.max_retries)

abbrev pub ends_with : {B : Type 0} → List (Reply B) → ℕ → Option B → Option Failure → Called B
ends_with replies retries response failure = record {
  replies = replies;
  retries = retries;
  delays = [];
  response = response;
  failure = failure;
}

-- One round of the loop: it ends the call, or leaves the request as the plugin made it and an error.
pub data Round (A B : Type 0) : Type 0 where
  stops : Called B → Round A B
  goes_on : A → CallError → Round A B

module _ {A B : Type 0} (ports : Ports A B) where
  -- The provider has responded, and a plugin commands.
  unfoldable pub after_response : ℕ → B → PostCommand B → Called B
  after_response retries resp (block_response reason) =
      ends_with (responds resp ∷ []) retries none (some (blocked reason))
  after_response retries resp (transform_response (some resp')) =
      ends_with (responds resp ∷ []) retries (some resp') none
  after_response retries resp (transform_response none) =
      ends_with (responds resp ∷ []) retries (some resp) none
  after_response retries resp no_post_command =
      ends_with (responds resp ∷ []) retries (some resp) none

  unfoldable pub after_reply : ℕ → A → ℕ → Reply B → Round A B
  after_reply i req retries (responds resp) =
      stops (after_response retries resp (ports.post_upstream i req resp))
  after_reply i req retries (refuses e) =
      if is_retryable ports.contains e
      then goes_on req e
      else stops (ends_with (refuses e ∷ []) retries none (some (failed e)))

  unfoldable pub ask_provider : ℕ → A → ℕ → Round A B
  ask_provider i req retries = after_reply i req retries (ports.create_response i req)

  -- A plugin commands before the provider is asked.
  unfoldable pub after_command : ℕ → A → ℕ → PreCommand A B → Round A B
  after_command i req retries (block_request reason) =
      stops (ends_with [] retries none (some (blocked reason)))
  after_command i req retries (cache_hit (some resp)) =
      stops (ends_with [] retries (some resp) none)
  after_command i req retries (cache_hit none) = ask_provider i req retries
  after_command i req retries (transform_request (some req')) = ask_provider i req' retries
  after_command i req retries (transform_request none) = ask_provider i req retries
  after_command i req retries no_command = ask_provider i req retries

  unfoldable pub one_round : ℕ → A → ℕ → Round A B
  one_round i req retries = after_command i req retries (ports.pre_upstream i req)

  abbrev pub after_error : CallError → List ℕ → Called B → Called B
  after_error e delays rest = record rest {
    replies = refuses e ∷ rest.replies;
    delays = delays ++ rest.delays;
  }

  -- The loop with `n` rounds left, from round `i` on.
  unfoldable pub call_from : RetryConfig → ℕ → ℕ → A → ℕ → Option CallError → Called B
  call_from c zero i req retries last_err = ends_with [] retries none (some (exhausted last_err))
  call_from c (suc n) i req retries last_err = elim (one_round i req retries) [
    | stops r ↦ r
    | goes_on req' e ↦
        if n == 0
        then after_error e [] (ends_with [] retries none (some (exhausted (some e))))
        else elim (ports.context_ends i) [
          | none ↦
              after_error e (delay_of c i ∷ []) (call_from c n (i + 1) req' (retries + 1) (some e))
          | some d ↦
              after_error e (delay_of c i ∷ [])
                (ends_with [] (retries + 1) none (some (cancelled d)))
        ]
  ]

  unfoldable pub call_with_retry : RetryConfig → A → Called B
  call_with_retry c req = call_from c (attempts_of c) 0 req 0 none
