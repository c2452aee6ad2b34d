-- ===== src/Examples/Requests.antt =====
-- The theorems on `Create`, applied to two providers of which the first never answers.
use gateyes.Common.{
  ◌≡◌, ◌+◌, String, Option, none, some, List, [], ◌∷◌, ◌==◌, string_eq, if◌then◌else◌,
}
use gateyes.Inference.{Log, Dependencies, create_record, cancelled, candidates_loop, serve}
use gateyes.Inference.Closing.{closings, one_if, closings-serve}

abbrev deps : Dependencies String String String
deps = record {
  admission = none;
  router = some (λ log req. ("down" ∷ "up" ∷ [], none));
  invoker =
      λ log name req. if name == "down" then (none, some "timeout") else (some "answer", none);
  cache = none;
  usage = some (λ log name resp. none);
  plugins = none;
  repository = some (λ log. none);
  max_attempts = 2;
  initial_delay = 100;
}

abbrev not_ended : Log → Option String
not_ended log = none

abbrev planned : List String
planned = "down" ∷ "up" ∷ []

closings-serve_example :
    closings (serve deps not_ended "no provider" "prompt" planned (create_record ∷ [])).0
    ≡ closings (create_record ∷ [])
      + elim (candidates_loop deps not_ended "prompt" planned 0 0 none (create_record ∷ [])).1 [
        | cancelled c ↦ 0
        | _ ↦ one_if deps.repository
      ]
closings-serve_example =
    closings-serve deps not_ended "no provider" "prompt" planned (create_record ∷ [])
