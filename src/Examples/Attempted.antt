-- ===== src/Examples/Attempted.antt =====
-- The theorem on calls that are made again, applied to a provider that is overloaded twice.
use gateyes.Common.{refl, String, false, none, some, ltb, if◌then◌else◌, pos}
use gateyes.Calling.{
  CallError, responds, refuses, Ports, no_command, no_post_command, RetryConfig, call_with_retry,
}
use gateyes.Calling.Retried.{IsBounded, call_with_retry-IsBounded}

abbrev overloaded : CallError
overloaded = record {
  unauthorized = false;
  forbidden = false;
  upstream = some 503;
  message = "overloaded";
}

-- The provider responds from the third attempt on, and no plugin commands anything.
abbrev ports : Ports String String
ports = record {
  pre_upstream = λ i req. no_command;
  create_response = λ i req. if ltb i 2 then refuses overloaded else responds "done";
  post_upstream = λ i req resp. no_post_command;
  context_ends = λ i. none;
  contains = λ text part. false;
}

abbrev three_retries : RetryConfig
three_retries = record {
  max_retries = pos 3;
  initial_delay_ms = 100;
  max_delay_ms = 150;
  backoff_factor = 2000;
}

call_with_retry-IsBounded_example :
    IsBounded ports three_retries 3 0 (call_with_retry ports three_retries "hello")
call_with_retry-IsBounded_example = call_with_retry-IsBounded ports three_retries "hello" refl
