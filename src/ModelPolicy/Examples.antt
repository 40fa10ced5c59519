-- ===== src/ModelPolicy/Examples.antt =====
-- The theorems on the circuit breaker and the retry loop at concrete inputs.
use nexixai_agentos.Prelude.{
  ℕ, ◌+◌, String, ◌≡◌, refl, false, Option, none, some, [], ◌∷◌, arith, suc, zero,
}
use nexixai_agentos.ModelPolicy.Breaker.{Breaker, BreakerConfig, closed, opened, allow}
use nexixai_agentos.ModelPolicy.Breaker.Trips.{after_failures, allow-tripped}
use nexixai_agentos.ModelPolicy.Retry.{
  RetryConfig, Answer, ok, err, provider, connection, circuit_open, Env, Outcome, is_retryable,
  chat_complete,
}
use nexixai_agentos.ModelPolicy.Retry.Result.{plain, chat_complete-plain}
use nexixai_agentos.ModelPolicy.Retry.Leak.{served, served-leaked}

abbrev config : BreakerConfig
config = record { failure_threshold = 3; recovery_timeout = 60; half_open_max = 2 }

abbrev fresh : Breaker
fresh = record {
  state = closed;
  failures = 0;
  last_failure = 0;
  half_open_active = 0;
  cfg = config;
}

abbrev tripped : Breaker
tripped = record {
  state = opened;
  failures = 3;
  last_failure = 30;
  half_open_active = 0;
  cfg = config;
}

allow-tripped_example : (allow (after_failures fresh (10 ∷ 20 ∷ 30 ∷ [])) 80).1 ≡ false
allow-tripped_example = allow-tripped fresh (10 ∷ 20 ∷ []) 30 80 refl (omega arith)

abbrev no_numbers : String → Option ℕ
no_numbers s = none

abbrev three_attempts : RetryConfig
three_attempts = record {
  max_attempts = 3;
  base_backoff = 500;
  max_backoff = 30000;
  scale_num = 2;
  scale_den = 1;
}

-- A connection error, and then a response.
abbrev second_try : ℕ → Answer ℕ
second_try zero = err connection
second_try (suc n) = ok 7

abbrev flaky : Env ℕ
flaky = record {
  before = λ n. 100 + n;
  after = λ n. 100 + n;
  done_within = λ n wait. false;
  draw = λ n. 0;
  inner = second_try;
}

chat_complete-plain_example :
    let (s, o) = chat_complete no_numbers three_attempts fresh flaky in
    (s.calls, o) ≡ plain second_try 3 0 none 0
chat_complete-plain_example =
    chat_complete-plain no_numbers three_attempts flaky fresh (λ n wait. refl) (refl, omega arith)

second_try_answers : plain second_try 3 0 none 0 ≡ (2, Outcome.response 7)
unfolding plain is_retryable
second_try_answers = refl

-- A response with status 400.
abbrev rejecting : Env ℕ
rejecting = record flaky {
  inner = λ n. err (provider (record { status_code = 400; retry_after = "" }));
}

served-leaked_example :
    let locked = served no_numbers three_attempts tripped (rejecting ∷ rejecting ∷ []) in
    chat_complete no_numbers three_attempts locked flaky ≡ (
      record { breaker = locked; last_error = some circuit_open; calls = 0 },
      Outcome.failed circuit_open,
    )
unfolding is_retryable
served-leaked_example =
    served-leaked no_numbers three_attempts tripped rejecting (rejecting ∷ []) flaky (omega arith)
      refl (omega arith) refl
      (
        record {
          error = provider (record { status_code = 400; retry_after = "" });
          answer = refl;
          final = refl;
        },
        (
          record {
            error = provider (record { status_code = 400; retry_after = "" });
            answer = refl;
            final = refl;
          },
          tt,
        ),
      )
      (λ n wait. refl)
