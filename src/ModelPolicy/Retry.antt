-- ===== src/ModelPolicy/Retry.antt =====
-- modelpolicy/resilience.go: ResilientProvider around a provider that may fail, and the
-- Retry-After header of openai_provider.go. Floats are exact fractions here: BackoffScale is a
-- ratio, and `rand.Float64()` is draw / 2^53. `strconv.Atoi` is a parameter.
pub mod Result
pub mod Leak
use nexixai_agentos.Prelude.{string_key}
use nexixai_agentos.Prelude.{
  ℕ, zero, suc, ◌+◌, ◌*◌, ◌/◌, ◌^◌, String, Bool, true, false, Option, none, some, if◌then◌else◌,
  ltb, leb, eqb, ◌==◌, ◌||◌, get_or,
}
use nexixai_agentos.ModelPolicy.Breaker.{Breaker, allow, record_success, record_failure}

pub record RetryConfig : Type 0 where
  pub max_attempts : ℕ
  pub base_backoff : ℕ
  pub max_backoff : ℕ
  pub scale_num : ℕ
  pub scale_den : ℕ

pub record ProviderError : Type 0 where
  pub status_code : ℕ
  -- the Retry-After header, "" if absent
  pub retry_after : String

-- A provider's error response, a connection error, the open circuit, a cancelled context.
pub data Error : Type 0 where
  provider : ProviderError → Error
  connection circuit_open cancelled : Error

unfoldable pub is_retryable : Error → Bool
is_retryable (provider pe) = leb 500 pe.status_code || eqb pe.status_code 429
is_retryable _ = true

abbrev pub draws : ℕ
draws = 2 ^ 53

-- `base` as the fraction num / den: the scaled backoff, or the maximum if that is less.
abbrev backoff_base : ℕ → RetryConfig → ℕ × ℕ
backoff_base attempt cfg =
    let num = cfg.base_backoff * cfg.scale_num ^ attempt in
    let den = cfg.scale_den ^ attempt in
    if ltb (cfg.max_backoff * den) num then (cfg.max_backoff, 1) else (num, den)

-- `base + base * 0.25 * (2 * draw / draws - 1)`, which is not negative, rounded down.
unfoldable pub backoff_duration : ℕ → RetryConfig → ℕ → ℕ
backoff_duration attempt cfg draw =
    let (num, den) = backoff_base attempt cfg in
    (num * (3 * draws + 2 * draw)) / (den * (4 * draws))

module _ (atoi : String → Option ℕ) where
  abbrev retry_after_seconds : ProviderError → ℕ
  retry_after_seconds pe = if pe.retry_after == "" then 0 else get_or (atoi pe.retry_after) 0

  -- In nanoseconds. A negative number of seconds counts as none.
  unfoldable pub retry_after_duration : Option Error → ℕ
  retry_after_duration (some (provider pe)) = retry_after_seconds pe * 1_000_000_000
  retry_after_duration _ = 0

  -- The wait before attempt `n + 1`: the backoff, or Retry-After if that is longer.
  unfoldable pub wait_before : RetryConfig → ℕ → ℕ → Option Error → ℕ
  wait_before cfg n draw last =
      let wait = backoff_duration n cfg draw in
      let ra = retry_after_duration last in if ltb wait ra then ra else wait

pub data Answer {ℓ} (A : Type ℓ) : Type ℓ where
  ok : A → Answer A
  err : Error → Answer A

-- What happens around one request: the clock before the breaker is asked and after a failure,
-- whether the context is done before a wait of the given length is over, the random draws, and
-- what the provider answers, each by the number of the attempt.
pub record Env {ℓ} (A : Type ℓ) : Type ℓ where
  pub before : ℕ → ℕ
  pub after : ℕ → ℕ
  pub done_within : ℕ → ℕ → Bool
  pub draw : ℕ → ℕ
  pub inner : ℕ → Answer A

-- The variables of the loop: the shared breaker, `lastErr`, and the calls made of the provider.
pub record Loop : Type 0 where
  pub breaker : Breaker
  pub last_error : Option Error
  pub calls : ℕ

-- How a request ends: with a response, with an error, or with neither (`nil, nil`).
pub data Outcome {ℓ} (A : Type ℓ) : Type ℓ where
  response : A → Outcome A
  failed : Error → Outcome A
  nothing : Outcome A

pub data Turn {ℓ} (A : Type ℓ) : Type ℓ where
  stop : Loop → Outcome A → Turn A
  go_on : Loop → Turn A

module _ {ℓ} {A : Type ℓ} where
  abbrev give_up : Option Error → Outcome A
  give_up none = nothing
  give_up (some e) = failed e

  abbrev answered : Env A → ℕ → Loop → Answer A → Turn A
  answered env n s (ok a) = stop (record s { breaker = record_success s.breaker }) (response a)
  answered env n s (err e) =
      let s' = record s { last_error = some e } in
      if is_retryable e
      then go_on (record s' { breaker = record_failure s.breaker (env.after n) })
      else stop s' (failed e)

  abbrev asked : Env A → ℕ → Loop → Breaker × Bool → Turn A
  asked env n s (cb, false) = go_on (record s { breaker = cb; last_error = some circuit_open })
  asked env n s (cb, true) =
      answered env n (record s { breaker = cb; calls = s.calls + 1 }) (env.inner n)

  abbrev resume : (Loop → Loop × Outcome A) → Turn A → Loop × Outcome A
  resume rest (stop s o) = (s, o)
  resume rest (go_on s) = rest s

  module _ (atoi : String → Option ℕ) (cfg : RetryConfig) where
    -- Attempt 0 does not wait.
    abbrev interrupted : Env A → ℕ → Loop → Bool
    interrupted env zero s = false
    interrupted env (suc n) s =
        env.done_within (suc n) (wait_before atoi cfg n (env.draw (suc n)) s.last_error)

    -- The body of the loop.
    unfoldable pub turn : Env A → ℕ → Loop → Turn A
    turn env n s =
        if interrupted env n s
        then stop s (failed cancelled)
        else asked env n s (allow s.breaker (env.before n))

    -- The attempts from `n` on, with how many are left.
    unfoldable pub attempts : Env A → ℕ → ℕ → Loop → Loop × Outcome A
    attempts env zero n s = (s, give_up s.last_error)
    attempts env (suc left) n s = resume (attempts env left (n + 1)) (turn env n s)

    unfoldable pub chat_complete : Breaker → Env A → Loop × Outcome A
    chat_complete cb env =
        attempts env cfg.max_attempts 0 (record { breaker = cb; last_error = none; calls = 0 })

    -- The same loop around the provider's stream call.
    unfoldable pub chat_complete_stream : Breaker → Env A → Loop × Outcome A
    chat_complete_stream cb env =
        attempts env cfg.max_attempts 0 (record { breaker = cb; last_error = none; calls = 0 })
