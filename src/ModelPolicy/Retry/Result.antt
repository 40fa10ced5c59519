-- ===== src/ModelPolicy/Retry/Result.antt =====
-- What a request behind the retry loop returns (modelpolicy/resilience.go, ChatComplete).
use nexixai_agentos.Prelude.{
  ℕ, zero, suc, ◌+◌, ◌≤◌, String, ◌≡◌, refl, false, Option, none, some, Bool-cases, inl, inr,
  if◌then◌else◌, arith,
}
use nexixai_agentos.ModelPolicy.Breaker.{Breaker, closed, allow, record_failure}
use nexixai_agentos.ModelPolicy.Retry.{
  RetryConfig, Error, Answer, ok, err, Env, Loop, Outcome, response, failed, is_retryable, Turn,
  stop, go_on, resume, wait_before, give_up, answered, turn, attempts, chat_complete,
}

-- The retry loop without a breaker: the calls made, and the outcome, of up to `left` attempts.
abbrev pub plain_answer {ℓ} : {A : Type ℓ} → (Error → ℕ × Outcome A) → ℕ → Answer A → ℕ × Outcome A
plain_answer rest calls (ok a) = (calls, response a)
plain_answer rest calls (err e) = if is_retryable e then rest e else (calls, failed e)

unfoldable pub plain {ℓ} : {A : Type ℓ} → (ℕ → Answer A) → ℕ → ℕ → Option Error → ℕ → ℕ × Outcome A
plain inner zero n last calls = (calls, give_up last)
plain inner (suc left) n last calls =
    plain_answer (λ e. plain inner left (n + 1) (some e) (calls + 1)) (calls + 1) (inner n)

abbrev loop_of {ℓ} : {A : Type ℓ} → Turn A → Loop
loop_of (stop s o) = s
loop_of (go_on s) = s

module _ {ℓ} {A : Type ℓ} (atoi : String → Option ℕ) (cfg : RetryConfig) (env : Env A) where
  turn-calls-le : (n : ℕ) (s : Loop) → (loop_of (turn atoi cfg env n s)).calls ≤ s.calls + 1
  unfolding turn
  turn-calls-le n s = ground arith

  resume-calls-le :
      (rest : Loop → Loop × Outcome A) (t : Turn A) (left calls : ℕ)
      → ((s : Loop) → (rest s).0.calls ≤ s.calls + left)
      → (loop_of t).calls ≤ calls + 1
      → (resume rest t).0.calls ≤ calls + suc left
  resume-calls-le rest (stop s o) left calls h g = omega arith
  resume-calls-le rest (go_on s) left calls h g = omega (arith, h s)

  attempts-calls-le :
      (left n : ℕ) (s : Loop) → (attempts atoi cfg env left n s).0.calls ≤ s.calls + left
  unfolding attempts
  attempts-calls-le zero n s = omega arith
  attempts-calls-le (suc left) n s =
      resume-calls-le (attempts atoi cfg env left (n + 1)) (turn atoi cfg env n s) left s.calls
        (attempts-calls-le left (n + 1)) (turn-calls-le n s)

  -- A request makes at most `MaxAttempts` calls of the provider.
  pub chat_complete-calls-le :
      (cb : Breaker) → (chat_complete atoi cfg cb env).0.calls ≤ cfg.max_attempts
  unfolding chat_complete
  chat_complete-calls-le cb = omega (
    arith,
    attempts-calls-le cfg.max_attempts 0 (record { breaker = cb; last_error = none; calls = 0 }),
  )

  -- No wait is cut short by the context.
  abbrev pub Uninterrupted : Type 0
  Uninterrupted = (n wait : ℕ) → env.done_within n wait ≡ false

  -- The breaker is closed and has room for a failure at each attempt left.
  abbrev pub Ready : ℕ → Breaker → Type 0
  Ready zero cb = Unit
  Ready (suc left) cb = (cb.state ≡ closed) × (cb.failures + suc left ≤ cb.cfg.failure_threshold)

  turn-closed :
      (n : ℕ) (s : Loop)
      → Uninterrupted
      → s.breaker.state ≡ closed
      → turn atoi cfg env n s ≡ answered env n (record s { calls = s.calls + 1 }) (env.inner n)
  unfolding turn allow
  turn-closed zero s calm state = ground arith
  turn-closed (suc n) s calm state =
      rw (calm (suc n) (wait_before atoi cfg n (env.draw (suc n)) s.last_error)) (ground arith)

  Ready-record_failure :
      (left now : ℕ) (cb : Breaker) → Ready (suc left) cb → Ready left (record_failure cb now)
  unfolding record_failure
  Ready-record_failure zero now cb h = tt
  Ready-record_failure (suc left) now cb h = ground arith

  answered-plain :
      (left n : ℕ) (s : Loop) (a : Answer A)
      → Ready (suc left) s.breaker
      → ((s : Loop)
          → Ready left s.breaker
          → let (s', o) = attempts atoi cfg env left (n + 1) s in
            (s'.calls, o) ≡ plain env.inner left (n + 1) s.last_error s.calls)
      → let (s', o) = resume (attempts atoi cfg env left (n + 1)) (answered env n s a) in
        (s'.calls, o) ≡ plain_answer (λ e. plain env.inner left (n + 1) (some e) s.calls) s.calls a
  answered-plain left n s (ok a) ready rest = refl
  answered-plain left n s (err e) ready rest = elim (Bool-cases (is_retryable e)) [
    | inl r ↦ rw r (
        rest (record s { last_error = some e; breaker = record_failure s.breaker (env.after n) })
          (Ready-record_failure left (env.after n) s.breaker ready))
    | inr r ↦ rw r refl
  ]

  attempts-plain :
      (left n : ℕ) (s : Loop)
      → Uninterrupted
      → Ready left s.breaker
      → let (s', o) = attempts atoi cfg env left n s in
        (s'.calls, o) ≡ plain env.inner left n s.last_error s.calls
  unfolding attempts plain
  attempts-plain zero n s calm ready = refl
  attempts-plain (suc left) n s calm ready = rw (turn-closed n s calm ready.0) (
      answered-plain left n (record s { calls = s.calls + 1 }) (env.inner n) ready
        (λ s' r. attempts-plain left (n + 1) s' calm r))

  -- While the breaker is closed and its failures with one more for each attempt do not pass the
  -- threshold, a request with no cancelled wait behaves as the retry loop without a breaker does:
  -- it makes the same number of calls and ends with the same outcome.
  pub chat_complete-plain :
      (cb : Breaker)
      → Uninterrupted
      → Ready cfg.max_attempts cb
      → let (s, o) = chat_complete atoi cfg cb env in
        (s.calls, o) ≡ plain env.inner cfg.max_attempts 0 none 0
  unfolding chat_complete
  chat_complete-plain cb calm ready =
      attempts-plain cfg.max_attempts 0 (record { breaker = cb; last_error = none; calls = 0 }) calm
        ready
