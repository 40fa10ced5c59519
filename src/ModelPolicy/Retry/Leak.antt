-- ===== src/ModelPolicy/Retry/Leak.antt =====
-- Errors that are not retryable, met by half-open probes (modelpolicy/resilience.go): the loop
-- returns without recording an outcome, so the probe's place is never given back.
use nexixai_agentos.Prelude.{
  ℕ, zero, suc, ◌-◌, ◌∙◌, subst, ◌+◌, ◌≤◌, ◌<◌, String, ◌≡◌, refl, false, Option, none, some, List,
  [], ◌∷◌, length, All, arith,
}
use nexixai_agentos.ModelPolicy.Breaker.{Breaker, half_open, opened, allow}
use nexixai_agentos.ModelPolicy.Retry.{
  RetryConfig, Error, circuit_open, err, Env, Loop, failed, is_retryable, turn, attempts,
  chat_complete, wait_before, go_on,
}
use nexixai_agentos.ModelPolicy.Retry.Result.{Uninterrupted}

abbrev IsStuck : Breaker → Type 0
IsStuck cb = (cb.state ≡ half_open) × (cb.cfg.half_open_max ≤ cb.half_open_active)

module _ {ℓ} {A : Type ℓ} (atoi : String → Option ℕ) (cfg : RetryConfig) where
  -- Requests one after the other.
  pub served : Breaker → List (Env A) → Breaker
  served cb [] = cb
  served cb (env ∷ envs) = served (chat_complete atoi cfg cb env).0.breaker envs

  -- The provider's first answer is an error that is not retryable (a status below 500, not 429).
  pub record IsRejected (env : Env A) : Type ℓ where
    pub error : Error
    pub answer : env.inner 0 ≡ err error
    pub final : is_retryable error ≡ false

  rejected-half_open :
      (cb : Breaker) (env : Env A)
      → 0 < cfg.max_attempts
      → IsRejected env
      → cb.state ≡ half_open
      → cb.half_open_active < cb.cfg.half_open_max
      → (chat_complete atoi cfg cb env).0.breaker
        ≡ record cb { half_open_active = cb.half_open_active + 1 }
  unfolding chat_complete attempts turn allow
  rejected-half_open cb env pos r state room =
      let some_left : cfg.max_attempts ≡ suc (cfg.max_attempts - 1) = omega arith in
      rw some_left (ground (arith, r.answer, r.final))

  rejected-opened :
      (cb : Breaker) (env : Env A)
      → 0 < cfg.max_attempts
      → IsRejected env
      → cb.state ≡ opened
      → cb.last_failure + cb.cfg.recovery_timeout ≤ env.before 0
      → (chat_complete atoi cfg cb env).0.breaker
        ≡ record cb { state = half_open; half_open_active = 1 }
  unfolding chat_complete attempts turn allow
  rejected-opened cb env pos r state due =
      let some_left : cfg.max_attempts ≡ suc (cfg.max_attempts - 1) = omega arith in
      rw some_left (ground (arith, r.answer, r.final))

  turn-stuck :
      (cb : Breaker) (env : Env A) (n calls : ℕ) (last : Option Error)
      → IsStuck cb
      → Uninterrupted atoi cfg env
      → turn atoi cfg env n (record { breaker = cb; last_error = last; calls = calls })
        ≡ go_on (record { breaker = cb; last_error = some circuit_open; calls = calls })
  unfolding turn allow
  turn-stuck cb env zero calls last (state, full) calm = ground arith
  turn-stuck cb env (suc n) calls last (state, full) calm =
      rw (calm (suc n) (wait_before atoi cfg n (env.draw (suc n)) last)) (ground arith)

  attempts-stuck :
      (cb : Breaker) (env : Env A) (left n : ℕ)
      → IsStuck cb
      → Uninterrupted atoi cfg env
      → attempts atoi cfg env left n
          (record { breaker = cb; last_error = some circuit_open; calls = 0 })
        ≡ (record { breaker = cb; last_error = some circuit_open; calls = 0 }, failed circuit_open)
  unfolding attempts
  attempts-stuck cb env zero n stuck calm = refl
  attempts-stuck cb env (suc left) n stuck calm =
      rw (turn-stuck cb env n 0 (some circuit_open) stuck calm)
        (attempts-stuck cb env left (n + 1) stuck calm)

  attempts-locked :
      (cb : Breaker) (env : Env A) (left : ℕ)
      → IsStuck cb
      → Uninterrupted atoi cfg env
      → attempts atoi cfg env (suc left) 0 (record { breaker = cb; last_error = none; calls = 0 })
        ≡ (record { breaker = cb; last_error = some circuit_open; calls = 0 }, failed circuit_open)
  unfolding attempts
  attempts-locked cb env left stuck calm =
      rw (turn-stuck cb env 0 0 none stuck calm) (attempts-stuck cb env left 1 stuck calm)

  -- While the breaker is half-open with no probe left, every request with an attempt and no
  -- cancelled wait fails with the open-circuit error, makes no call and leaves the breaker as it
  -- is, whatever the time.
  pub chat_complete-stuck :
      (cb : Breaker) (env : Env A)
      → 0 < cfg.max_attempts
      → cb.state ≡ half_open
      → cb.cfg.half_open_max ≤ cb.half_open_active
      → Uninterrupted atoi cfg env
      → chat_complete atoi cfg cb env
        ≡ (record { breaker = cb; last_error = some circuit_open; calls = 0 }, failed circuit_open)
  unfolding chat_complete
  chat_complete-stuck cb env pos state full calm =
      let some_left : suc (cfg.max_attempts - 1) ≡ cfg.max_attempts = omega arith in
      let start : Loop = record { breaker = cb; last_error = none; calls = 0 } in
      let end : Loop = record { breaker = cb; last_error = some circuit_open; calls = 0 } in
      subst (λ k. attempts atoi cfg env k 0 start ≡ (end, failed circuit_open)) some_left
        (attempts-locked cb env (cfg.max_attempts - 1) (state, full) calm)

  served-half_open :
      (cb : Breaker) (envs : List (Env A))
      → 0 < cfg.max_attempts
      → All IsRejected envs
      → cb.state ≡ half_open
      → cb.half_open_active + length envs ≤ cb.cfg.half_open_max
      → served cb envs ≡ record cb { half_open_active = cb.half_open_active + length envs }
  unfolding served
  served-half_open cb [] pos all state room = ground arith
  served-half_open cb (env ∷ envs) pos all state room =
      let next = record cb { half_open_active = cb.half_open_active + 1 } in
      rw (rejected-half_open cb env pos all.0 state (omega arith))
        (served-half_open next envs pos all.1 state (omega arith) ∙ ground arith)

  -- Once an open breaker is due for probing, as many requests as the half-open maximum, each
  -- answered at once by an error that is not retryable, lock it for good: every later request
  -- with an attempt and no cancelled wait fails with the open-circuit error and no call, at any
  -- time, and leaves the breaker as it is.
  pub served-leaked :
      (cb : Breaker) (first : Env A) (rest : List (Env A)) (later : Env A)
      → 0 < cfg.max_attempts
      → cb.state ≡ opened
      → cb.last_failure + cb.cfg.recovery_timeout ≤ first.before 0
      → 1 + length rest ≡ cb.cfg.half_open_max
      → All IsRejected (first ∷ rest)
      → Uninterrupted atoi cfg later
      → let locked = served cb (first ∷ rest) in
        chat_complete atoi cfg locked later ≡ (
          record { breaker = locked; last_error = some circuit_open; calls = 0 },
          failed circuit_open,
        )
  unfolding served
  served-leaked cb first rest later pos state due count all calm =
      let probing = record cb { state = half_open; half_open_active = 1 } in
      let locked : served cb (first ∷ rest)
          ≡ record probing { half_open_active = 1 + length rest } =
        rw (rejected-opened cb first pos all.0 state due)
          (served-half_open probing rest pos all.1 refl (omega arith)) in
      chat_complete-stuck (served cb (first ∷ rest)) later pos (rw locked refl)
        (rw locked (omega arith)) calm
