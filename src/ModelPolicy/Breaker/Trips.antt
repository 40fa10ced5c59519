-- ===== src/ModelPolicy/Breaker/Trips.antt =====
-- When the circuit breaker opens, and for how long (modelpolicy/resilience.go).
use nexixai_agentos.Prelude.{ℕ, ◌+◌, ◌≤◌, ◌≡◌, List, [], ◌∷◌, ◌++◌, map, length, leb, arith}
use nexixai_agentos.ModelPolicy.Breaker.{
  Breaker, closed, opened, allow, record_failure, failed, step, run,
}

-- Failures recorded at the given times, with no success between them.
abbrev pub after_failures : Breaker → List ℕ → Breaker
after_failures cb ts = run cb (map failed ts)

run-opened :
    (cb : Breaker) (ts : List ℕ) (t : ℕ)
    → cb.state ≡ opened
    → cb.cfg.failure_threshold ≤ cb.failures
    → let after = after_failures cb (ts ++ t ∷ []) in
      (after.state ≡ opened) × (after.last_failure ≡ t) × (after.cfg ≡ cb.cfg)
unfolding run step record_failure
run-opened cb [] t h full = ground arith
run-opened cb (u ∷ ts) t h full = ground (arith, run-opened (record_failure cb u) ts t)

run-closed :
    (cb : Breaker) (ts : List ℕ) (t : ℕ)
    → cb.state ≡ closed
    → cb.cfg.failure_threshold ≤ cb.failures + length ts + 1
    → let after = after_failures cb (ts ++ t ∷ []) in
      (after.state ≡ opened) × (after.last_failure ≡ t) × (after.cfg ≡ cb.cfg)
unfolding run step record_failure
run-closed cb [] t h full = ground arith
run-closed cb (u ∷ ts) t h full =
    ground (arith, run-closed (record_failure cb u) ts t, run-opened (record_failure cb u) ts t)

-- Once as many failures in a row as the threshold have been recorded, a request is let through
-- exactly when the recovery timeout has passed since the last of them.
pub allow-tripped :
    (cb : Breaker) (ts : List ℕ) (t now : ℕ)
    → cb.state ≡ closed
    → cb.cfg.failure_threshold ≤ cb.failures + length ts + 1
    → (allow (after_failures cb (ts ++ t ∷ [])) now).1 ≡ leb (t + cb.cfg.recovery_timeout) now
unfolding allow
allow-tripped cb ts t now h full = ground (arith, run-closed cb ts t h full)
