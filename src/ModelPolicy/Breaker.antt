-- ===== src/ModelPolicy/Breaker.antt =====
-- modelpolicy/resilience.go, circuitBreaker. The clock is an argument, in nanoseconds; each method
-- holds the mutex for its whole body, so it is one step.
pub mod Invariant
pub mod Trips
pub mod Probes
use nexixai_agentos.Prelude.{
  ℕ, ◌+◌, Bool, true, false, List, [], ◌∷◌, if◌then◌else◌, ltb, leb, Option, none, some,
}

pub data CircuitState : Type 0 where
  closed opened half_open : CircuitState

pub record BreakerConfig : Type 0 where
  pub failure_threshold : ℕ
  pub recovery_timeout : ℕ
  pub half_open_max : ℕ

pub record Breaker : Type 0 where
  pub state : CircuitState
  pub failures : ℕ
  pub last_failure : ℕ
  pub half_open_active : ℕ
  pub cfg : BreakerConfig

unfoldable pub new_circuit_breaker : BreakerConfig → Breaker
new_circuit_breaker cfg = record {
  state = closed;
  failures = 0;
  last_failure = 0;
  half_open_active = 0;
  cfg = cfg;
}

abbrev allow_in : CircuitState → Breaker → ℕ → Breaker × Bool
allow_in closed cb now = (cb, true)
allow_in opened cb now =
    if leb (cb.last_failure + cb.cfg.recovery_timeout) now
    then (record cb { state = half_open; half_open_active = 1 }, true)
    else (cb, false)
allow_in half_open cb now =
    if ltb cb.half_open_active cb.cfg.half_open_max
    then (record cb { half_open_active = cb.half_open_active + 1 }, true)
    else (cb, false)

unfoldable pub allow : Breaker → ℕ → Breaker × Bool
allow cb now = allow_in cb.state cb now

unfoldable pub record_success : Breaker → Breaker
record_success cb = record cb { failures = 0; half_open_active = 0; state = closed }

abbrev fail_in : CircuitState → Breaker → Breaker
fail_in half_open cb = record cb { state = opened; half_open_active = 0 }
fail_in _ cb = if leb cb.cfg.failure_threshold cb.failures then record cb { state = opened } else cb

unfoldable pub record_failure : Breaker → ℕ → Breaker
record_failure cb now =
    let counted = record cb { failures = cb.failures + 1; last_failure = now } in
    fail_in counted.state counted

-- CircuitBreakerStatus, with the names of the states.
pub record StatusInfo : Type 0 where
  pub state : CircuitState
  pub failures : ℕ
  pub last_failure : ℕ
  pub recovery_timeout : ℕ

unfoldable pub circuit_breaker_status : Breaker → StatusInfo
circuit_breaker_status cb = record {
  state = cb.state;
  failures = cb.failures;
  last_failure = cb.last_failure;
  recovery_timeout = cb.cfg.recovery_timeout;
}

-- The calls that concurrent requests make of one breaker, in the order of its mutex.
pub data Op : Type 0 where
  allows failed : ℕ → Op
  succeeded : Op

unfoldable pub step : Breaker → Op → Breaker
step cb (allows now) = (allow cb now).0
step cb (failed now) = record_failure cb now
step cb succeeded = record_success cb

unfoldable pub run : Breaker → List Op → Breaker
run cb [] = cb
run cb (op ∷ ops) = run (step cb op) ops
