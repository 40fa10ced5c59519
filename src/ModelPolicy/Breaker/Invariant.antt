-- ===== src/ModelPolicy/Breaker/Invariant.antt =====
-- What holds of the circuit breaker after any calls (modelpolicy/resilience.go).
use Prim.Native.Nat.{max}
use nexixai_agentos.Prelude.{◌≤◌, ◌<◌, ◌≡◌, ◌⊎◌, List, [], ◌∷◌, arith}
use nexixai_agentos.ModelPolicy.Breaker.{
  Breaker, BreakerConfig, closed, half_open, new_circuit_breaker, allow, record_success,
  record_failure, Op, allows, failed, succeeded, step, run,
}

pub record Inv (cb : Breaker) : Type 0 where
  -- a closed breaker has seen fewer failures in a row than the threshold, or none
  pub closed_below :
      cb.state ≡ closed → (cb.failures ≡ 0) ⊎ (cb.failures < cb.cfg.failure_threshold)
  -- probes are counted in the half-open state only, and up to the maximum (one at least)
  pub probes_capped : cb.half_open_active ≤ max 1 cb.cfg.half_open_max
  pub probing : 0 < cb.half_open_active → cb.state ≡ half_open
  pub half_openedprobes : cb.state ≡ half_open → 0 < cb.half_open_active

step-Inv : (cb : Breaker) (op : Op) → Inv cb → Inv (step cb op)
unfolding step allow record_success record_failure
step-Inv cb (allows now) inv = ground arith
step-Inv cb (failed now) inv = ground arith
step-Inv cb succeeded inv = ground arith

run-Inv : (cb : Breaker) (ops : List Op) → Inv cb → Inv (run cb ops)
unfolding run
run-Inv cb [] inv = inv
run-Inv cb (op ∷ ops) inv = run-Inv (step cb op) ops (step-Inv cb op inv)

-- After any calls by concurrent requests a new breaker satisfies the invariant.
pub run-new-Inv : (cfg : BreakerConfig) (ops : List Op) → Inv (run (new_circuit_breaker cfg) ops)
unfolding new_circuit_breaker
run-new-Inv cfg ops = run-Inv (new_circuit_breaker cfg) ops (ground arith)
