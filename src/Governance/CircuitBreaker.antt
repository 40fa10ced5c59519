-- ===== src/Governance/CircuitBreaker.antt =====
-- internal/governance/engine.go, InMemoryCircuitBreaker: consecutive failures and frozen agents.
use nexixai_agentos.Prelude.{string_key}
use nexixai_agentos.Prelude.{ℕ, ◌+◌, String, Bool, true, false, []}
use nexixai_agentos.Prelude.{get_or}
use nexixai_agentos.Prelude.Dict.{Dict, get, put}

pub record CircuitBreaker : Type 0 where
  pub failures : Dict String ℕ
  pub frozen : Dict String Bool

unfoldable pub new_circuit_breaker : CircuitBreaker
new_circuit_breaker = record { failures = []; frozen = [] }

unfoldable pub record_success : CircuitBreaker → String → CircuitBreaker
record_success cb agent = record cb { failures = put cb.failures agent 0 }

unfoldable pub consecutive_failures : CircuitBreaker → String → ℕ
consecutive_failures cb agent = get_or (get cb.failures agent) 0

-- The new state, and the new count.
unfoldable pub record_failure : CircuitBreaker → String → CircuitBreaker × ℕ
unfolding consecutive_failures
record_failure cb agent =
    let count : ℕ = get_or (get cb.failures agent) 0 + 1 in
    (record cb { failures = put cb.failures agent count }, count)

unfoldable pub is_frozen : CircuitBreaker → String → Bool
is_frozen cb agent = get_or (get cb.frozen agent) false

unfoldable pub freeze : CircuitBreaker → String → CircuitBreaker
freeze cb agent = record cb { frozen = put cb.frozen agent true }
