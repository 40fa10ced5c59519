-- ===== src/Governance/Engine/Breaker.antt =====
-- The circuit breaker of an agent over histories of engine operations (engine.go, RecordResult).
use nexixai_agentos.Prelude.{string_key}
use nexixai_agentos.Prelude.{
  ℕ, ◌+◌, ◌<◌, String, ◌≡◌, refl, ◌∙◌, subst, sym, ap₂, Bool, true, false, Option, List, [], ◌∷◌,
  ◌==◌, ◌&&◌, ◌||◌, if◌then◌else◌, leb, arith,
}
use nexixai_agentos.Prelude.Dict.{Dict, get, get-put}
use nexixai_agentos.Governance.Types.{allow, deny, Verdict, ToolCategory, GovernanceConfig}
use nexixai_agentos.Governance.CircuitBreaker.{
  is_frozen, consecutive_failures, freeze, record_success, record_failure, new_circuit_breaker,
}
use nexixai_agentos.Governance.Engine.{Engine, Value, check, record_result, new_engine_from_config}
use nexixai_agentos.Governance.Engine.Decide.{check-allow_iff}
use nexixai_agentos.Governance.Engine.Freeze.{
  Op, checks, results, freezes, unfreezes, step, run, check-SameGuards,
}

-- Whether the results reported of agent `a` hold a row of `threshold` failures with no success
-- between them, when `count` failures have gone before. Other operations do not matter.
abbrev pub row_of_failures : String → ℕ → ℕ → List Op → Bool
row_of_failures a threshold count [] = false
row_of_failures a threshold count (results b true ∷ ops) =
    row_of_failures a threshold (if b == a then 0 else count) ops
row_of_failures a threshold count (results b false ∷ ops) =
    (b == a && leb threshold (count + 1))
    || row_of_failures a threshold (if b == a then count + 1 else count) ops
row_of_failures a threshold count (op ∷ ops) = row_of_failures a threshold count ops

abbrev threshold_of : GovernanceConfig → ℕ
threshold_of cfg = cfg.behavior.circuit_breaker.consecutive_failures

module _ (parse_duration : String → Option ℕ) (a : String) where
  abbrev threshold : Engine → ℕ
  threshold e = threshold_of e.cfg

  record_result-failed :
      (e : Engine) (b : String)
      → 0 < threshold e
      → let cb = (record_result e b false).circuit_breaker in
        (is_frozen cb a ≡ (
          is_frozen e.circuit_breaker a
          || (b == a && leb (threshold e) (consecutive_failures e.circuit_breaker a + 1))))
        × (consecutive_failures cb a ≡ (
            if b == a
            then consecutive_failures e.circuit_breaker a + 1
            else consecutive_failures e.circuit_breaker a))
  unfolding record_result record_failure is_frozen consecutive_failures freeze
  record_result-failed e b pos = ground (
    arith,
    string_key.same_iff b a,
    get-put e.circuit_breaker.failures b a (consecutive_failures e.circuit_breaker b + 1),
    get-put e.circuit_breaker.frozen b a true,
  )

  record_result-succeeded :
      (e : Engine) (b : String)
      → let cb = (record_result e b true).circuit_breaker in
        (is_frozen cb a ≡ is_frozen e.circuit_breaker a)
        × (consecutive_failures cb a
            ≡ (if b == a then 0 else consecutive_failures e.circuit_breaker a))
  unfolding record_result record_success is_frozen consecutive_failures
  record_result-succeeded e b = ground (arith, get-put e.circuit_breaker.failures b a 0)

  record_result-cfg : (e : Engine) (b : String) (ok : Bool) → (record_result e b ok).cfg ≡ e.cfg
  unfolding record_result
  record_result-cfg e b true = refl
  record_result-cfg e b false = refl

  run-is_frozen :
      (e : Engine) (ops : List Op)
      → 0 < threshold e
      → is_frozen (run parse_duration e ops).circuit_breaker a ≡ (
          is_frozen e.circuit_breaker a
          || row_of_failures a (threshold e) (consecutive_failures e.circuit_breaker a) ops)
  unfolding run step
  run-is_frozen e [] pos = ground arith
  run-is_frozen e (checks agent tool args opts now ∷ ops) pos =
      let e' = (check parse_duration e agent tool args opts now).0 in
      let same = check-SameGuards parse_duration e agent tool args opts now in
      run-is_frozen e' ops (subst (λ c. 0 < threshold_of c) (sym same.cfg) pos)
      ∙ ap₂
          (λ c cb.
            is_frozen cb a || row_of_failures a (threshold_of c) (consecutive_failures cb a) ops)
          same.cfg same.circuit_breaker
  run-is_frozen e (freezes agent reason by now ∷ ops) pos = run-is_frozen _ ops pos
  run-is_frozen e (unfreezes agent ∷ ops) pos = run-is_frozen _ ops pos
  run-is_frozen e (results b true ∷ ops) pos =
      rw
        (
          run-is_frozen (record_result e b true) ops (rw record_result-cfg pos),
          record_result-cfg e b true,
        )
        (ground (arith, record_result-succeeded e b))
  run-is_frozen e (results b false ∷ ops) pos =
      let failed = record_result-failed e b pos in
      rw
        (
          run-is_frozen (record_result e b false) ops (rw record_result-cfg pos),
          record_result-cfg e b false,
          failed.0,
          failed.1,
        )
        (ground arith)

  -- From a new engine with a positive threshold, the breaker has frozen the agent exactly when
  -- the results reported of it held that many failures in a row, whatever else was called.
  pub run-new_is_frozen :
      (cfg : GovernanceConfig) (ops : List Op)
      → 0 < cfg.behavior.circuit_breaker.consecutive_failures
      → is_frozen (run parse_duration (new_engine_from_config cfg) ops).circuit_breaker a
        ≡ row_of_failures a cfg.behavior.circuit_breaker.consecutive_failures 0 ops
  unfolding new_engine_from_config new_circuit_breaker is_frozen consecutive_failures get
  run-new_is_frozen cfg ops pos = run-is_frozen (new_engine_from_config cfg) ops pos

  deny_of_ne_allow : (v : Verdict) → ¬ (v ≡ allow) → v ≡ deny
  deny_of_ne_allow allow h = absurd (h refl)
  deny_of_ne_allow deny h = refl

  -- An agent that the breaker has frozen is denied every call after any further operations: no
  -- success, no kill-switch unfreeze and no passing of time lifts it.
  pub run-frozen_denied :
      (e : Engine) (ops : List Op) (tool : String) (args : Dict String Value)
      (opts : List ToolCategory) (now : ℕ)
      → 0 < threshold e
      → is_frozen e.circuit_breaker a ≡ true
      → (check parse_duration (run parse_duration e ops) a tool args opts now).1.verdict ≡ deny
  run-frozen_denied e ops tool args opts now pos h = deny_of_ne_allow _ λ allowed.
      let permitted = (check-allow_iff parse_duration _ a tool args opts now).0 allowed in
      cc (run-is_frozen e ops pos, permitted.not_broken, h)
