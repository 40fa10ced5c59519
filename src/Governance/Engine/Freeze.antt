-- ===== src/Governance/Engine/Freeze.antt =====
-- Frozen agents over histories of engine operations: the kill switch (killswitch.go) and the
-- circuit breaker (engine.go).
use nexixai_agentos.Prelude.{string_key}
use nexixai_agentos.Prelude.{
  ℕ, String, ◌≡◌, refl, ◌≢◌, Bool, true, false, Option, none, some, List, [], ◌∷◌, inl, inr, All,
  is_some, arith, Bool-cases,
}
use nexixai_agentos.Prelude.Dict.{Dict, get, get-put, get-remove}
use nexixai_agentos.Governance.Types.{killswitch, deny, Decision, Reason, ToolCategory}
use nexixai_agentos.Governance.KillSwitch
use nexixai_agentos.Governance.KillSwitch.{KillSwitch}
use nexixai_agentos.Governance.RateLimiter.{RateLimiter}
use nexixai_agentos.Governance.LoopDetector.{LoopDetector}
use nexixai_agentos.Governance.CircuitBreaker
use nexixai_agentos.Governance.CircuitBreaker.{CircuitBreaker}
use nexixai_agentos.Governance.Engine.{
  Engine, Value, check, check_behavior, check_segmentation, record_result, after_rate, after_loop,
  after_segmentation, target_of, verdict_of, rate_check, loop_check, category_of,
}

-- What a client of the engine does, with the time of the call where one is read.
pub data Op : Type 0 where
  checks : String → String → Dict String Value → List ToolCategory → ℕ → Op
  results : String → Bool → Op
  freezes : String → String → String → ℕ → Op
  unfreezes : String → Op

module _ (parse_duration : String → Option ℕ) where
  unfoldable pub step : Engine → Op → Engine
  step e (checks agent tool args opts now) = (check parse_duration e agent tool args opts now).0
  step e (results agent success) = record_result e agent success
  step e (freezes agent reason by now) = record e {
    kill_switch = KillSwitch.freeze e.kill_switch agent reason by now;
  }
  step e (unfreezes agent) = record e { kill_switch = KillSwitch.unfreeze e.kill_switch agent }

  unfoldable pub run : Engine → List Op → Engine
  run e [] = e
  run e (op ∷ ops) = run (step e op) ops

  -- A check leaves the configuration, the kill switch and the breaker as they are.
  pub record SameGuards (e f : Engine) : Type 0 where
    pub cfg : f.cfg ≡ e.cfg
    pub kill_switch : f.kill_switch ≡ e.kill_switch
    pub circuit_breaker : f.circuit_breaker ≡ e.circuit_breaker

  after_loop-SameGuards :
      (e : Engine) (agent tool : String) (category : ToolCategory) (target : String) (now : ℕ)
      (p : LoopDetector × Option Reason)
      → SameGuards e (after_loop parse_duration e agent tool category target now p).0
  after_loop-SameGuards e agent tool category target now (d, none) = record {
    cfg = refl;
    kill_switch = refl;
    circuit_breaker = refl;
  }
  after_loop-SameGuards e agent tool category target now (d, some r) = record {
    cfg = refl;
    kill_switch = refl;
    circuit_breaker = refl;
  }

  after_rate-SameGuards :
      (e : Engine) (agent tool : String) (category : ToolCategory) (target : String) (now : ℕ)
      (p : RateLimiter × Option Reason)
      → SameGuards e (after_rate parse_duration e agent tool category target now p).0
  after_rate-SameGuards e agent tool category target now (r, none) =
      let e' : Engine = record e { rate_limiter = r } in
      let s =
        after_loop-SameGuards e' agent tool category target now
          (loop_check parse_duration e' agent tool target now) in
      record { cfg = s.cfg; kill_switch = s.kill_switch; circuit_breaker = s.circuit_breaker }
  after_rate-SameGuards e agent tool category target now (r, some x) = record {
    cfg = refl;
    kill_switch = refl;
    circuit_breaker = refl;
  }

  check_behavior-SameGuards :
      (e : Engine) (agent tool : String) (category : ToolCategory) (args : Dict String Value)
      (now : ℕ)
      → SameGuards e (check_behavior parse_duration e agent tool category args now).0
  unfolding check_behavior
  check_behavior-SameGuards e agent tool category args now =
      elim (Bool-cases (CircuitBreaker.is_frozen e.circuit_breaker agent)) [
        | inl b ↦ rw b (record { cfg = refl; kill_switch = refl; circuit_breaker = refl })
        | inr b ↦ rw b (
            after_rate-SameGuards e agent tool category (target_of args) now
              (rate_check e.rate_limiter agent category (get e.cfg.behavior.rate_limits agent) now))
      ]

  verdict_of-SameGuards :
      (e : Engine) (p : Engine × Option Decision)
      → SameGuards e p.0
      → SameGuards e (verdict_of parse_duration p).0
  verdict_of-SameGuards e (f, none) s = s
  verdict_of-SameGuards e (f, some d) s = s

  after_segmentation-SameGuards :
      (e : Engine) (agent tool : String) (args : Dict String Value) (opts : List ToolCategory)
      (now : ℕ) (o : Option Decision)
      → SameGuards e (after_segmentation parse_duration e agent tool args opts now o).0
  after_segmentation-SameGuards e agent tool args opts now none =
      verdict_of-SameGuards e _ (check_behavior-SameGuards e agent tool (category_of opts) args now)
  after_segmentation-SameGuards e agent tool args opts now (some d) = record {
    cfg = refl;
    kill_switch = refl;
    circuit_breaker = refl;
  }

  pub check-SameGuards :
      (e : Engine) (agent tool : String) (args : Dict String Value) (opts : List ToolCategory)
      (now : ℕ)
      → SameGuards e (check parse_duration e agent tool args opts now).0
  unfolding check
  check-SameGuards e agent tool args opts now =
      let s =
        after_segmentation-SameGuards e agent tool args opts now
          (check_segmentation e agent tool) in
      ground (arith, s)

  pub step-cfg : (e : Engine) (op : Op) → (step e op).cfg ≡ e.cfg
  unfolding step record_result
  step-cfg e (checks agent tool args opts now) = (check-SameGuards e agent tool args opts now).cfg
  step-cfg e (results agent true) = refl
  step-cfg e (results agent false) = refl
  step-cfg e (freezes agent reason by now) = refl
  step-cfg e (unfreezes agent) = refl

  module _ (a : String) where
    abbrev pub IsKilled : Engine → Type 0
    IsKilled e = is_some (get e.kill_switch.frozen a) ≡ true

    step-IsKilled : (e : Engine) (op : Op) → op ≢ unfreezes a → IsKilled e → IsKilled (step e op)
    unfolding step record_result KillSwitch.freeze KillSwitch.unfreeze
    step-IsKilled e (checks agent tool args opts now) h k =
        rw ((check-SameGuards e agent tool args opts now).kill_switch) k
    step-IsKilled e (results agent true) h k = k
    step-IsKilled e (results agent false) h k = k
    step-IsKilled e (freezes agent reason by now) h k = simp get-put (ground arith)
    step-IsKilled e (unfreezes agent) h k =
        ground (arith, get-remove e.kill_switch.frozen agent a, string_key.same_iff agent a)

    run-IsKilled :
        (e : Engine) (ops : List Op)
        → All (λ op. op ≢ unfreezes a) ops
        → IsKilled e
        → IsKilled (run e ops)
    unfolding run
    run-IsKilled e [] h k = k
    run-IsKilled e (op ∷ ops) h k = run-IsKilled (step e op) ops h.1 (step-IsKilled e op h.0 k)

    -- An agent frozen by the kill switch stays so through any operations but its own unfreeze:
    -- each check of it is denied by the kill switch and changes nothing.
    pub run-killed_denied :
        (e : Engine) (ops : List Op) (tool : String) (args : Dict String Value)
        (opts : List ToolCategory) (now : ℕ)
        → IsKilled e
        → All (λ op. op ≢ unfreezes a) ops
        → let (after, decision) = check parse_duration (run e ops) a tool args opts now in
          (decision.verdict ≡ deny) × (decision.domain ≡ some killswitch) × (after ≡ run e ops)
    unfolding check KillSwitch.is_frozen
    run-killed_denied e ops tool args opts now k h = ground (arith, run-IsKilled e ops h k)
