-- ===== src/Governance/Engine.antt =====
-- internal/governance/engine.go, Engine: kill switch, identity, segmentation, behavior, in order.
-- `time.ParseDuration` is a parameter, and the clock an argument. The debug log of a protected
-- target is not modelled: it changes no decision.
pub mod Decide
pub mod Freeze
pub mod Breaker
use nexixai_agentos.Prelude.{string_key}
use nexixai_agentos.Prelude.{
  ℕ, String, Bool, true, false, Option, none, some, List, [], ◌∷◌, ◌==◌, ◌&&◌, ◌||◌, not,
  if◌then◌else◌, ltb, leb, get_or, is_some,
}
use nexixai_agentos.Prelude.Dict.{Dict, get}
use nexixai_agentos.Governance.Types.{
  Decision, Reason, denied, allowed, killswitch, identity, segmentation, behavior, agent_frozen,
  unknown_agent, no_segmentation, explicitly_denied, not_in_allowed, frozen_by_breaker,
  ToolCategory, category_action, RateLimit, SegmentationEntry, GovernanceConfig, hour,
}
use nexixai_agentos.Governance.KillSwitch
use nexixai_agentos.Governance.KillSwitch.{KillSwitch}
use nexixai_agentos.Governance.RateLimiter
use nexixai_agentos.Governance.RateLimiter.{RateLimiter}
use nexixai_agentos.Governance.LoopDetector
use nexixai_agentos.Governance.LoopDetector.{LoopDetector}
use nexixai_agentos.Governance.CircuitBreaker
use nexixai_agentos.Governance.CircuitBreaker.{CircuitBreaker}

pub record Engine : Type 0 where
  pub cfg : GovernanceConfig
  pub kill_switch : KillSwitch
  pub rate_limiter : RateLimiter
  pub loop_detector : LoopDetector
  pub circuit_breaker : CircuitBreaker

unfoldable pub new_engine_from_config : GovernanceConfig → Engine
new_engine_from_config cfg = record {
  cfg = cfg;
  kill_switch = KillSwitch.new_kill_switch;
  rate_limiter = RateLimiter.new_rate_limiter;
  loop_detector = LoopDetector.new_loop_detector;
  circuit_breaker = CircuitBreaker.new_circuit_breaker;
}

-- A decoded JSON value: the engine tells texts from the rest.
pub data Value : Type 0 where
  text : String → Value
  other : Value

abbrev as_text : Option Value → String
as_text (some (text s)) = s
as_text _ = ""

-- `args["target"].(string)`, or "" if there is none.
abbrev pub target_of : Dict String Value → String
target_of args = as_text (get args "target")

abbrev pub contains : List String → String → Bool
contains [] s = false
contains (x ∷ xs) s = x == s || contains xs s

abbrev segment_decision : String → String → Option SegmentationEntry → Option Decision
segment_decision agent tool none = some (denied segmentation (no_segmentation agent))
segment_decision agent tool (some seg) =
    if contains seg.denied_actions tool
    then some (denied segmentation (explicitly_denied tool agent))
    else if contains seg.allowed_actions tool
    then none
    else some (denied segmentation (not_in_allowed tool agent))

unfoldable pub check_segmentation : Engine → String → String → Option Decision
check_segmentation e agent tool = segment_decision agent tool (get e.cfg.segments agent)

-- Where the clock does not run backwards, no attempt counts within a window that is not positive,
-- and such a window is 0 here.
abbrev pub parse_window : (String → Option ℕ) → String → ℕ
parse_window parse_duration s = get_or (parse_duration s) hour

-- The rate limits are checked only for an agent that has some.
abbrev rate_check :
    RateLimiter → String → ToolCategory → Option RateLimit → ℕ → RateLimiter × Option Reason
rate_check r agent category none now = (r, none)
rate_check r agent category (some limits) now = RateLimiter.check r agent category limits now

-- The first option's category, unless there is none or it is "".
abbrev pub category_of : List ToolCategory → ToolCategory
category_of [] = category_action
category_of (c ∷ cs) = if c == "" then category_action else c

module _ (parse_duration : String → Option ℕ) where
  -- The loop check is made only for a call with a target, and if a limit is set.
  abbrev loop_check : Engine → String → String → String → ℕ → LoopDetector × Option Reason
  loop_check e agent tool target now =
      let config = e.cfg.behavior.loop_detection in
      let window = parse_window parse_duration config.window in
      if not (target == "") && ltb 0 config.max_attempts_per_target
      then LoopDetector.check e.loop_detector agent tool target config.max_attempts_per_target
          window now
      else (e.loop_detector, none)

  -- The action is recorded once every check has passed.
  abbrev record_call : Engine → String → String → ToolCategory → String → ℕ → Engine
  record_call e agent tool category target now = record e {
    rate_limiter = RateLimiter.record_action e.rate_limiter agent category now;
    loop_detector =
        if target == ""
        then e.loop_detector
        else LoopDetector.record_attempt e.loop_detector agent tool target now;
  }

  abbrev after_loop :
      Engine
      → String
      → String
      → ToolCategory
      → String
      → ℕ
      → LoopDetector × Option Reason
      → Engine × Option Decision
  after_loop e agent tool category target now (d, some reason) =
      (record e { loop_detector = d }, some (denied behavior reason))
  after_loop e agent tool category target now (d, none) =
      (record_call (record e { loop_detector = d }) agent tool category target now, none)

  abbrev after_rate :
      Engine
      → String
      → String
      → ToolCategory
      → String
      → ℕ
      → RateLimiter × Option Reason
      → Engine × Option Decision
  after_rate e agent tool category target now (r, some reason) =
      (record e { rate_limiter = r }, some (denied behavior reason))
  after_rate e agent tool category target now (r, none) =
      let e' = record e { rate_limiter = r } in
      after_loop e' agent tool category target now (loop_check e' agent tool target now)

  unfoldable pub check_behavior :
      Engine → String → String → ToolCategory → Dict String Value → ℕ → Engine × Option Decision
  check_behavior e agent tool category args now =
      if CircuitBreaker.is_frozen e.circuit_breaker agent
      then (e, some (denied behavior (frozen_by_breaker agent)))
      else after_rate e agent tool category (target_of args) now
          (rate_check e.rate_limiter agent category (get e.cfg.behavior.rate_limits agent) now)

  abbrev verdict_of : Engine × Option Decision → Engine × Decision
  verdict_of (e, none) = (e, allowed)
  verdict_of (e, some d) = (e, d)

  abbrev after_segmentation :
      Engine
      → String
      → String
      → Dict String Value
      → List ToolCategory
      → ℕ
      → Option Decision
      → Engine × Decision
  after_segmentation e agent tool args opts now (some d) = (e, d)
  after_segmentation e agent tool args opts now none =
      verdict_of (check_behavior e agent tool (category_of opts) args now)

  -- The new state, and the decision; the source's second result is always nil.
  unfoldable pub check :
      Engine → String → String → Dict String Value → List ToolCategory → ℕ → Engine × Decision
  check e agent tool args opts now =
      let (frozen, reason) = KillSwitch.is_frozen e.kill_switch agent in
      if frozen
      then (e, denied killswitch (agent_frozen reason))
      else if is_some (get e.cfg.agents agent)
      then after_segmentation e agent tool args opts now (check_segmentation e agent tool)
      else (e, denied identity (unknown_agent agent))

unfoldable pub record_result : Engine → String → Bool → Engine
record_result e agent true = record e {
  circuit_breaker = CircuitBreaker.record_success e.circuit_breaker agent;
}
record_result e agent false =
    let (cb, count) = CircuitBreaker.record_failure e.circuit_breaker agent in
    let threshold = e.cfg.behavior.circuit_breaker.consecutive_failures in
    record e {
      circuit_breaker =
          if ltb 0 threshold && leb threshold count then CircuitBreaker.freeze cb agent else cb;
    }
