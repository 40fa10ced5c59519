-- ===== src/Governance/Engine/Decide.antt =====
-- Which calls Engine.Check allows (internal/governance/engine.go).
use nexixai_agentos.Prelude.{string_key}
use nexixai_agentos.Prelude.{
  ℕ, String, ◌≡◌, refl, ◌↔◌, ◌⊎◌, inl, inr, Bool-cases, true, false, Option, none, some, List, ◌==◌,
  is_some, length, arith,
}
use nexixai_agentos.Prelude.Dict.{Dict, get}
use nexixai_agentos.Governance.Types.{
  allow, deny, Decision, Reason, RateLimit, ToolCategory, SegmentationEntry,
}
use nexixai_agentos.Governance.KillSwitch
use nexixai_agentos.Governance.RateLimiter.{RateLimiter, hour_limit, day_count}
use nexixai_agentos.Governance.RateLimiter.Limits.{Within, hour_count, check-none_iff}
use nexixai_agentos.Governance.LoopDetector
use nexixai_agentos.Governance.LoopDetector.{LoopDetector, alive, times, loop_key}
use nexixai_agentos.Governance.CircuitBreaker
use nexixai_agentos.Governance.Engine.{
  Engine, Value, target_of, contains, check_segmentation, parse_window, category_of, check,
  check_behavior, rate_check, loop_check, after_loop, after_rate, verdict_of, after_segmentation,
}

-- The policy's conditions on a call.
abbrev pub InSegment : String → Option SegmentationEntry → Type 0
InSegment tool none = ⊥
InSegment tool (some seg) =
    (contains seg.denied_actions tool ≡ false) × (contains seg.allowed_actions tool ≡ true)

abbrev pub WithinRates : RateLimiter → String → ToolCategory → ℕ → Option RateLimit → Type 0
WithinRates r agent category now none = Unit
WithinRates r agent category now (some limits) =
    Within (hour_limit category limits) (hour_count r agent category now)
    × Within limits.per_day (day_count r.buckets agent now)

module _ (parse_duration : String → Option ℕ) where
  abbrev pub NoLoop : Engine → String → String → String → ℕ → Type 0
  NoLoop e agent tool target now =
      let config = e.cfg.behavior.loop_detection in
      ((target == "") ≡ true)
      ⊎ Within config.max_attempts_per_target (
          length (
            alive now (parse_window parse_duration config.window)
              (times e.loop_detector.attempts (loop_key agent tool target))))

  pub record IsPermitted (e : Engine) (agent tool : String) (args : Dict String Value)
      (category : ToolCategory) (now : ℕ) : Type 0 where
    pub not_killed : get e.kill_switch.frozen agent ≡ none
    pub known : is_some (get e.cfg.agents agent) ≡ true
    pub in_segment : InSegment tool (get e.cfg.segments agent)
    pub not_broken : CircuitBreaker.is_frozen e.circuit_breaker agent ≡ false
    pub within_rates :
        WithinRates e.rate_limiter agent category now (get e.cfg.behavior.rate_limits agent)
    pub no_loop : NoLoop e agent tool (target_of args) now

rate_check-none_iff :
    (r : RateLimiter) (agent : String) (category : ToolCategory) (o : Option RateLimit) (now : ℕ)
    → ((rate_check r agent category o now).1 ≡ none) ↔ WithinRates r agent category now o
rate_check-none_iff r agent category none now = ground arith
rate_check-none_iff r agent category (some limits) now = check-none_iff r agent category limits now

loop_check-none_iff :
    (parse_duration : String → Option ℕ) (e : Engine) (agent tool target : String) (now : ℕ)
    → ((loop_check parse_duration e agent tool target now).1 ≡ none)
      ↔ NoLoop parse_duration e agent tool target now
unfolding LoopDetector.check
loop_check-none_iff parse_duration e agent tool target now = ground arith

check_segmentation-none_iff :
    (e : Engine) (agent tool : String)
    → (check_segmentation e agent tool ≡ none) ↔ InSegment tool (get e.cfg.segments agent)
unfolding check_segmentation
check_segmentation-none_iff e agent tool = ground arith

segmentation_denies :
    (e : Engine) (agent tool : String) (d : Decision)
    → check_segmentation e agent tool ≡ some d
    → d.verdict ≡ deny
unfolding check_segmentation
segmentation_denies e agent tool d h = ground arith

module _ (parse_duration : String → Option ℕ) (agent tool : String) (category : ToolCategory)
    (now : ℕ) where
  after_loop-none_iff :
      (e : Engine) (target : String) (p : LoopDetector × Option Reason)
      → ((after_loop parse_duration e agent tool category target now p).1 ≡ none) ↔ (p.1 ≡ none)
  after_loop-none_iff e target (d, none) = ground arith
  after_loop-none_iff e target (d, some reason) = ground arith

  after_rate-none_iff :
      (e : Engine) (target : String) (p : RateLimiter × Option Reason)
      → ((after_rate parse_duration e agent tool category target now p).1 ≡ none)
        ↔ ((p.1 ≡ none) × NoLoop parse_duration e agent tool target now)
  after_rate-none_iff e target (r, none) =
      let e' : Engine = record e { rate_limiter = r } in
      let loop =
        after_loop-none_iff e' target (loop_check parse_duration e' agent tool target now) in
      let free = loop_check-none_iff parse_duration e' agent tool target now in
      (λ h. (refl, free.0 (loop.0 h)), λ h. loop.1 (free.1 h.1))
  after_rate-none_iff e target (r, some reason) = (λ h. cc, λ h. cc h.0)

  check_behavior-none_iff :
      (e : Engine) (args : Dict String Value)
      → ((check_behavior parse_duration e agent tool category args now).1 ≡ none) ↔ (
          (CircuitBreaker.is_frozen e.circuit_breaker agent ≡ false)
          × WithinRates e.rate_limiter agent category now (get e.cfg.behavior.rate_limits agent)
          × NoLoop parse_duration e agent tool (target_of args) now)
  unfolding check_behavior
  check_behavior-none_iff e args =
      let o = get e.cfg.behavior.rate_limits agent in
      let rate = rate_check e.rate_limiter agent category o now in
      let both = after_rate-none_iff e (target_of args) rate in
      let within = rate_check-none_iff e.rate_limiter agent category o now in
      elim (Bool-cases (CircuitBreaker.is_frozen e.circuit_breaker agent)) [
        | inl b ↦ rw b (λ h. cc, λ h. cc h.0)
        | inr b ↦
            rw b
              (λ h. let (p, q) = both.0 h in (refl, within.0 p, q), λ h. both.1 (within.1 h.1, h.2))
      ]

  after_loop_denies :
      (e : Engine) (target : String) (p : LoopDetector × Option Reason) (d : Decision)
      → (after_loop parse_duration e agent tool category target now p).1 ≡ some d
      → d.verdict ≡ deny
  after_loop_denies e target (l, none) d h = cc
  after_loop_denies e target (l, some reason) d h = ground arith

  after_rate_denies :
      (e : Engine) (target : String) (p : RateLimiter × Option Reason) (d : Decision)
      → (after_rate parse_duration e agent tool category target now p).1 ≡ some d
      → d.verdict ≡ deny
  after_rate_denies e target (r, none) d h =
      let e' : Engine = record e { rate_limiter = r } in
      after_loop_denies e' target (loop_check parse_duration e' agent tool target now) d h
  after_rate_denies e target (r, some reason) d h = ground arith

  behavior_denies :
      (e : Engine) (args : Dict String Value) (d : Decision)
      → (check_behavior parse_duration e agent tool category args now).1 ≡ some d
      → d.verdict ≡ deny
  unfolding check_behavior
  behavior_denies e args d h = ground (
    arith,
    after_rate_denies e (target_of args)
        (rate_check e.rate_limiter agent category (get e.cfg.behavior.rate_limits agent) now) d,
  )

  verdict_of-allow_iff :
      (p : Engine × Option Decision)
      → ((d : Decision) → p.1 ≡ some d → d.verdict ≡ deny)
      → ((verdict_of parse_duration p).1.verdict ≡ allow) ↔ (p.1 ≡ none)
  verdict_of-allow_iff (e, none) h = ground arith
  verdict_of-allow_iff (e, some d) h = ground (arith, h d)

after_segmentation-allow_iff :
    (parse_duration : String → Option ℕ) (agent tool : String) (e : Engine)
    (args : Dict String Value) (opts : List ToolCategory) (now : ℕ) (o : Option Decision)
    → ((d : Decision) → o ≡ some d → d.verdict ≡ deny)
    → let behavior = check_behavior parse_duration e agent tool (category_of opts) args now in
      ((after_segmentation parse_duration e agent tool args opts now o).1.verdict ≡ allow)
      ↔ ((o ≡ none) × ((verdict_of parse_duration behavior).1.verdict ≡ allow))
after_segmentation-allow_iff parse_duration agent tool e args opts now none h = ground arith
after_segmentation-allow_iff parse_duration agent tool e args opts now (some d) h =
    ground (arith, h d)

-- A call is allowed exactly when: the agent is not frozen by the kill switch, it is a configured
-- agent, its segmentation entry lists the tool as allowed and not as denied, the agent is not
-- frozen by the circuit breaker, the hourly and daily limits leave room, and the attempts on the
-- target within the window are below the loop limit (a call with no target, or a limit of 0,
-- passes). The category is that of the first option, or "action".
pub check-allow_iff :
    (parse_duration : String → Option ℕ) (e : Engine) (agent tool : String)
    (args : Dict String Value) (opts : List ToolCategory) (now : ℕ)
    → ((check parse_duration e agent tool args opts now).1.verdict ≡ allow)
      ↔ IsPermitted parse_duration e agent tool args (category_of opts) now
unfolding check KillSwitch.is_frozen
check-allow_iff parse_duration e agent tool args opts now =
    let category = category_of opts in
    let segment = check_segmentation e agent tool in
    let behavior = check_behavior-none_iff parse_duration agent tool category now e args in
    let verdict =
      verdict_of-allow_iff parse_duration agent tool category now
        (check_behavior parse_duration e agent tool category args now)
        (behavior_denies parse_duration agent tool category now e args) in
    let passed =
      after_segmentation-allow_iff parse_duration agent tool e args opts now segment
        (segmentation_denies e agent tool) in
    ground (arith, behavior, verdict, passed, check_segmentation-none_iff e agent tool)
