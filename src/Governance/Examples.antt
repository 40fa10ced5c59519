-- ===== src/Governance/Examples.antt =====
-- Tests of the governance engine, and its theorems at concrete inputs.
use nexixai_agentos.Prelude.{string_key}
use nexixai_agentos.Prelude.{
  ℕ, String, ◌≡◌, refl, ◌↔◌, inl, inr, true, false, Option, none, some, List, [], ◌∷◌, arith,
}
use nexixai_agentos.Prelude.Dict.{Dict, get, put}
use nexixai_agentos.Governance.Types.{
  RateLimit, GovernanceConfig, category_observe, category_action, allow, deny, killswitch,
}
use nexixai_agentos.Governance.KillSwitch
use nexixai_agentos.Governance.CircuitBreaker
use nexixai_agentos.Governance.RateLimiter.{
  new_rate_limiter, rate_bucket_key, hour_limit, day_count,
}
use nexixai_agentos.Governance.RateLimiter
use nexixai_agentos.Governance.RateLimiter.Limits.{Within, hour_count, check-none_iff}
use nexixai_agentos.Governance.RateLimiter.Window.{Call, run}
use nexixai_agentos.Governance.RateLimiter.Sliding.{InLimits}
use nexixai_agentos.Governance.RateLimiter.History.{run-InLimits}
use nexixai_agentos.Governance.LoopDetector
use nexixai_agentos.Governance.Engine.{Engine, Value, text, check, new_engine_from_config}
use nexixai_agentos.Governance.Engine
use nexixai_agentos.Governance.Engine.Decide.{IsPermitted, check-allow_iff}
use nexixai_agentos.Governance.Engine.Freeze.{
  Op, checks, results, freezes, unfreezes, run-killed_denied,
}
use nexixai_agentos.Governance.Engine.Freeze
use nexixai_agentos.Governance.Engine.Breaker.{row_of_failures, run-new_is_frozen}

abbrev no_durations : String → Option ℕ
no_durations s = none

abbrev limits_of_two : RateLimit
limits_of_two = record { per_hour = 2; per_day = 3; observe_per_hour = 0; action_per_hour = 0 }

abbrev config : GovernanceConfig
config = record {
  version = "1";
  agents = ("sre", record { role = "ops"; description = ""; clearance = "t1"; auth = "key" }) ∷ [];
  behavior = record {
    rate_limits = ("sre", limits_of_two) ∷ [];
    loop_detection = record { max_attempts_per_target = 2; window = "1h"; on_trigger = "deny" };
    circuit_breaker = record { consecutive_failures = 2 };
  };
  segments =
      (
        "sre",
        record {
          allowed_actions = "restart" ∷ [];
          denied_actions = "drop" ∷ [];
          protected_targets = [];
          protected_gate = "";
          scope = "";
        },
      )
      ∷ [];
}

abbrev engine : Engine
engine = new_engine_from_config config

abbrev on_node : Dict String Value
on_node = ("target", text "node1") ∷ []

first_call_allowed : (check no_durations engine "sre" "restart" on_node [] 100).1.verdict ≡ allow
unfolding check Engine.check_behavior Engine.check_segmentation new_engine_from_config
    KillSwitch.is_frozen KillSwitch.new_kill_switch CircuitBreaker.is_frozen
    CircuitBreaker.new_circuit_breaker RateLimiter.check RateLimiter.new_rate_limiter
    RateLimiter.hour_limit RateLimiter.day_count LoopDetector.check LoopDetector.new_loop_detector
    get put
first_call_allowed = refl

check-allow_iff_example :
    ((check no_durations engine "sre" "restart" on_node [] 100).1.verdict ≡ allow)
    ↔ IsPermitted no_durations engine "sre" "restart" on_node category_action 100
check-allow_iff_example = check-allow_iff no_durations engine "sre" "restart" on_node [] 100

abbrev killed : Engine
killed = record engine {
  kill_switch = KillSwitch.freeze KillSwitch.new_kill_switch "sre" "loop" "admin" 5;
}

abbrev story : List Op
story =
    checks "sre" "restart" on_node [] 100
    ∷ results "sre" true
    ∷ unfreezes "other"
    ∷ freezes "sre" "again" "admin" 7
    ∷ []

run-killed_denied_example :
    let (after, decision) =
      check no_durations (Freeze.run no_durations killed story) "sre" "restart" on_node [] 200 in
    (decision.verdict ≡ deny)
    × (decision.domain ≡ some killswitch)
    × (after ≡ Freeze.run no_durations killed story)
unfolding KillSwitch.freeze KillSwitch.new_kill_switch get put
run-killed_denied_example =
    run-killed_denied no_durations "sre" killed story "restart" on_node [] 200 refl
      (λ e. cc, (λ e. cc, (λ e. cc, (λ e. cc, tt))))

abbrev failing : List Op
failing = results "sre" false ∷ results "other" true ∷ results "sre" false ∷ []

run-new_is_frozen_example :
    CircuitBreaker.is_frozen
      (Freeze.run no_durations (new_engine_from_config config) failing).circuit_breaker
      "sre"
    ≡ row_of_failures "sre" 2 0 failing
run-new_is_frozen_example = run-new_is_frozen no_durations "sre" config failing (omega arith)

abbrev broken : Engine
broken = record engine {
  circuit_breaker = CircuitBreaker.freeze CircuitBreaker.new_circuit_breaker "sre";
}

abbrev calls : List Call
calls =
    record { agent = "sre"; category = category_action; at = 10 }
    ∷ record { agent = "sre"; category = category_observe; at = 20 }
    ∷ record { agent = "sre"; category = category_action; at = 30 }
    ∷ record { agent = "sre"; category = category_action; at = 40 }
    ∷ []

abbrev sre_buckets : List String
sre_buckets = "sre:action" ∷ "sre:observe" ∷ []

run-InLimits_example :
    InLimits (λ a. limits_of_two) 50 (run (λ a. limits_of_two) new_rate_limiter [] calls).1
unfolding rate_bucket_key
run-InLimits_example =
    run-InLimits (λ a. limits_of_two) sre_buckets calls 50 (omega arith)
      ((
        omega arith,
        inr refl,
        refl,
        (
          omega arith,
          inl refl,
          refl,
          (omega arith, inr refl, refl, (omega arith, inr refl, refl, tt)),
        ),
      ))
      (omega arith)

check-none_iff_example :
    ((RateLimiter.check new_rate_limiter "sre" category_action limits_of_two 10).1 ≡ none) ↔ (
      Within
        (hour_limit category_action limits_of_two)
        (hour_count new_rate_limiter "sre" category_action 10)
      × Within limits_of_two.per_day (day_count new_rate_limiter.buckets "sre" 10))
check-none_iff_example = check-none_iff new_rate_limiter "sre" category_action limits_of_two 10
