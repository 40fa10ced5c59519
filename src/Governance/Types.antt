-- ===== src/Governance/Types.antt =====
-- internal/governance/types.go: decisions and the configuration of governance.yml. An `int` of the
-- configuration that is negative acts as 0 in every test, and is 0 here.
use nexixai_agentos.Prelude.{ℕ, String, Option, none, some, List, ◌*◌}
use nexixai_agentos.Prelude.Dict.{Dict}

pub data Verdict : Type 0 where
  allow deny : Verdict

pub data Domain : Type 0 where
  killswitch identity segmentation behavior : Domain

-- The formats of the denial messages, with their arguments.
pub data Reason : Type 0 where
  agent_frozen : String → Reason
  unknown_agent no_segmentation frozen_by_breaker : String → Reason
  explicitly_denied not_in_allowed : String → String → Reason
  hourly_limit : String → String → ℕ → ℕ → Reason
  daily_limit : String → ℕ → ℕ → Reason
  loop_detected : String → String → String → ℕ → ℕ → ℕ → Reason

pub record Decision : Type 0 where
  pub verdict : Verdict
  pub reason : Option Reason
  pub domain : Option Domain

abbrev pub denied : Domain → Reason → Decision
denied d r = record { verdict = deny; reason = some r; domain = some d }

abbrev pub allowed : Decision
allowed = record { verdict = allow; reason = none; domain = none }

-- `ToolCategory` is a string type with two constants.
abbrev pub ToolCategory : Type 0
ToolCategory = String

abbrev pub category_observe : ToolCategory
category_observe = "observe"

abbrev pub category_action : ToolCategory
category_action = "action"

pub record RateLimit : Type 0 where
  pub per_hour : ℕ
  pub per_day : ℕ
  pub observe_per_hour : ℕ
  pub action_per_hour : ℕ

pub record AgentPolicy : Type 0 where
  pub role : String
  pub description : String
  pub clearance : String
  pub auth : String

pub record LoopDetectionConfig : Type 0 where
  pub max_attempts_per_target : ℕ
  pub window : String
  pub on_trigger : String

pub record BreakerConfig : Type 0 where
  pub consecutive_failures : ℕ

pub record SegmentationEntry : Type 0 where
  pub allowed_actions : List String
  pub denied_actions : List String
  pub protected_targets : List String
  pub protected_gate : String
  pub scope : String

pub record BehaviorConfig : Type 0 where
  pub rate_limits : Dict String RateLimit
  pub loop_detection : LoopDetectionConfig
  pub circuit_breaker : BreakerConfig

pub record GovernanceConfig : Type 0 where
  pub version : String
  pub agents : Dict String AgentPolicy
  pub behavior : BehaviorConfig
  pub segments : Dict String SegmentationEntry

abbrev pub hour : ℕ
hour = 3600 * 1_000_000_000

abbrev pub day : ℕ
day = 24 * hour
