-- ===== src/Mcp/Clearance.antt =====
-- mcp/clearance_store.go, mcp/auth.go: which agents may call which tools. A tier is not negative.
pub mod Cleared
use nexixai_agentos.Prelude.{string_key}
use nexixai_agentos.Prelude.{
  ℕ, String, Bool, true, false, Option, none, some, List, [], ◌∷◌, ◌==◌, if◌then◌else◌, ltb,
}
use nexixai_agentos.Prelude.Dict.{Dict, get, put}
use nexixai_agentos.Mcp.GovernanceMiddleware.{
  McpAuthContext, Handler, HandlerResult, success, failure,
}
use nexixai_agentos.Mcp.ToolRegistry.{Tool}

-- GetClearance of a store; none is its error.
abbrev pub ClearanceStore : Type 0
ClearanceStore = String → Option ℕ

pub record InMemoryClearanceStore : Type 0 where
  pub agents : Dict String ℕ
  pub default_tier : ℕ
  pub fail_closed : Bool

pub data InMemoryClearanceOption : Type 0 where
  with_default_tier : ℕ → InMemoryClearanceOption
  with_agents : Dict String ℕ → InMemoryClearanceOption

abbrev seeded : Dict String ℕ → Dict String ℕ → Dict String ℕ
seeded agents [] = agents
seeded agents ((k, v) ∷ more) = seeded (put agents k v) more

abbrev pub apply_option : InMemoryClearanceStore → InMemoryClearanceOption → InMemoryClearanceStore
apply_option s (with_default_tier tier) = record s { default_tier = tier; fail_closed = false }
apply_option s (with_agents agents) = record s { agents = seeded s.agents agents }

abbrev apply_options :
    InMemoryClearanceStore → List InMemoryClearanceOption → InMemoryClearanceStore
apply_options s [] = s
apply_options s (opt ∷ opts) = apply_options (apply_option s opt) opts

unfoldable pub new_in_memory_clearance_store : List InMemoryClearanceOption → InMemoryClearanceStore
new_in_memory_clearance_store opts =
    apply_options (record { agents = []; default_tier = 0; fail_closed = true }) opts

abbrev tier_or : InMemoryClearanceStore → Option ℕ → Option ℕ
tier_or s (some tier) = some tier
tier_or s none = if s.fail_closed then none else some s.default_tier

unfoldable pub get_clearance : InMemoryClearanceStore → String → Option ℕ
get_clearance s agent_id = if agent_id == "" then none else tier_or s (get s.agents agent_id)

-- None refuses an agent without an id.
unfoldable pub set_clearance : InMemoryClearanceStore → String → ℕ → Option InMemoryClearanceStore
set_clearance s agent_id tier =
    if agent_id == "" then none else some (record s { agents = put s.agents agent_id tier })

pub data Insufficient : Type 0 where
  missing_context : Insufficient
  missing_identity : Insufficient
  lookup_failed : Insufficient
  below : ℕ → ℕ → Insufficient

abbrev pub cleared : Option ℕ → ℕ → Option Insufficient
cleared none required = some lookup_failed
cleared (some tier) required = if ltb tier required then some (below tier required) else none

module _ {S : Type 0} where
  unfoldable pub authorize_tool_call :
      Option McpAuthContext → Tool S → ClearanceStore → Option Insufficient
  authorize_tool_call none tool store = some missing_context
  authorize_tool_call (some ac) tool store =
      if ac.agent_id == ""
      then some missing_identity
      else cleared (store ac.agent_id) tool.min_clearance
