-- ===== src/Mcp/GovernanceMiddleware.antt =====
-- mcp/governance_middleware.go. A tool's handler is an argument that runs on a state of its own, as
-- are the decoding of the parameters and of durations. The engine's Check returns no error.
pub mod Gate
use nexixai_agentos.Prelude.{string_key}
use nexixai_agentos.Prelude.{
  ℕ, String, Bool, true, false, Option, none, some, List, [], ◌==◌, if◌then◌else◌, get_or,
}
use nexixai_agentos.Prelude.Dict.{Dict}
use nexixai_agentos.Governance.Types.{Verdict, allow, deny, Decision, Reason}
use nexixai_agentos.Governance.Engine.{Engine, Value, check, record_result}

pub record McpAuthContext : Type 0 where
  pub agent_id : String
  pub tenant_id : String

-- A handler's result, or its error.
pub data HandlerResult : Type 0 where
  success : String → HandlerResult
  failure : String → HandlerResult

pub data Outcome : Type 0 where
  missing_auth_context : Outcome
  empty_agent_id : Outcome
  missing_tool_name : Outcome
  governance_denied : Option Reason → Outcome
  handled : HandlerResult → Outcome

abbrev pub succeeded : HandlerResult → Bool
succeeded (success r) = true
succeeded (failure e) = false

abbrev pub Handler : Type 0 → Type 0
Handler S = S → String → S × HandlerResult

-- Parameters that are no object count as none.
abbrev pub args_of : (String → Option (Dict String Value)) → String → Dict String Value
args_of decode params = if params == "" then [] else get_or (decode params) []

abbrev pub handle :
    {S : Type 0}
    → Verdict
    → Handler S
    → Engine × Decision
    → S
    → String
    → String
    → Engine × S × Outcome
handle deny handler (e, d) s agent params = (e, s, governance_denied d.reason)
handle allow handler (e, d) s agent params =
    let (s', result) = handler s params in
    (record_result e agent (succeeded result), s', handled result)

module _ (parse_duration : String → Option ℕ) (decode : String → Option (Dict String Value)) where
  unfoldable pub governed :
      {S : Type 0}
      → Handler S
      → Engine
      → S
      → Option McpAuthContext
      → String
      → String
      → ℕ
      → Engine × S × Outcome
  governed handler e s none tool params now = (e, s, missing_auth_context)
  governed handler e s (some ac) tool params now =
      let checked = check parse_duration e ac.agent_id tool (args_of decode params) [] now in
      if ac.agent_id == ""
      then (e, s, empty_agent_id)
      else if tool == ""
      then (e, s, missing_tool_name)
      else handle checked.1.verdict handler checked s ac.agent_id params
