-- ===== src/Mcp/Server.antt =====
-- mcp/server.go, mcp/types.go: the JSON-RPC server of the tools. JSON is decoded and encoded by
-- arguments, and an HTTP request is what the code reads of it. The request's context holds no
-- identity of its own. A marshalled result is a text.
pub mod Admission
pub mod Calls
use nexixai_agentos.Prelude.{string_key}
use nexixai_agentos.Prelude.{
  ℕ, String, Bool, true, false, not, Option, none, some, List, [], ◌∷◌, ◌==◌, ◌||◌, ◌&&◌,
  if◌then◌else◌, get_or,
}
use nexixai_agentos.Prelude.Dict.{Dict}
use nexixai_agentos.Governance.Types.{
  Verdict, allow, deny, Decision, Reason, ToolCategory, category_observe, category_action,
}
use nexixai_agentos.Governance.Engine.{Engine, Value, check, record_result}
use nexixai_agentos.Mcp.GovernanceMiddleware.{
  McpAuthContext, Handler, HandlerResult, success, failure, succeeded,
}
use nexixai_agentos.Mcp.ToolRegistry.{Tool, ToolRegistry, tool, list_tools}
use nexixai_agentos.Mcp.Clearance.{ClearanceStore, Insufficient, authorize_tool_call}

pub record Request : Type 0 where
  pub jsonrpc : String
  pub id : String
  pub method : String
  pub params : String

pub record ToolCallParams : Type 0 where
  pub name : String
  pub arguments : String

pub record ToolDefinition : Type 0 where
  pub name : String
  pub description : String
  pub input_schema : String

-- What is answered, errors with what their text says.
pub data Answer : Type 0 where
  parse_error : Answer
  invalid_request : Answer
  method_not_found : String → Answer
  not_initialized : Answer
  unvalidated_identity : Answer
  invalid_params : Answer
  tool_not_found : String → Answer
  authorization_unavailable : Answer
  insufficient_clearance : Insufficient → Answer
  governance_denied : Option Reason → Answer
  initialize_result : String → Answer
  tools_list : List ToolDefinition → Answer
  tool_result : String → Answer
  tool_error : String → Answer
  nil_handler : Answer

pub record Server (S : Type 0) : Type 0 where
  pub registry : ToolRegistry S
  pub clearance_store : Option ClearanceStore
  pub gov_engine : Option Engine
  pub version : String
  pub initialized : Bool

-- The HTTP request: its body, none if reading it fails, its headers, and whether its credentials
-- were validated.
pub record HttpRequest : Type 0 where
  pub method : String
  pub body : Option String
  pub agent_header : String
  pub tenant_header : String
  pub validated : Bool

-- What JSON decoding and encoding do, and durations. Nothing is decoded into no arguments.
pub record Codec : Type 0 where
  pub parse_request : String → Option Request
  pub parse_params : String → Option ToolCallParams
  pub decode : String → Option (Dict String Value)
  pub marshal : String → Option String
  pub parse_duration : String → Option ℕ
  pub dev_mode : Bool

abbrev definitions : {S : Type 0} → List (Tool S) → List ToolDefinition
definitions [] = []
definitions (t ∷ ts) =
    record { name = t.name; description = t.description; input_schema = t.input_schema }
    ∷ definitions ts

-- The identity that the headers give, if they are trusted.
abbrev pub identity_of : String → String → Option McpAuthContext
identity_of agent tenant =
    if not (agent == "")
    then some (record { agent_id = agent; tenant_id = tenant })
    else if not (tenant == "")
    then some (record { agent_id = tenant; tenant_id = tenant })
    else none

abbrev pub category : {S : Type 0} → Tool S → ToolCategory
category t = if t.category == "observe" then category_observe else category_action

abbrev pub agent_of : Option McpAuthContext → String
agent_of none = ""
agent_of (some ac) = ac.agent_id

abbrev pub recorded : Option Engine → String → Bool → Option Engine
recorded none agent ok = none
recorded (some e) agent ok = some (record_result e agent ok)

abbrev pub answer_of : Codec → HandlerResult → Answer
answer_of codec (failure error) = tool_error error
answer_of codec (success result) = elim (codec.marshal result) [
  | none ↦ tool_error "internal error: failed to marshal result"
  | some text ↦ tool_result text
]

module _ {S : Type 0} (codec : Codec) where
  -- The tool's handler runs, and its result is recorded. Calling a handler that is nil panics.
  abbrev pub run_tool : Server S → S → String → String → Option (Handler S) → Server S × S × Answer
  run_tool srv s agent arguments none = (srv, s, nil_handler)
  run_tool srv s agent arguments (some handler) =
      let (s', result) = handler s arguments in
      (
        record srv { gov_engine = recorded srv.gov_engine agent (succeeded result) },
        s',
        answer_of codec result,
      )

  abbrev pub on_decision :
      Server S → S → Tool S → String → String → Engine × Decision → Verdict → Server S × S × Answer
  on_decision srv s t agent arguments (e, d) deny =
      (record srv { gov_engine = some e }, s, governance_denied d.reason)
  on_decision srv s t agent arguments (e, d) allow =
      run_tool (record srv { gov_engine = some e }) s agent arguments t.handler

  abbrev pub governed_call :
      Server S → S → Tool S → String → ToolCallParams → ℕ → Option Engine → Server S × S × Answer
  governed_call srv s t agent params now none = run_tool srv s agent params.arguments t.handler
  governed_call srv s t agent params now (some e) =
      let checked =
        check codec.parse_duration e agent params.name (get_or (codec.decode params.arguments) [])
          (category t ∷ []) now in
      on_decision srv s t agent params.arguments checked checked.1.verdict

  abbrev pub on_authorized :
      Server S
      → S
      → Tool S
      → Option McpAuthContext
      → ToolCallParams
      → ℕ
      → Option Insufficient
      → Server S × S × Answer
  on_authorized srv s t ac params now (some reason) = (srv, s, insufficient_clearance reason)
  on_authorized srv s t ac params now none =
      governed_call srv s t (agent_of ac) params now srv.gov_engine

  abbrev pub on_store :
      Server S
      → S
      → Tool S
      → Option McpAuthContext
      → ToolCallParams
      → ℕ
      → Option ClearanceStore
      → Server S × S × Answer
  on_store srv s t ac params now none = (srv, s, authorization_unavailable)
  on_store srv s t ac params now (some store) =
      on_authorized srv s t ac params now (authorize_tool_call ac t store)

  abbrev pub on_tool :
      Server S
      → S
      → Option McpAuthContext
      → ToolCallParams
      → ℕ
      → Option (Tool S)
      → Server S × S × Answer
  on_tool srv s ac params now none = (srv, s, tool_not_found params.name)
  on_tool srv s ac params now (some t) = on_store srv s t ac params now srv.clearance_store

  abbrev pub on_params :
      Server S → S → Option McpAuthContext → ℕ → Option ToolCallParams → Server S × S × Answer
  on_params srv s ac now none = (srv, s, invalid_params)
  on_params srv s ac now (some params) = on_tool srv s ac params now (tool srv.registry params.name)

  unfoldable pub handle_tools_call :
      Server S → S → HttpRequest → Request → ℕ → Server S × S × Answer
  handle_tools_call srv s r req now =
      let trusted = r.validated || codec.dev_mode in
      let named = not (r.agent_header == "") || not (r.tenant_header == "") in
      if not srv.initialized
      then (srv, s, not_initialized)
      else if not trusted && named
      then (srv, s, unvalidated_identity)
      else on_params srv s (if trusted then identity_of r.agent_header r.tenant_header else none)
          now (codec.parse_params req.params)

  unfoldable pub handle_initialize : Server S → Server S × Answer
  handle_initialize srv = (record srv { initialized = true }, initialize_result srv.version)

  unfoldable pub handle_tools_list : Server S → Answer
  handle_tools_list srv =
      if srv.initialized
      then tools_list (definitions (list_tools srv.registry))
      else not_initialized

  abbrev pub dispatch : Server S → S → HttpRequest → ℕ → Request → Server S × S × Answer
  dispatch srv s r now req =
      if not (req.jsonrpc == "2.0")
      then (srv, s, invalid_request)
      else if req.method == "initialize"
      then (let (srv', answer) = handle_initialize srv in (srv', s, answer))
      else if req.method == "tools/list"
      then (srv, s, handle_tools_list srv)
      else if req.method == "tools/call"
      then handle_tools_call srv s r req now
      else (srv, s, method_not_found req.method)

  abbrev pub on_request : Server S → S → HttpRequest → ℕ → Option Request → Server S × S × Answer
  on_request srv s r now none = (srv, s, parse_error)
  on_request srv s r now (some req) = dispatch srv s r now req

  abbrev pub on_body : Server S → S → HttpRequest → ℕ → Option String → Server S × S × Answer
  on_body srv s r now none = (srv, s, parse_error)
  on_body srv s r now (some body) = on_request srv s r now (codec.parse_request body)

  unfoldable pub handle_rpc : Server S → S → HttpRequest → ℕ → Server S × S × Answer
  handle_rpc srv s r now =
      if r.method == "POST" then on_body srv s r now r.body else (srv, s, invalid_request)
