-- ===== src/Mcp/Examples.antt =====
-- The theorem on governed tool calls at a concrete input.
use nexixai_agentos.Prelude.{string_key}
use nexixai_agentos.Prelude.{ℕ, ◌+◌, String, ◌⊎◌, Option, none, some, [], ◌∷◌}
use nexixai_agentos.Prelude.Dict.{Dict}
use nexixai_agentos.Governance.Types.{GovernanceConfig}
use nexixai_agentos.Governance.Engine.{Engine, Value, text, check, new_engine_from_config}
use nexixai_agentos.Mcp.GovernanceMiddleware.{McpAuthContext, success, Handler, args_of, governed}
use nexixai_agentos.Mcp.GovernanceMiddleware.Gate.{
  IsGoverned, Ran, Refused, governed-Ran_or_Refused,
}
use nexixai_agentos.Prelude.{true, false, ◌≡◌}
use nexixai_agentos.Mcp.ToolRegistry.{Tool, new_tool_registry, register}
use nexixai_agentos.Mcp.Clearance.{
  InMemoryClearanceStore, new_in_memory_clearance_store, with_agents, get_clearance,
}
use nexixai_agentos.Mcp.Server.{
  ToolCallParams, Server, Codec, HttpRequest, Request, handle_tools_call,
}
use nexixai_agentos.Mcp.Server.Admission.{Admitted, Decided, ran}
use nexixai_agentos.Mcp.Server.Calls.{handle_tools_call-Decided}

abbrev ops_config : GovernanceConfig
ops_config = record {
  version = "1";
  agents = ("sre", record { role = "ops"; description = ""; clearance = "t1"; auth = "key" }) ∷ [];
  behavior = record {
    rate_limits = [];
    loop_detection = record { max_attempts_per_target = 0; window = ""; on_trigger = "" };
    circuit_breaker = record { consecutive_failures = 3 };
  };
  segments =
      (
        "sre",
        record {
          allowed_actions = "restart" ∷ [];
          denied_actions = [];
          protected_targets = [];
          protected_gate = "";
          scope = "";
        },
      )
      ∷ [];
}

abbrev ops_engine : Engine
ops_engine = new_engine_from_config ops_config

abbrev seconds : String → Option ℕ
seconds s = none

abbrev node_only : String → Option (Dict String Value)
node_only params = some (("target", text "node1") ∷ [])

-- A tool that counts its runs.
abbrev counting : Handler ℕ
counting runs params = (runs + 1, success "done")

abbrev sre : McpAuthContext
sre = record { agent_id = "sre"; tenant_id = "acme" }

governed-Ran_or_Refused_example :
    let r = governed seconds node_only counting ops_engine 0 (some sre) "restart" "{}" 100 in
    let checked = (check seconds ops_engine "sre" "restart" (args_of node_only "{}") [] 100).0 in
    (IsGoverned seconds ops_engine sre "restart" (args_of node_only "{}") 100
      × Ran counting checked 0 "sre" "{}" r)
    ⊎ ((¬ IsGoverned seconds ops_engine sre "restart" (args_of node_only "{}") 100) × Refused 0 r)
governed-Ran_or_Refused_example =
    governed-Ran_or_Refused seconds node_only counting ops_engine 0 sre "restart" "{}" 100

abbrev restart_tool : Tool ℕ
restart_tool = record {
  name = "restart";
  description = "";
  input_schema = "{}";
  handler = some counting;
  min_clearance = 1;
  static = true;
  category = "action";
}

abbrev clearances : InMemoryClearanceStore
clearances = new_in_memory_clearance_store (with_agents (("sre", 2) ∷ []) ∷ [])

abbrev tool_server : Server ℕ
tool_server = record {
  registry = (register new_tool_registry restart_tool).0;
  clearance_store = some (get_clearance clearances);
  gov_engine = some ops_engine;
  version = "1";
  initialized = true;
}

abbrev codec : Codec
codec = record {
  parse_request = λ body. none;
  parse_params = λ params. some (record { name = "restart"; arguments = "{}" });
  decode = node_only;
  marshal = λ result. some result;
  parse_duration = seconds;
  dev_mode = false;
}

abbrev http_request : HttpRequest
http_request = record {
  method = "POST";
  body = some "";
  agent_header = "sre";
  tenant_header = "acme";
  validated = true;
}

abbrev call_request : Request
call_request = record { jsonrpc = "2.0"; id = "1"; method = "tools/call"; params = "{}" }

handle_tools_call-Decided_example :
    Decided codec tool_server 0 100 http_request call_request
      (handle_tools_call codec tool_server 0 http_request call_request 100)
    × ((ac : McpAuthContext)
        → (params : ToolCallParams) → (t : Tool ℕ) → (handler : Handler ℕ)
        → Admitted codec tool_server 0 100 http_request call_request ac params t handler
        → handle_tools_call codec tool_server 0 http_request call_request 100
          ≡ ran codec tool_server 0 100 tool_server.gov_engine ac.agent_id params t handler)
handle_tools_call-Decided_example =
    handle_tools_call-Decided codec tool_server 0 100 http_request call_request
