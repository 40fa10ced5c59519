-- ===== src/Mcp/ToolRegistry.antt =====
-- mcp/registry.go: the tools of the server. A tool's handler runs on a state of its own; none is a
-- handler that is nil. Descriptions and schemas are texts.
use nexixai_agentos.Prelude.{string_key}
use nexixai_agentos.Prelude.{
  ℕ, String, Bool, Option, none, some, List, [], ◌∷◌, ◌==◌, if◌then◌else◌, is_some,
}
use nexixai_agentos.Prelude.Dict.{Dict, get, put, remove}
use nexixai_agentos.Mcp.GovernanceMiddleware.{Handler}

pub record Tool (S : Type 0) : Type 0 where
  pub name : String
  pub description : String
  pub input_schema : String
  pub handler : Option (Handler S)
  pub min_clearance : ℕ
  pub static : Bool
  pub category : String

abbrev pub ToolRegistry : Type 0 → Type 0
ToolRegistry S = Dict String (Tool S)

pub data RegistryError : Type 0 where
  empty_name : RegistryError
  no_handler : String → RegistryError
  already_registered : String → RegistryError
  not_found : String → RegistryError

module _ {S : Type 0} where
  unfoldable pub new_tool_registry : ToolRegistry S
  new_tool_registry = []

  unfoldable pub register : ToolRegistry S → Tool S → ToolRegistry S × Option RegistryError
  register r t =
      if t.name == ""
      then (r, some empty_name)
      else if is_some t.handler
      then (if is_some (get r t.name)
          then (r, some (already_registered t.name))
          else (put r t.name t, none))
      else (r, some (no_handler t.name))

  unfoldable pub unregister : ToolRegistry S → String → ToolRegistry S × Option RegistryError
  unregister r name =
      if is_some (get r name) then (remove r name, none) else (r, some (not_found name))

  unfoldable pub tool : ToolRegistry S → String → Option (Tool S)
  tool r name = get r name

  unfoldable pub list_tools : ToolRegistry S → List (Tool S)
  list_tools [] = []
  list_tools ((name, t) ∷ r) = t ∷ list_tools r
