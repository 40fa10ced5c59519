-- ===== src/Mcp/Server/Calls.antt =====
-- Every call that is admitted runs, and no other (mcp/server.go, mcp/auth.go).
use nexixai_agentos.Prelude.{string_key}
use nexixai_agentos.Prelude.{
  ℕ, String, ◌≡◌, refl, ◌∙◌, ap, not, Option, none, some, [], ◌∷◌, ◌==◌, ◌||◌, ◌&&◌, if_true,
  if_false, if_holds, get_or, inl, arith,
}
use nexixai_agentos.Governance.Engine.{Engine, check}
use nexixai_agentos.Governance.Engine.Decide.{check-allow_iff}
use nexixai_agentos.Mcp.GovernanceMiddleware.{McpAuthContext, Handler, succeeded}
use nexixai_agentos.Mcp.ToolRegistry.{Tool}
use nexixai_agentos.Mcp.Server.{
  Request, ToolCallParams, Server, HttpRequest, Codec, identity_of, category, recorded, answer_of,
  run_tool, on_decision, governed_call, on_authorized, on_store, on_tool, on_params,
  handle_tools_call,
}
use nexixai_agentos.Mcp.Clearance.Cleared.{authorize_cleared}
use nexixai_agentos.Mcp.Server.Admission.{Permits, Admitted, ran, Decided, on_params-Decided}

module _ {S : Type 0} (codec : Codec) (srv : Server S) (s : S) (now : ℕ) where
  governed_call-ran :
      (agent : String) (params : ToolCallParams) (t : Tool S) (handler : Handler S)
      (o : Option Engine)
      → srv.gov_engine ≡ o
      → Permits codec srv s now o agent params t
      → t.handler ≡ some handler
      → governed_call codec srv s t agent params now o
        ≡ ran codec srv s now o agent params t handler
  governed_call-ran agent params t handler none h permitted handled =
      let ok = succeeded (handler s params.arguments).1 in
      ap (run_tool codec srv s agent params.arguments) handled
      ∙ ap
          (λ (x : Option Engine). (
            record srv { gov_engine = recorded x agent ok },
            (handler s params.arguments).0,
            answer_of codec (handler s params.arguments).1,
          ))
          h
  governed_call-ran agent params t handler (some e) h permitted handled =
      let args = get_or (codec.decode params.arguments) [] in
      let allowed =
        check-allow_iff codec.parse_duration e agent params.name args (category t ∷ []) now in
      let c = check codec.parse_duration e agent params.name args (category t ∷ []) now in
      ap (on_decision codec srv s t agent params.arguments c) (allowed.1 permitted)
      ∙ ap (run_tool codec (record srv { gov_engine = some c.0 }) s agent params.arguments) handled

  -- An admitted call gets to the handler.
  handle_tools_call-ran :
      (r : HttpRequest) (req : Request) (ac : McpAuthContext) (params : ToolCallParams) (t : Tool S)
      (handler : Handler S)
      → Admitted codec srv s now r req ac params t handler
      → handle_tools_call codec srv s r req now
        ≡ ran codec srv s now srv.gov_engine ac.agent_id params t handler
  unfolding handle_tools_call
  handle_tools_call-ran r req ac params t handler a =
      let trusted = r.validated || codec.dev_mode in
      let named = not (r.agent_header == "") || not (r.tenant_header == "") in
      let identity = identity_of r.agent_header r.tenant_header in
      let (store, stored, ok) = a.clearance in
      if_false (not srv.initialized) _ _ (ap not a.ready)
      ∙ if_false (not trusted && named) _ _ (ap (λ b. not b && named) a.trusted)
      ∙ ap (λ i. on_params codec srv s i now (codec.parse_params req.params))
          (if_true trusted identity none a.trusted ∙ a.identity)
      ∙ ap (on_params codec srv s (some ac) now) a.parsed
      ∙ ap (on_tool codec srv s (some ac) params now) a.known
      ∙ ap (on_store codec srv s t (some ac) params now) stored
      ∙ ap (on_authorized codec srv s t (some ac) params now) (authorize_cleared ac t store ok)
      ∙ governed_call-ran ac.agent_id params t handler srv.gov_engine refl a.permitted a.handled

  -- A tools/call request. Either it is refused, with an error of the protocol, and no tool's state
  -- changes. Or it was admitted: the server is initialized, the request's credentials are
  -- validated (or the mode is for development), its headers name an agent, or else a tenant that
  -- stands in for it, its parameters parse and name a registered tool, the clearance store knows
  -- a tier of the agent that is at least the tool's, and the governance engine, if there is one,
  -- permits the call in the tool's category. Then the tool's handler ran once, its outcome is
  -- recorded in the engine, and the answer is its result. And each admitted call does run.
  pub handle_tools_call-Decided :
      (r : HttpRequest) (req : Request)
      → Decided codec srv s now r req (handle_tools_call codec srv s r req now)
        × ((ac : McpAuthContext)
            → (params : ToolCallParams) → (t : Tool S) → (handler : Handler S)
            → Admitted codec srv s now r req ac params t handler
            → handle_tools_call codec srv s r req now
              ≡ ran codec srv s now srv.gov_engine ac.agent_id params t handler)
  unfolding handle_tools_call
  handle_tools_call-Decided r req =
      let trusted = r.validated || codec.dev_mode in
      let named = not (r.agent_header == "") || not (r.tenant_header == "") in
      (
        if_holds (Decided codec srv s now r req) (not srv.initialized) _ _ (λ e. inl (refl, refl))
            (λ e.
              if_holds (Decided codec srv s now r req) (not trusted && named) _ _
                (λ f. inl (refl, refl))
                (λ f.
                  on_params-Decided codec srv s now r req (ground (arith, e)) trusted refl
                    (codec.parse_params req.params) refl)),
        handle_tools_call-ran r req,
      )
