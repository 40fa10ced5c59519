-- ===== src/Mcp/Server/Admission.antt =====
-- When a tool's handler runs (mcp/server.go, mcp/auth.go).
use nexixai_agentos.Prelude.{string_key}
use nexixai_agentos.Prelude.{
  ℕ, String, ◌≡◌, ◌⊎◌, refl, sym, ◌∙◌, ap, subst, Bool, true, false, Option, none, some, [], ◌∷◌,
  ◌||◌, if◌then◌else◌, get_or, inl, inr,
}
use nexixai_agentos.Governance.Types.{Verdict, allow, deny, Decision}
use nexixai_agentos.Governance.Engine.{Engine, category_of, check}
use nexixai_agentos.Governance.Engine.Decide.{IsPermitted, check-allow_iff}
use nexixai_agentos.Mcp.GovernanceMiddleware.{McpAuthContext, Handler, succeeded}
use nexixai_agentos.Mcp.ToolRegistry.{Tool, tool}
use nexixai_agentos.Mcp.Clearance.{ClearanceStore, Insufficient, authorize_tool_call}
use nexixai_agentos.Mcp.Server.{
  Request, ToolCallParams, Answer, tool_result, tool_error, Server, HttpRequest, Codec, identity_of,
  category, agent_of, recorded, answer_of, run_tool, on_decision, governed_call, on_authorized,
  on_store, on_tool, on_params,
}
use nexixai_agentos.Mcp.Clearance.Cleared.{IsCleared, authorize_tool_call-IsCleared}

-- Answers that come without a run of a tool's handler.
abbrev pub is_refusal : Answer → Bool
is_refusal (tool_result text) = false
is_refusal (tool_error text) = false
is_refusal answer = true

module _ {S : Type 0} (codec : Codec) (srv : Server S) (s : S) (now : ℕ) where
  -- The engine, if there is one, permits the call.
  abbrev pub Permits : Option Engine → String → ToolCallParams → Tool S → Type 0
  Permits none agent params t = Unit
  Permits (some e) agent params t =
      IsPermitted codec.parse_duration e agent params.name
        (get_or (codec.decode params.arguments) []) (category_of (category t ∷ [])) now

  -- All that a call must pass.
  pub record Admitted (r : HttpRequest) (req : Request) (ac : McpAuthContext)
      (params : ToolCallParams) (t : Tool S) (handler : Handler S) : Type 0 where
    pub ready : srv.initialized ≡ true
    pub trusted : (r.validated || codec.dev_mode) ≡ true
    pub identity : identity_of r.agent_header r.tenant_header ≡ some ac
    pub parsed : codec.parse_params req.params ≡ some params
    pub known : tool srv.registry params.name ≡ some t
    pub clearance :
        (store : ClearanceStore) × (srv.clearance_store ≡ some store) × IsCleared store ac t
    pub permitted : Permits srv.gov_engine ac.agent_id params t
    pub handled : t.handler ≡ some handler

  abbrev pub checked_engine : Option Engine → String → ToolCallParams → Tool S → Option Engine
  checked_engine none agent params t = none
  checked_engine (some e) agent params t =
      some
        (check codec.parse_duration e agent params.name (get_or (codec.decode params.arguments) [])
          (category t ∷ []) now).0

  -- The handler ran once on the arguments; its success or failure was recorded in the engine that
  -- the check left, and its result is the answer.
  abbrev pub ran :
      Option Engine → String → ToolCallParams → Tool S → Handler S → Server S × S × Answer
  ran o agent params t handler = (
    record srv {
      gov_engine =
          recorded (checked_engine o agent params t) agent
            (succeeded (handler s params.arguments).1);
    },
    (handler s params.arguments).0,
    answer_of codec (handler s params.arguments).1,
  )

  -- A call whose handler ran was admitted, and any other is refused and changes no tool's state.
  abbrev pub Decided : HttpRequest → Request → Server S × S × Answer → Type 0
  Decided r req result =
      ((is_refusal result.2 ≡ true) × (result.1 ≡ s))
      ⊎ ((ac : McpAuthContext) × (params : ToolCallParams) × (t : Tool S) × (handler : Handler S)
          × Admitted r req ac params t handler
          × (result ≡ ran srv.gov_engine ac.agent_id params t handler))

  module _ (r : HttpRequest) (req : Request) (ready : srv.initialized ≡ true) where
    run_tool-Decided :
        (ac : McpAuthContext) (params : ToolCallParams) (t : Tool S) (e : Option Engine)
        (o : Option (Handler S))
        → ((handler : Handler S) → t.handler ≡ some handler → Admitted r req ac params t handler)
        → e ≡ checked_engine srv.gov_engine ac.agent_id params t
        → t.handler ≡ o
        → Decided r req
            (run_tool codec (record srv { gov_engine = e }) s ac.agent_id params.arguments o)
    run_tool-Decided ac params t e none admitted checked h = inl (refl, refl)
    run_tool-Decided ac params t e (some handler) admitted checked h =
        inr (ac, params, t, handler, admitted handler h, rw checked refl)

    on_decision-Decided :
        (ac : McpAuthContext) (params : ToolCallParams) (t : Tool S) (c : Engine × Decision)
        (v : Verdict)
        → (v ≡ allow
            → (handler : Handler S) → t.handler ≡ some handler
            → Admitted r req ac params t handler)
        → some c.0 ≡ checked_engine srv.gov_engine ac.agent_id params t
        → Decided r req (on_decision codec srv s t ac.agent_id params.arguments c v)
    on_decision-Decided ac params t (e, d) deny admitted checked = inl (refl, refl)
    on_decision-Decided ac params t (e, d) allow admitted checked =
        run_tool-Decided ac params t (some e) t.handler (admitted refl) checked refl

    governed_call-Decided :
        (ac : McpAuthContext) (params : ToolCallParams) (t : Tool S) (o : Option Engine)
        → (Permits o ac.agent_id params t
            → (handler : Handler S) → t.handler ≡ some handler
            → Admitted r req ac params t handler)
        → srv.gov_engine ≡ o
        → Decided r req (governed_call codec srv s t ac.agent_id params now o)
    governed_call-Decided ac params t none admitted h =
        run_tool-Decided ac params t srv.gov_engine t.handler (admitted tt)
          (h ∙ ap (λ x. checked_engine x ac.agent_id params t) (sym h)) refl
    governed_call-Decided ac params t (some e) admitted h =
        let args = get_or (codec.decode params.arguments) [] in
        let permitted =
          check-allow_iff codec.parse_duration e ac.agent_id params.name args (category t ∷ [])
            now in
        let c = check codec.parse_duration e ac.agent_id params.name args (category t ∷ []) now in
        on_decision-Decided ac params t c c.1.verdict (λ v. admitted (permitted.0 v))
          (ap (λ x. checked_engine x ac.agent_id params t) (sym h))

    on_authorized-Decided :
        (identity : Option McpAuthContext) (params : ToolCallParams) (t : Tool S)
        (store : ClearanceStore)
        → ((ac : McpAuthContext)
            → identity ≡ some ac
            → IsCleared store ac t
            → Permits srv.gov_engine ac.agent_id params t
            → (handler : Handler S) → t.handler ≡ some handler
            → Admitted r req ac params t handler)
        → (o : Option Insufficient) → authorize_tool_call identity t store ≡ o
        → Decided r req (on_authorized codec srv s t identity params now o)
    on_authorized-Decided identity params t store admitted (some reason) h = inl (refl, refl)
    on_authorized-Decided identity params t store admitted none h =
        let who = authorize_tool_call-IsCleared identity t store h in
        subst
          (λ (i : Option McpAuthContext).
            Decided r req (governed_call codec srv s t (agent_of i) params now srv.gov_engine))
          (sym who.1)
          (governed_call-Decided who.0 params t srv.gov_engine (admitted who.0 who.1 who.2) refl)

    on_store-Decided :
        (identity : Option McpAuthContext) (params : ToolCallParams) (t : Tool S)
        → ((store : ClearanceStore)
            → srv.clearance_store ≡ some store
            → (ac : McpAuthContext) → identity ≡ some ac
            → IsCleared store ac t
            → Permits srv.gov_engine ac.agent_id params t
            → (handler : Handler S) → t.handler ≡ some handler
            → Admitted r req ac params t handler)
        → (o : Option ClearanceStore) → srv.clearance_store ≡ o
        → Decided r req (on_store codec srv s t identity params now o)
    on_store-Decided identity params t admitted none h = inl (refl, refl)
    on_store-Decided identity params t admitted (some store) h =
        on_authorized-Decided identity params t store (admitted store h)
          (authorize_tool_call identity t store) refl

    pub on_params-Decided :
        (trusted : Bool)
        → (r.validated || codec.dev_mode) ≡ trusted
        → (o : Option ToolCallParams) → codec.parse_params req.params ≡ o
        → Decided r req (
            on_params codec srv s
              (if trusted then identity_of r.agent_header r.tenant_header else none)
              now
              o)
    on_params-Decided trusted e none parsed = inl (refl, refl)
    on_params-Decided trusted e (some params) parsed =
        on_tool-Decided (tool srv.registry params.name) refl
      where
        trusted_identity :
            (b : Bool) (i : Option McpAuthContext) (ac : McpAuthContext)
            → (if b then i else none) ≡ some ac
            → (b ≡ true) × (i ≡ some ac)
        trusted_identity true i ac h = (refl, h)
        trusted_identity false i ac h = cc

        on_tool-Decided :
            (o : Option (Tool S))
            → tool srv.registry params.name ≡ o
            → Decided r req (
                on_tool codec srv s
                  (if trusted then identity_of r.agent_header r.tenant_header else none)
                  params
                  now
                  o)
        on_tool-Decided none known = inl (refl, refl)
        on_tool-Decided (some t) known =
            on_store-Decided (if trusted then identity_of r.agent_header r.tenant_header else none)
              params t
              (λ store stored ac identity ok permitted handler handled.
                let who =
                  trusted_identity trusted (identity_of r.agent_header r.tenant_header) ac
                    identity in
                record {
                  ready = ready;
                  trusted = e ∙ who.0;
                  identity = who.1;
                  parsed = parsed;
                  known = known;
                  clearance = (store, stored, ok);
                  permitted = permitted;
                  handled = handled;
                })
              srv.clearance_store refl
