-- ===== src/Mcp/GovernanceMiddleware/Gate.antt =====
-- When the tool's handler runs (mcp/governance_middleware.go).
use nexixai_agentos.Prelude.{string_key}
use nexixai_agentos.Prelude.{
  ℕ, String, ◌≡◌, ◌≢◌, ◌⊎◌, refl, sym, ◌∙◌, Option, some, [], ◌==◌, inl, inr, Bool-cases, arith,
}
use nexixai_agentos.Prelude.Dict.{Dict}
use nexixai_agentos.Governance.Types.{Verdict, allow, deny, category_action}
use nexixai_agentos.Governance.Engine.{Engine, Value, check, record_result}
use nexixai_agentos.Governance.Engine.Decide.{IsPermitted, check-allow_iff}
use nexixai_agentos.Mcp.GovernanceMiddleware.{
  McpAuthContext, HandlerResult, Outcome, handled, succeeded, Handler, args_of, governed,
}

-- The call is known by its agent and its tool, and the engine permits it as an action.
abbrev pub IsGoverned :
    (String → Option ℕ) → Engine → McpAuthContext → String → Dict String Value → ℕ → Type 0
IsGoverned parse_duration e ac tool args now =
    (ac.agent_id ≢ "")
    × (tool ≢ "")
    × IsPermitted parse_duration e ac.agent_id tool args category_action now

-- What a call does whose handler runs.
abbrev pub Ran :
    {S : Type 0} → Handler S → Engine → S → String → String → Engine × S × Outcome → Type 0
Ran handler e s agent params r = r ≡ (
  record_result e agent (succeeded (handler s params).1),
  (handler s params).0,
  handled (handler s params).1,
)

-- What a call does whose handler does not run.
abbrev pub Refused : {S : Type 0} → S → Engine × S × Outcome → Type 0
Refused s r = (r.1 ≡ s) × ((result : HandlerResult) → r.2 ≢ handled result)

Verdict-cases : (v : Verdict) → (v ≡ allow) ⊎ (v ≡ deny)
Verdict-cases allow = inl refl
Verdict-cases deny = inr refl

allow_ne_deny : allow ≢ deny
allow_ne_deny e = cc

-- A tool call of an authenticated agent. Either the agent and the tool have names and the engine
-- permits the call; then the handler runs once on the parameters, and its success or failure is
-- recorded for the agent in the engine that the check left. Or this is not so; then no handler
-- runs and the tools' state is as before.
pub governed-Ran_or_Refused :
    {S : Type 0} (parse_duration : String → Option ℕ) (decode : String → Option (Dict String Value))
    (handler : Handler S) (e : Engine) (s : S) (ac : McpAuthContext) (tool params : String)
    (now : ℕ)
    → let args = args_of decode params in
      let r = governed parse_duration decode handler e s (some ac) tool params now in
      let checked = (check parse_duration e ac.agent_id tool args [] now).0 in
      (IsGoverned parse_duration e ac tool args now × Ran handler checked s ac.agent_id params r)
      ⊎ ((¬ IsGoverned parse_duration e ac tool args now) × Refused s r)
unfolding governed
governed-Ran_or_Refused parse_duration decode handler e s ac tool params now =
    let args = args_of decode params in
    let permitted = check-allow_iff parse_duration e ac.agent_id tool args [] now in
    elim (Bool-cases (ac.agent_id == "")) [
      | inl a ↦
          inr (λ g. g.0 ((string_key.same_iff ac.agent_id "").0 a), rw a (refl, λ result eq. cc))
      | inr a ↦ elim (Bool-cases (tool == "")) [
        | inl t ↦
            inr (λ g. g.1 ((string_key.same_iff tool "").0 t), rw (a, t) (refl, λ result eq. cc))
        | inr t ↦
            elim (Verdict-cases (check parse_duration e ac.agent_id tool args [] now).1.verdict) [
              | inl v ↦ inl (
                (
                  λ eq. ground (arith, string_key.same_iff ac.agent_id ""),
                  λ eq. ground (arith, string_key.same_iff tool ""),
                  permitted.0 v,
                ),
                rw (a, t, v) refl,
              )
              | inr v ↦ inr (
                λ g. allow_ne_deny (sym (permitted.1 (g.2)) ∙ v),
                rw (a, t, v) (refl, λ result eq. cc),
              )
            ]
      ]
    ]
