-- ===== src/Mcp/Clearance/Cleared.antt =====
-- Which agents are cleared for a tool (mcp/auth.go).
use nexixai_agentos.Prelude.{string_key}
use nexixai_agentos.Prelude.{
  ℕ, ◌≤◌, ◌≡◌, ◌≢◌, refl, false, Option, none, some, ◌==◌, inl, inr, Bool-cases, arith,
}
use nexixai_agentos.Mcp.GovernanceMiddleware.{McpAuthContext}
use nexixai_agentos.Mcp.ToolRegistry.{Tool}
use nexixai_agentos.Mcp.Clearance.{ClearanceStore, cleared, authorize_tool_call}

-- An agent is cleared for a tool: it is named, and its tier is known and high enough.
abbrev pub IsCleared : {S : Type 0} → ClearanceStore → McpAuthContext → Tool S → Type 0
IsCleared store ac t =
    (ac.agent_id ≢ "") × ((tier : ℕ) × (store ac.agent_id ≡ some tier) × (t.min_clearance ≤ tier))

cleared_iff :
    (o : Option ℕ) (required : ℕ)
    → cleared o required ≡ none
    → (tier : ℕ) × (o ≡ some tier) × (required ≤ tier)
cleared_iff none required h = cc
cleared_iff (some tier) required h = (tier, refl, ground arith)

cleared_enough : (tier required : ℕ) → required ≤ tier → cleared (some tier) required ≡ none
cleared_enough tier required h = ground arith

pub authorize_tool_call-IsCleared :
    {S : Type 0} (identity : Option McpAuthContext) (t : Tool S) (store : ClearanceStore)
    → authorize_tool_call identity t store ≡ none
    → (ac : McpAuthContext) × (identity ≡ some ac) × IsCleared store ac t
unfolding authorize_tool_call
authorize_tool_call-IsCleared none t store h = cc
authorize_tool_call-IsCleared (some ac) t store h = elim (Bool-cases (ac.agent_id == "")) [
  | inl b ↦ absurd (ground (arith, b, h))
  | inr b ↦
      let e : cleared (store ac.agent_id) t.min_clearance ≡ none = ground (arith, b, h) in
      (
        ac,
        refl,
        (
          (λ n. ground (arith, b, string_key.same_iff ac.agent_id "")),
          cleared_iff (store ac.agent_id) t.min_clearance e,
        ),
      )
]

pub authorize_cleared :
    {S : Type 0} (ac : McpAuthContext) (t : Tool S) (store : ClearanceStore)
    → IsCleared store ac t
    → authorize_tool_call (some ac) t store ≡ none
unfolding authorize_tool_call
authorize_cleared ac t store h =
    let named : (ac.agent_id == "") ≡ false =
      ground (arith, string_key.same_iff ac.agent_id "", h.0) in
    rw (named, h.1.1) (cleared_enough h.1.0 t.min_clearance h.1.2)
