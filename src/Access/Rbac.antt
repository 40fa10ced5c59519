-- ===== src/Access/Rbac.antt =====
-- internal/middleware/rbac.go. The member store is the interface RBACMemberStore over a state of its
-- own; its implementation is outside. The handler behind the middleware is not run: the result
-- says whether it is called, and with what context.
pub mod Safety
use nexixai_agentos.Prelude.{string_key}
use nexixai_agentos.Prelude.{
  ℕ, String, Bool, true, false, Option, none, some, ◌==◌, if◌then◌else◌, eqb,
}
use nexixai_agentos.Access.Roles.{
  role_owner, has_permission, AuthContext, Tenant, tenant, tenant_mismatch, tenant_required,
  require_tenant,
}

-- GetRole's role, postgres.ErrMemberNotFound or another error.
pub data Membership : Type 0 where
  member : String → Membership
  member_not_found : Membership
  store_error : Membership

pub record MemberStore (S : Type 0) : Type 0 where
  pub get_role : S → String → String → Membership
  pub count_members : S → String → Option ℕ
  pub set_role : S → String → String → String → Option S

pub data Denial : Type 0 where
  not_configured : Denial
  authentication_required : Denial
  tenant_needed : Denial
  access_denied : Denial
  not_a_member : Denial
  insufficient_permissions : Denial

pub data Response : Type 0 where
  -- With no store in dev mode, the request passes as it is.
  passed_on : Response
  served : AuthContext → Response
  forbidden : Denial → Response

module _ {S : Type 0} where
  -- The role of a caller whose context carries none.
  abbrev pub looked_up : MemberStore S → S → String → String → S × (Option String) × Denial
  looked_up store s tenant_id principal_id = elim (store.get_role s tenant_id principal_id) [
    | member role ↦ (s, some role, access_denied)
    | store_error ↦ (s, none, access_denied)
    | member_not_found ↦ elim (store.count_members s tenant_id) [
      | none ↦ (s, none, access_denied)
      | some count ↦
          if eqb count 0
          then elim (store.set_role s tenant_id principal_id role_owner) [
            | none ↦ (s, none, access_denied)
            | some s' ↦ (s', some role_owner, access_denied)
          ]
          else (s, none, not_a_member)
    ]
  ]

  abbrev pub role_of : MemberStore S → S → AuthContext → String → S × (Option String) × Denial
  role_of store s ac tenant_id =
      if ac.role == ""
      then looked_up store s tenant_id ac.principal_id
      else (s, some ac.role, access_denied)

  abbrev pub decide : String → AuthContext → S × (Option String) × Denial → S × Response
  decide required ac (s, none, denial) = (s, forbidden denial)
  decide required ac (s, some role, denial) =
      if has_permission role required
      then (s, served (record ac { role = role }))
      else (s, forbidden insufficient_permissions)

  abbrev pub check_member : Tenant → MemberStore S → String → S → AuthContext → S × Response
  check_member (tenant id) store required s ac = decide required ac (role_of store s ac id)
  check_member tenant_mismatch store required s ac = (s, forbidden tenant_needed)
  check_member tenant_required store required s ac = (s, forbidden tenant_needed)

  module _ (trim_space : String → String) (default_tenant : String) (dev_mode : Bool) where
    unfoldable pub rbac_middleware :
        Option (MemberStore S) → String → S → Option AuthContext → S × Response
    rbac_middleware none required s ac =
        if dev_mode then (s, passed_on) else (s, forbidden not_configured)
    rbac_middleware (some store) required s none = (s, forbidden authentication_required)
    rbac_middleware (some store) required s (some ac) =
        if ac.principal_id == ""
        then (s, forbidden authentication_required)
        else check_member (require_tenant trim_space default_tenant ac) store required s ac
