-- ===== src/Access/Examples.antt =====
-- The theorems on access at concrete inputs, and tests.
use nexixai_agentos.Prelude.{string_key, pair_key}
use nexixai_agentos.Prelude.{String, ◌≡◌, ◌≢◌, refl, false, Option, none, some, [], ◌∷◌}
use nexixai_agentos.Prelude.Dict.{Dict, get, put, size}
use nexixai_agentos.Access.Roles.{has_permission, AuthContext, require_tenant}
use nexixai_agentos.Access.Rbac.{
  Membership, member, member_not_found, MemberStore, rbac_middleware, forbidden,
  insufficient_permissions,
}
use nexixai_agentos.Access.Rbac.Safety.{Authorised, rbac_middleware-Authorised}

-- A member store of one tenant, a list of its members.
abbrev membership : Option String → Membership
membership none = member_not_found
membership (some role) = member role

abbrev one_tenant : MemberStore (Dict String String)
one_tenant = record {
  get_role = λ s tenant_id principal_id. membership (get s principal_id);
  count_members = λ s tenant_id. some (size s);
  set_role = λ s tenant_id principal_id role. some (put s principal_id role);
}

abbrev caller : AuthContext
caller = record { tenant_id = "acme"; principal_id = "ann"; role = ""; token_tenant_id = "" }

abbrev bootstrapped : AuthContext
bootstrapped = record caller { role = "owner" }

rbac_middleware-Authorised_example :
    (caller.principal_id ≢ "")
    × Authorised
        (require_tenant (λ x. x) "" caller)
        one_tenant
        "admin"
        []
        caller
        (("ann", "owner") ∷ [])
        bootstrapped
unfolding rbac_middleware require_tenant has_permission get put
rbac_middleware-Authorised_example =
    rbac_middleware-Authorised (λ x. x) "" false one_tenant "admin" [] (("ann", "owner") ∷ [])
      caller bootstrapped refl

viewer_refused :
    rbac_middleware
      (λ x. x)
      ""
      false
      (some one_tenant)
      "admin"
      (("ann", "viewer") ∷ [])
      (some caller)
    ≡ (("ann", "viewer") ∷ [], forbidden insufficient_permissions)
unfolding rbac_middleware require_tenant has_permission get
viewer_refused = refl
