-- ===== src/Access/Rbac/Safety.antt =====
-- Who gets past the access check (internal/middleware/rbac.go).
use nexixai_agentos.Prelude.{string_key}
use nexixai_agentos.Prelude.{
  String, ◌≡◌, ◌≢◌, refl, sym, ◌∙◌, ap, subst, ◌⊎◌, Bool, true, Option, none, some, ◌==◌, eqb, inl,
  inr, Bool-cases, Option-cases, eqb_iff, arith,
}
use nexixai_agentos.Access.Roles.{
  role_owner, has_permission, AuthContext, Tenant, tenant, tenant_mismatch, tenant_required,
  require_tenant,
}
use nexixai_agentos.Access.Rbac.{
  Membership, member, member_not_found, store_error, MemberStore, Denial, Response, passed_on,
  served, insufficient_permissions, access_denied, forbidden, looked_up, role_of, decide,
  check_member, rbac_middleware,
}

Membership-cases :
    (m : Membership)
    → ((role : String) × (m ≡ member role)) ⊎ ((m ≡ member_not_found) ⊎ (m ≡ store_error))
Membership-cases (member role) = inl (role, refl)
Membership-cases member_not_found = inr (inl refl)
Membership-cases store_error = inr (inr refl)

module _ {S : Type 0} where
  -- Where a caller's role may come from: its context, its membership, or being the first of its
  -- tenant. The last two states are those of the store before and after.
  pub data Grants (store : MemberStore S) (s : S) (ac : AuthContext) (id : String)
      : String → S → Type 0 where
    carried : ac.role ≢ "" → Grants store s ac id ac.role s
    as_member :
        (role : String)
        → ac.role ≡ ""
        → store.get_role s id ac.principal_id ≡ member role
        → Grants store s ac id role s
    as_first :
        (s' : S)
        → ac.role ≡ ""
        → store.get_role s id ac.principal_id ≡ member_not_found
        → store.count_members s id ≡ some 0
        → store.set_role s id ac.principal_id role_owner ≡ some s'
        → Grants store s ac id role_owner s'

  abbrev IsGranted :
      MemberStore S → S → AuthContext → String → S × (Option String) × Denial → Type 0
  IsGranted store s ac id (s', none, d) = Unit
  IsGranted store s ac id (s', some role, d) = Grants store s ac id role s'

  looked_up-IsGranted :
      (store : MemberStore S) (s : S) (ac : AuthContext) (id : String)
      → ac.role ≡ ""
      → IsGranted store s ac id (looked_up store s id ac.principal_id)
  looked_up-IsGranted store s ac id blank =
      elim (Membership-cases (store.get_role s id ac.principal_id)) [
        | inl (role, e) ↦
            let found : looked_up store s id ac.principal_id ≡ (s, some role, access_denied) =
              rw (looked_up, e) refl in
            subst (IsGranted store s ac id) (sym found) (as_member role blank e)
        | inr (inr e) ↦ rw (IsGranted, e) tt
        | inr (inl e) ↦ elim (Option-cases (store.count_members s id)) [
          | inl c ↦ rw (IsGranted, e, c) tt
          | inr (count, c) ↦ elim (Bool-cases (eqb count 0)) [
            | inr z ↦ rw (IsGranted, e, c, z) tt
            | inl z ↦
                let zero_members = c ∙ ap some ((eqb_iff count 0).0 z) in
                elim (Option-cases (store.set_role s id ac.principal_id role_owner)) [
                  | inl d ↦ rw (IsGranted, e, c, z, d) tt
                  | inr (s', d) ↦
                      let found : looked_up store s id ac.principal_id
                          ≡ (s', some role_owner, access_denied) =
                        rw (looked_up, e, c, z, d) refl in
                      subst (IsGranted store s ac id) (sym found)
                        (as_first s' blank e zero_members d)
                ]
          ]
        ]
      ]

  role_of-IsGranted :
      (store : MemberStore S) (s : S) (ac : AuthContext) (id : String)
      → IsGranted store s ac id (role_of store s ac id)
  role_of-IsGranted store s ac id = elim (Bool-cases (ac.role == "")) [
    | inl b ↦ rw b (looked_up-IsGranted store s ac id ((string_key.same_iff ac.role "").0 b))
    | inr b ↦ rw b (carried (λ e. ground (arith, string_key.same_iff ac.role "")))
  ]

  -- The caller has a principal, a tenant and a role that was granted and is enough.
  abbrev pub Authorised :
      Tenant → MemberStore S → String → S → AuthContext → S → AuthContext → Type 0
  Authorised t store required s ac s' ac' =
      (id : String) × (t ≡ tenant id)
      × Grants store s ac id ac'.role s'
      × (has_permission ac'.role required ≡ true)
      × (ac' ≡ record ac { role = ac'.role })

  abbrev IsSound : Tenant → MemberStore S → String → S → AuthContext → S × Response → Type 0
  IsSound t store required s ac (s', served ac') = Authorised t store required s ac s' ac'
  IsSound t store required s ac (s', forbidden d) = Unit
  IsSound t store required s ac (s', passed_on) = ⊥

  decide-IsSound :
      (store : MemberStore S) (required : String) (s : S) (ac : AuthContext) (id : String)
      (r : S × (Option String) × Denial)
      → IsGranted store s ac id r
      → IsSound (tenant id) store required s ac (decide required ac r)
  decide-IsSound store required s ac id (s', none, d) g = tt
  decide-IsSound store required s ac id (s', some role, d) g =
      elim (Bool-cases (has_permission role required)) [
        | inl b ↦
            let eq : decide required ac (s', some role, d)
                ≡ (s', served (record ac { role = role })) =
              rw b refl in
            subst (IsSound (tenant id) store required s ac) (sym eq) (id, refl, g, b, refl)
        | inr b ↦
            let eq : decide required ac (s', some role, d)
                ≡ (s', forbidden insufficient_permissions) =
              rw b refl in
            subst (IsSound (tenant id) store required s ac) (sym eq) tt
      ]

  check_member-IsSound :
      (t : Tenant) (store : MemberStore S) (required : String) (s : S) (ac : AuthContext)
      → IsSound t store required s ac (check_member t store required s ac)
  check_member-IsSound (tenant id) store required s ac =
      decide-IsSound store required s ac id (role_of store s ac id)
        (role_of-IsGranted store s ac id)
  check_member-IsSound tenant_mismatch store required s ac = tt
  check_member-IsSound tenant_required store required s ac = tt

-- A request that a configured access check lets through has a principal and a tenant, and its role
-- is at least the required one. That role is the one its context carries, or else that of the
-- caller's membership, or else owner: this last only for a tenant without members, whose owner
-- the caller has become in the store. Nothing else of the context changes.
pub rbac_middleware-Authorised :
    {S : Type 0} (trim_space : String → String) (default_tenant : String) (dev_mode : Bool)
    (store : MemberStore S) (required : String) (s s' : S) (ac ac' : AuthContext)
    → rbac_middleware trim_space default_tenant dev_mode (some store) required s (some ac)
      ≡ (s', served ac')
    → (ac.principal_id ≢ "")
      × Authorised (require_tenant trim_space default_tenant ac) store required s ac s' ac'
unfolding rbac_middleware
rbac_middleware-Authorised trim_space default_tenant dev_mode store required s s' ac ac' h =
    elim (Bool-cases (ac.principal_id == "")) [
      | inl b ↦ cc
      | inr b ↦
          let t = require_tenant trim_space default_tenant ac in
          let passed : rbac_middleware trim_space default_tenant dev_mode (some store) required s
                (some ac)
              ≡ check_member t store required s ac =
            rw b refl in
          let eq = sym passed ∙ h in
          (
            λ e. ground (arith, string_key.same_iff ac.principal_id ""),
            subst (IsSound t store required s ac) eq (check_member-IsSound t store required s ac),
          )
    ]
