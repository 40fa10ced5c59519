-- ===== src/Access/Roles.antt =====
-- internal/auth/rbac.go, and the tenant of a request in internal/auth/context.go. Trimming of
-- spaces and the default tenant of the environment are arguments.
use nexixai_agentos.Prelude.{string_key}
use nexixai_agentos.Prelude.{
  ℕ, String, Bool, false, not, Option, some, [], ◌∷◌, ◌==◌, ◌&&◌, if◌then◌else◌, leb, is_some,
}
use nexixai_agentos.Prelude.Dict.{Dict, get}

abbrev pub role_owner : String
role_owner = "owner"

abbrev pub role_level : Dict String ℕ
role_level = (role_owner, 40) ∷ ("admin", 30) ∷ ("developer", 20) ∷ ("viewer", 10) ∷ []

abbrev meets : Option ℕ → Option ℕ → Bool
meets (some u) (some r) = leb r u
meets _ _ = false

unfoldable pub has_permission : String → String → Bool
has_permission user required = meets (get role_level user) (get role_level required)

unfoldable pub valid_role : String → Bool
valid_role s = is_some (get role_level s)

-- The fields of AuthContext that the access check reads.
pub record AuthContext : Type 0 where
  pub tenant_id : String
  pub principal_id : String
  pub role : String
  pub token_tenant_id : String

pub data Tenant : Type 0 where
  tenant : String → Tenant
  tenant_mismatch : Tenant
  tenant_required : Tenant

unfoldable pub require_tenant : (String → String) → String → AuthContext → Tenant
require_tenant trim_space default_tenant ac =
    let token = trim_space ac.token_tenant_id in
    let header = trim_space ac.tenant_id in
    if not (token == "") && not (header == "") && not (token == header)
    then tenant_mismatch
    else if not (token == "")
    then tenant token
    else if not (header == "")
    then tenant header
    else if not (default_tenant == "")
    then tenant default_tenant
    else tenant_required
