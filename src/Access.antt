-- ===== src/Access.antt =====
-- Who may call: tenants, roles and the access check of a request (internal/auth,
-- internal/middleware/rbac.go).
pub mod Roles
pub mod Rbac
mod Examples
