-- ===== src/Access.antt =====
-- Who may do what: organizations/rbac.py, organizations/api_scopes.py, accounts/auth.py and
-- accounts/permissions.py, one module each.
pub mod Rbac
pub mod Scopes
pub mod Principal
pub mod Keys
pub mod Permissions
pub mod Soundness
pub mod ApiKeys
mod Tests
