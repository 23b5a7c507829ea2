-- ===== src/Access/Principal.antt =====
-- accounts/auth.py and organizations/authentication.py: the classes that `request.user` may
-- have, and the attributes that `getattr(user, name, default)` reads from each.
use govahee.Prelude.{ℕ, String, Bool, true, false, ◌&&◌, ◌||◌, not, Option, none, some, is_some}
use govahee.Organizations.Models.{ApiKey}

pub data Principal : Type 0 where
  -- Django's AnonymousUser
  anonymous : Principal
  -- accounts.User with its pk and its column is_platform_admin
  db_user : ℕ → Bool → Principal
  -- accounts.auth.SuperAdminPrincipal
  super_admin : String → Principal
  -- organizations.authentication.ApiKeyPrincipal
  api_key_principal : ApiKey → Principal

abbrev pub pk : Principal → Option ℕ
pk (db_user n _) = some n
pk _ = none

abbrev pub is_authenticated : Principal → Bool
is_authenticated anonymous = false
is_authenticated _ = true

abbrev pub platform_admin_attribute : Principal → Bool
platform_admin_attribute (db_user _ flag) = flag
platform_admin_attribute (super_admin _) = true
platform_admin_attribute _ = false

-- `is_platform_admin(user)`: `and` binds tighter than `or`
unfoldable pub is_platform_admin : Principal → Bool
is_platform_admin user =
    platform_admin_attribute user || (not (is_some (pk user)) && is_authenticated user)
