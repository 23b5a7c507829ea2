-- ===== src/Access/ApiKeys.antt =====
-- How accounts/permissions.py treats an API key. `is_platform_admin` of accounts/auth.py holds of
-- every principal that is authenticated and has no pk, and an `ApiKeyPrincipal` is one.
use govahee.Prelude.{
  ℕ, String, ◌≡◌, refl, true, false, List, ◌∷◌, ◌++◌, Option, none, some, if◌then◌else◌,
}
use govahee.Access.Keys.{StoredKey, authenticated, authenticate}
use govahee.Access.Keys.Valid.{authenticate-Admitted}
use govahee.Organizations.Models.{ApiKey}
use govahee.Access.Scopes.{api_scopes_allow}
use govahee.Access.Principal.{is_platform_admin, Principal, api_key_principal}
use govahee.Access.Permissions.{
  View, Request, Directory, Context, allow, deny, no_scope, check_required, is_api_key,
  guard_suspended, has_organization, has_org_permission, is_platform_admin_permission,
}

abbrev pub key_request : ApiKey → Option ℕ → Request
key_request key header = record { user = api_key_principal key; organization_header = header }

-- the request as `HasOrganization` leaves it for a key
abbrev pub key_context : ApiKey → Context
key_context key = record {
  organization = some key.organization;
  membership = none;
  org_role = "api";
  api_permissions = key.permissions;
}

-- a view asked by a key is refused for a suspended organization only
unscoped_key :
    (db : Directory) (view : View) (key : ApiKey) (header : Option ℕ)
    → key.organization.is_suspended ≡ false
    → has_org_permission db view (key_request key header) ≡ allow (key_context key)
unfolding has_org_permission has_organization guard_suspended is_platform_admin
unscoped_key db view key header live = rw (live, guard_suspended)

-- The scopes of keys limit nothing: every request that a key authenticates passes
-- `HasOrgPermission` on every view, whatever permission the view requires and whatever the scopes
-- of the key are, and passes `IsPlatformAdmin`; it acts for the organization of a key of the table.
-- The test of scopes, which this passes over, would let the key through only for a permission that
-- its scopes grant.
pub api_key_unscoped :
    (hash : String → String) (now : ℕ) (header authorization : String) (rows : List StoredKey)
    (p : Principal) (db : Directory) (view : View) (org_header : Option ℕ) (required : String)
    → (authenticate hash now header authorization rows).0 ≡ authenticated p
    → (row : StoredKey) × (front : List StoredKey) × (back : List StoredKey) × (rows
        ≡ front ++ (row ∷ back))
      × (p ≡ api_key_principal row.key)
      × (has_org_permission db view (key_request row.key org_header) ≡ allow (key_context row.key))
      × (is_platform_admin_permission (key_request row.key org_header) ≡ true)
      × (check_required p (key_context row.key) (some required) ≡ (
          if api_scopes_allow row.key.permissions required
          then allow (key_context row.key)
          else deny no_scope))
unfolding is_platform_admin_permission is_platform_admin check_required is_api_key
api_key_unscoped hash now header authorization rows p db view org_header required h =
    let a = authenticate-Admitted hash now header authorization rows p h in
    (
      a.row,
      a.front,
      a.back,
      a.stored,
      a.principal,
      unscoped_key db view a.row.key org_header a.trading,
      refl,
      rw (a.principal) refl,
    )
