-- ===== src/Access/Permissions.antt =====
-- accounts/permissions.py: `IsPlatformAdmin`, `HasOrganization` and `HasOrgPermission`.
-- What `has_permission` writes into the request is the value of its success; the header
-- X-Organization-Id is absent or empty (`none`), or a number.
use govahee.Prelude.{
  ℕ, String, Bool, true, false, ◌&&◌, not, List, [], Option, none, some, ◌==◌, find, if◌then◌else◌,
}
use govahee.Organizations.Models.{Organization, OrganizationMembership, org_by_pk}
use govahee.Access.Rbac.{role_has_permission}
use govahee.Access.Scopes.{api_scopes_allow}
use govahee.Access.Principal.{
  Principal, anonymous, db_user, super_admin, api_key_principal, is_authenticated,
  is_platform_admin,
}

pub record View : Type 0 where
  pub required_permission : Option String
  pub allow_suspended_org : Bool
  pub allow_missing_org : Bool

pub record Request : Type 0 where
  pub user : Principal
  pub organization_header : Option ℕ

-- the rows that the checks read; memberships in the order of their ids
pub record Directory : Type 0 where
  pub organizations : List Organization
  pub memberships : List OrganizationMembership

-- the attributes that a check sets on the request
pub record Context : Type 0 where
  pub organization : Option Organization
  pub membership : Option OrganizationMembership
  pub org_role : String
  pub api_permissions : List String

-- the `message` of a refusal
pub data Message : Type 0 where
  no_organization suspended not_found choose_organization no_scope no_role : Message

pub data Decision : Type 0 where
  allow : Context → Decision
  deny : Message → Decision

unfoldable pub is_platform_admin_permission : Request → Bool
unfolding is_platform_admin
is_platform_admin_permission request =
    is_authenticated request.user && is_platform_admin request.user

-- the refusal of a suspended organization, unless the view allows one
unfoldable pub guard_suspended : View → Organization → Context → Decision
guard_suspended view org ctx =
    if org.is_suspended && not view.allow_suspended_org then deny suspended else allow ctx

-- `membership = qs.filter(...).first()`, over the active memberships of the user
unfoldable pub membership_for :
    ℕ → Option ℕ → List OrganizationMembership → Option OrganizationMembership
membership_for user (some org_id) =
    find
      (λ (m : OrganizationMembership). (m.user == user && m.is_active) && m.organization == org_id)
membership_for user none = find (λ (m : OrganizationMembership). m.user == user && m.is_active)

unfoldable pub admit_member :
    Directory → View → OrganizationMembership → Option Organization → Decision
admit_member db view m none = deny no_organization
admit_member db view m (some org) = guard_suspended view org (record {
  organization = some org;
  membership = some m;
  org_role = m.role;
  api_permissions = [];
})

unfoldable pub admit_user : Directory → View → Option OrganizationMembership → Decision
admit_user db view none = deny no_organization
admit_user db view (some m) = admit_member db view m (org_by_pk m.organization db.organizations)

-- the branch of `HasOrganization` for a platform admin
unfoldable pub admit_admin : Directory → View → Option ℕ → Decision
admit_admin db view (some org_id) = elim (org_by_pk org_id db.organizations) [
  | none ↦ deny not_found
  | some org ↦ allow (record {
    organization = some org;
    membership = none;
    org_role = "owner";
    api_permissions = [];
  })
]
admit_admin db view none =
    if view.allow_missing_org
    then allow
        (record { organization = none; membership = none; org_role = ""; api_permissions = [] })
    else deny choose_organization

unfoldable pub has_organization : Directory → View → Request → Decision
has_organization db view request = elim (request.user) [
  | anonymous ↦ deny no_organization
  | api_key_principal key ↦ guard_suspended view key.organization (record {
    organization = some key.organization;
    membership = none;
    org_role = "api";
    api_permissions = key.permissions;
  })
  | db_user user flag ↦
      if is_platform_admin (db_user user flag)
      then admit_admin db view request.organization_header
      else admit_user db view (membership_for user request.organization_header db.memberships)
  | super_admin name ↦ admit_admin db view request.organization_header
]

unfoldable pub is_api_key : Principal → Bool
is_api_key (api_key_principal _) = true
is_api_key _ = false

-- the test of the required permission once the organization is known
unfoldable pub check_required : Principal → Context → Option String → Decision
unfolding is_api_key
check_required user ctx none = allow ctx
check_required user ctx (some required) =
    if is_api_key user
    then (if api_scopes_allow ctx.api_permissions required then allow ctx else deny no_scope)
    else (if role_has_permission ctx.org_role required then allow ctx else deny no_role)

unfoldable pub has_org_permission : Directory → View → Request → Decision
has_org_permission db view request = elim (has_organization db view request) [
  | deny message ↦ deny message
  | allow ctx ↦
      if is_platform_admin request.user
      then allow ctx
      else check_required request.user ctx view.required_permission
]
