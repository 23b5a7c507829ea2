-- ===== src/Access/Tests.antt =====
-- Runs of the permission checks, and the theorems about them at concrete inputs.
use govahee.Prelude.{◌++◌, List, if◌then◌else◌, String, ◌≡◌, refl, true, false, [], ◌∷◌, none, some}
use govahee.Prelude.Text.{strip, lower, is_space, lstrip, ◌+++◌}
use govahee.Organizations.Models.{Organization, OrganizationMembership, ApiKey}
use govahee.Access.Rbac.{role_has_permission}
use govahee.Access.Scopes.{api_scopes_allow}
use govahee.Access.Principal.{api_key_principal, db_user, is_platform_admin}
use govahee.Access.Permissions.{
  View, Request, Directory, Context, allow, deny, no_scope, no_role, guard_suspended,
  membership_for, admit_member, admit_user, check_required, has_organization, has_org_permission,
  is_platform_admin_permission,
}
use govahee.Access.Soundness.{MemberContext, has_org_permission_sound}
use govahee.Access.Keys.{
  StoredKey, starts_with, raw_key, lookup_api_key, admit_if, admit_key, authenticate, refused,
  invalid_key,
}
use govahee.Access.Keys.Valid.{Admitted, authenticate-Admitted}
use govahee.Access.ApiKeys.{key_request, key_context, api_key_unscoped}

abbrev academy : Organization
academy = record {
  id = 7;
  name = "Academy";
  slug = "academy";
  contact_email = "";
  description = "";
  website = "";
  verification_status = "verified";
  certificate_number_prefix = "CERT-";
  is_suspended = false;
  issuance_enabled = true;
  api_enabled = true;
  verification_search_enabled = true;
  public_issuer_page_enabled = true;
  verification_indexable = false;
  onboarding_completed_at = none;
}

abbrev viewer : OrganizationMembership
viewer = record { id = 1; organization = 7; user = 3; role = "viewer"; is_active = true }

abbrev directory : Directory
directory = record { organizations = academy ∷ []; memberships = viewer ∷ [] }

abbrev requires : String → View
requires p = record {
  required_permission = some p;
  allow_suspended_org = false;
  allow_missing_org = false;
}

abbrev viewer_context : Context
viewer_context = record {
  organization = some academy;
  membership = some viewer;
  org_role = "viewer";
  api_permissions = [];
}

abbrev viewer_request : Request
viewer_request = record { user = db_user 3 false; organization_header = some 7 }

viewer_reads :
    has_org_permission directory (requires "certificates.read") viewer_request
    ≡ allow viewer_context
unfolding has_org_permission has_organization membership_for admit_user admit_member guard_suspended
    is_platform_admin check_required role_has_permission
viewer_reads = refl

viewer_does_not_issue :
    has_org_permission directory (requires "certificates.issue") viewer_request ≡ deny no_role
unfolding has_org_permission has_organization membership_for admit_user admit_member guard_suspended
    is_platform_admin check_required role_has_permission
viewer_does_not_issue = refl

unknown_role : role_has_permission "api" "certificates.read" ≡ false
unfolding role_has_permission
unknown_role = refl

has_org_permission_sound_example :
    MemberContext directory (requires "certificates.read") 3 viewer_context
    × ((required : String)
        → some "certificates.read" ≡ some required
        → role_has_permission "viewer" required ≡ true)
has_org_permission_sound_example =
    has_org_permission_sound directory (requires "certificates.read") 3 (some 7) viewer_context
      viewer_reads

abbrev issuer_role : String
issuer_role = "issuer"

-- a key that may only read certificates
abbrev reader : ApiKey
reader = record { organization = academy; name = "lms"; permissions = "certificates:read" ∷ [] }

abbrev stored_key : StoredKey
stored_key = record {
  id = 1;
  key = record { organization = academy; name = "ci"; permissions = [] };
  hashed_key = "gvh_ab_secret#";
  last_used_at = none;
  revoked_at = none;
}

-- a text for the hash of a text
abbrev hash : String → String
hash raw = raw +++ "#"

authenticate-Admitted_example :
    Admitted hash
      (raw_key "" "Bearer gvh_ab_secret")
      (stored_key ∷ [])
      (api_key_principal stored_key.key)
unfolding authenticate raw_key admit_key admit_if lookup_api_key starts_with strip lower is_space
    lstrip
authenticate-Admitted_example =
    authenticate-Admitted hash 1000 "" "Bearer gvh_ab_secret" (stored_key ∷ [])
      (api_key_principal stored_key.key) refl

api_key_unscoped_example :
    (row : StoredKey) × (front : List StoredKey) × (back : List StoredKey) × (stored_key ∷ []
      ≡ front ++ (row ∷ back))
    × (api_key_principal stored_key.key ≡ api_key_principal row.key)
    × (has_org_permission directory (requires "certificates.revoke") (key_request row.key none)
        ≡ allow (key_context row.key))
    × (is_platform_admin_permission (key_request row.key none) ≡ true)
    × (check_required
          (api_key_principal stored_key.key)
          (key_context row.key)
          (some "certificates.revoke")
        ≡ (if api_scopes_allow row.key.permissions "certificates.revoke"
            then allow (key_context row.key)
            else deny no_scope))
unfolding authenticate raw_key admit_key admit_if lookup_api_key starts_with strip lower is_space
    lstrip
api_key_unscoped_example =
    api_key_unscoped hash 1000 "" "Bearer gvh_ab_secret" (stored_key ∷ [])
      (api_key_principal stored_key.key) directory (requires "certificates.revoke") none
      "certificates.revoke" refl

-- A revoked key is refused.
revoked_key :
    (authenticate hash 1000 "gvh_ab_secret" "" (record stored_key { revoked_at = some 5 } ∷ [])).0
    ≡ refused invalid_key
unfolding authenticate raw_key admit_key lookup_api_key starts_with strip lower is_space lstrip
revoked_key = refl
