-- ===== src/Access/Soundness.antt =====
-- What the role map of organizations/rbac.py, the scopes of organizations/api_scopes.py and the
-- checks of accounts/permissions.py let through.
use govahee.Prelude.{
  ℕ, String, ◌≡◌, refl, ap, ◌∙◌, ◌⊎◌, inl, inr, Bool, true, false, ◌&&◌, ◌||◌, not, List, [], ◌∷◌,
  ◌++◌, Option, none, some, arith, ◌==◌, find_sound, all, any, str_eq, str_eq_iff, Bool-cases,
}
use govahee.Prelude.Text.{member, get_set, member-all, member-append}
use govahee.Organizations.Models.{Organization, OrganizationMembership, org_by_pk}
use govahee.Access.Rbac.{wildcard, all_permissions, role_permissions, granted, role_has_permission}
use govahee.Access.Scopes.{scope_grant, union_grants, api_scopes_allow}
use govahee.Access.Principal.{db_user, is_platform_admin}
use govahee.Access.Permissions.{
  View, Directory, Context, Decision, allow, deny, membership_for, admit_user, admit_member,
  guard_suspended, has_organization, check_required, has_org_permission,
}

module _ (allowed : List String) where
  within : String → Bool
  within p = member p allowed

  -- every set of a dict from a text to a set of permissions lies in `allowed`
  all_within : List (String × List String) → Bool
  unfolding within
  all_within [] = true
  all_within ((k, set) ∷ d) = all within set && all_within d

  get_set_within :
      (d : List (String × List String)) (k p : String)
      → all_within d ≡ true
      → member p (get_set k d) ≡ true
      → member p allowed ≡ true
  unfolding all_within
  get_set_within [] k p a m = ground arith
  get_set_within ((j, set) ∷ d) k p a m = elim (Bool-cases (str_eq k j)) [
    | inl same ↦ member-all within set p (ground arith) (ground arith)
    | inr other ↦ get_set_within d k p (ground arith) (ground arith)
  ]

-- the roles below the owner
abbrev other_roles : List (String × List String)
other_roles = elim role_permissions [ [] ↦ [] | role ∷ rest ↦ rest ]

granted_other :
    (role : String) → str_eq role "owner" ≡ false → granted role ≡ get_set role other_roles
unfolding granted
granted_other role other = ground arith

role_has_permission-cases :
    (role p : String)
    → role_has_permission role p ≡ true
    → (member wildcard (granted role) ≡ true) ⊎ (member p (granted role) ≡ true)
unfolding role_has_permission
role_has_permission-cases role p h = elim (Bool-cases (member wildcard (granted role))) [
  | inl star ↦ inl star
  | inr plain ↦ inr (rw plain at h)
]

not_owner :
    (role p : String)
    → str_eq role "owner" ≡ false
    → (member wildcard (granted role) ≡ true) ⊎ (member p (granted role) ≡ true)
    → member p all_permissions ≡ true
unfolding all_within
not_owner role p other (inl star) = cc (
    get_set_within all_permissions other_roles role wildcard refl
      (rw (granted_other role other) at star))
not_owner role p other (inr h) =
    get_set_within all_permissions other_roles role p refl (rw (granted_other role other) at h)

-- Only the owner has a permission that `all_permissions` does not declare: whoever is granted one is
-- the owner, or the permission is declared. So a role that is no key of the map has none.
pub role_has_permission_declared :
    (role permission : String)
    → role_has_permission role permission ≡ true
    → (role ≡ "owner") ⊎ (member permission all_permissions ≡ true)
role_has_permission_declared role p h = elim (Bool-cases (str_eq role "owner")) [
  | inl owner ↦ inl ((str_eq_iff role "owner").0 owner)
  | inr other ↦ inr (not_owner role p other (role_has_permission-cases role p h))
]

member-union_grants :
    (acc scopes : List String) (p : String)
    → member p (union_grants acc scopes)
      ≡ (member p acc || any (λ s. member p (scope_grant s)) scopes)
unfolding union_grants
member-union_grants acc [] p = ground arith
member-union_grants acc (s ∷ scopes) p = ground (
  arith,
  member-union_grants (acc ++ scope_grant s) scopes p,
  member-append p acc (scope_grant s),
)

-- The scopes of a key allow a permission exactly when one of them grants it.
pub api_scopes_allow_iff :
    (scopes : List String) (p : String)
    → api_scopes_allow scopes p ≡ any (λ s. member p (scope_grant s)) scopes
unfolding api_scopes_allow
api_scopes_allow_iff scopes p = member-union_grants [] scopes p

-- What a check of a member of an organization has established when it lets a request through.
pub record MemberContext (db : Directory) (view : View) (user : ℕ) (ctx : Context) : Type 0 where
  pub member : OrganizationMembership
  pub org : Organization
  pub set_membership : ctx.membership ≡ some member
  pub set_organization : ctx.organization ≡ some org
  pub set_role : ctx.org_role ≡ member.role
  pub own : member.user ≡ user
  pub active : member.is_active ≡ true
  pub listed : org_by_pk member.organization db.organizations ≡ some org
  pub live : (org.is_suspended && not view.allow_suspended_org) ≡ false

membership_for_own :
    (user : ℕ) (header : Option ℕ) (rows : List OrganizationMembership) (m : OrganizationMembership)
    → membership_for user header rows ≡ some m
    → (m.user ≡ user) × (m.is_active ≡ true)
unfolding membership_for
membership_for_own user none rows m h =
    ground
      (arith, find_sound (λ (m : OrganizationMembership). m.user == user && m.is_active) rows h)
membership_for_own user (some o) rows m h = ground (
  arith,
  find_sound
      (λ (m : OrganizationMembership). (m.user == user && m.is_active) && m.organization == o) rows
      h,
)

admit_user-MemberContext :
    (db : Directory) (view : View) (user : ℕ) (header : Option ℕ) (ctx : Context)
    → admit_user db view (membership_for user header db.memberships) ≡ allow ctx
    → MemberContext db view user ctx
unfolding admit_user admit_member guard_suspended
admit_user-MemberContext db view user header ctx h =
    go (membership_for user header db.memberships) refl h
  where
    org_case :
        (m : OrganizationMembership) (o : Option Organization)
        → (m.user ≡ user) × (m.is_active ≡ true)
        → org_by_pk m.organization db.organizations ≡ o
        → admit_member db view m o ≡ allow ctx
        → MemberContext db view user ctx
    org_case m none k e h = cc
    org_case m (some o) k e h = record {
      member = m;
      org = o;
      set_membership = ground arith;
      set_organization = ground arith;
      set_role = ground arith;
      own = k.0;
      active = k.1;
      listed = e;
      live = ground arith;
    }

    go :
        (m : Option OrganizationMembership)
        → membership_for user header db.memberships ≡ m
        → admit_user db view m ≡ allow ctx
        → MemberContext db view user ctx
    go none e h = cc
    go (some m) e h =
        org_case m (org_by_pk m.organization db.organizations)
          (membership_for_own user header db.memberships m e) refl h

check_required-allow :
    (user : ℕ) (c ctx : Context) (need : Option String)
    → check_required (db_user user false) c need ≡ allow ctx
    → (c ≡ ctx)
      × ((required : String)
          → need ≡ some required
          → role_has_permission ctx.org_role required ≡ true)
unfolding check_required
check_required-allow user c ctx none h = (ground arith, λ r e. cc)
check_required-allow user c ctx (some q) h = elim (Bool-cases (role_has_permission c.org_role q)) [
  | inl granted ↦ (let same : c ≡ ctx = ground arith in (same, λ r e. ground (arith, granted)))
  | inr refused ↦ absurd (ground arith)
]

-- What `HasOrgPermission` lets through for a database user who is no platform admin: the request
-- acts under an active membership of that user, in that membership's organization and with its
-- role, in an organization that is not suspended unless the view allows it; and the role has the
-- permission that the view requires, if it requires one.
pub has_org_permission_sound :
    (db : Directory) (view : View) (user : ℕ) (header : Option ℕ) (ctx : Context)
    → has_org_permission db view
        (record { user = db_user user false; organization_header = header })
      ≡ allow ctx
    → MemberContext db view user ctx
      × ((required : String)
          → view.required_permission ≡ some required
          → role_has_permission ctx.org_role required ≡ true)
unfolding has_org_permission has_organization is_platform_admin
has_org_permission_sound db view user header ctx h =
    go (admit_user db view (membership_for user header db.memberships)) refl h
  where
    go :
        (d : Decision)
        → admit_user db view (membership_for user header db.memberships) ≡ d
        → (elim d [
          | deny message ↦ deny message
          | allow c ↦ check_required (db_user user false) c view.required_permission
        ])
          ≡ allow ctx
        → MemberContext db view user ctx
          × ((required : String)
              → view.required_permission ≡ some required
              → role_has_permission ctx.org_role required ≡ true)
    go (deny m) e h = cc
    go (allow c) e h =
        let k = check_required-allow user c ctx view.required_permission h in
        (admit_user-MemberContext db view user header ctx (e ∙ ap allow k.0), k.1)
