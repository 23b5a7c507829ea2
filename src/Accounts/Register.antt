-- ===== src/Accounts/Register.antt =====
-- `RegisterSerializer` of accounts/serializers.py, `UserManager` of accounts/models.py, and
-- `RegisterView`. Hashing a password and `normalize_email` are Django's, and parameters. The fields
-- were checked by Django REST framework. Users are in the order of their keys.

pub mod Stored
pub mod Logins
use govahee.Prelude.{
  ℕ, String, Bool, true, false, ◌&&◌, ◌||◌, not, List, [], ◌∷◌, ◌++◌, Option, none, some, any, map,
  str_eq, truthy, if◌then◌else◌,
}
use govahee.Prelude.Text.{lower}
use govahee.Exec.{
  Exec, ok, err, validation, value_error, integrity_error, raise_if, pure, ◌>>=◌, ◌>>◌,
}
use govahee.Billing.State.{next_pk}
use govahee.Organizations.Models.{Organization}
use govahee.Organizations.Provision.{Registry, Owner, provision_organization}
use govahee.Accounts.Users.{User, or_none, display_name}
use govahee.Accounts.Login.{Site, Tokens, issue_tokens_for_user}

-- users beside the rest of the database
pub record Signup : Type 0 where
  pub site : Site
  pub registry : Registry

-- the validated fields; an optional one that is missing is the empty text
pub record RegisterData : Type 0 where
  pub full_name : String
  pub email : String
  pub phone : String
  pub password : String
  pub organization_name : String

-- `User.objects.filter(email=email).exists()`, and with the phone
abbrev pub same_text : String → Option String → Bool
same_text s none = false
same_text s (some t) = str_eq t s

abbrev pub email_exists : String → List User → Bool
email_exists email users = any (λ (u : User). same_text email u.email) users

abbrev pub phone_exists : String → List User → Bool
phone_exists phone users = any (λ (u : User). same_text phone u.phone) users

abbrev pub with_lower_email : RegisterData → RegisterData
with_lower_email d = record d { email = lower d.email }

-- `validate`
unfoldable pub validate : RegisterData → Exec Signup RegisterData
validate d s =
    let email = lower d.email in
    if not (truthy d.email) && not (truthy d.phone)
    then (err (validation "An address or a phone number is required."), s)
    else if truthy email && email_exists email s.site.users
    then (err (validation "This address is registered already."), s)
    else if truthy d.phone && phone_exists d.phone s.site.users
    then (err (validation "This phone number is registered already."), s)
    else (ok (with_lower_email d), s)

module _ (normalize_email make_password : String → String) where
  abbrev pub normalized : String → String
  normalized email = if truthy email then normalize_email email else ""

  unfoldable pub new_user : String → String → String → String → ℕ → User
  new_user email phone password full_name pk = record {
    id = pk;
    email = or_none (normalized email);
    phone = or_none phone;
    full_name = full_name;
    password = make_password password;
    is_active = true;
    is_platform_admin = false;
    failed_login_count = 0;
    locked_until = none;
    last_login_at = none;
  }

  -- the columns of a user that are unique
  abbrev pub is_taken : User → List User → Bool
  is_taken u users = any (λ (v : User). any_same u.email v.email || any_same u.phone v.phone) users
    where
      any_same : Option String → Option String → Bool
      any_same none t = false
      any_same (some s) t = same_text s t

  -- `create_user`
  unfoldable pub create_user : String → String → String → String → Exec Signup User
  create_user email phone password full_name s =
      let pk = next_pk (map (λ (u : User). u.id) s.site.users) in
      let u = new_user email phone password full_name pk in
      if not (truthy (normalized email)) && not (truthy phone)
      then (err value_error, s)
      else if is_taken u s.site.users
      then (err integrity_error, s)
      else (ok u, record s { site = record s.site { users = s.site.users ++ (u ∷ []) } })

  abbrev pub owner_of : User → Owner
  owner_of u = record { pk = u.id; label = display_name u }

  abbrev pub in_registry : {A : Type 0} → Exec Registry A → Exec Signup A
  in_registry m s = let r = m s.registry in (r.0, record s { registry = r.1 })

  -- the parameters of `provision_organization`
  module _ (slugify canvas : String → String) (order : List ℕ → List ℕ) where
    -- `create`
    unfoldable pub create : RegisterData → Exec Signup (User × Organization)
    create d = create_user d.email d.phone d.password d.full_name >>= λ u.
        in_registry (provision_organization slugify canvas order (owner_of u) d.organization_name)
        >>= λ org. pure (u, org)

    -- `RegisterView.post`: the tokens and the organization
    unfoldable pub register : RegisterData → Exec Signup (Tokens × Organization)
    register d = validate d >>= create >>= λ r. pure (issue_tokens_for_user r.0, r.1)
