-- ===== src/Organizations/Invitations.antt =====
-- `invite_member` of organizations/services.py. The token of the link that a mail carries is
-- Django's, so the texts of the mails are left out; whether one is sent does not matter to the
-- code, which ignores every error of the provider.
pub mod Limits
use govahee.Prelude.{
  ℕ, String, Bool, true, false, ◌&&◌, not, List, [], ◌∷◌, Option, none, some, ◌==◌, leb, str_eq,
  find, update, count, map, or_else, truthy, if◌then◌else◌,
}
use govahee.Prelude.Text.{strip, lower, decimal}
use Prim.Native.Char.{code}
use govahee.Exec.{Exec, ok, err, validation, value_error, pure, raise_if, modify, ◌>>=◌, ◌>>◌}
use govahee.Organizations.Models.{Organization, OrganizationMembership}
use govahee.Billing.State.{Db, next_pk}
use govahee.Billing.Entitlements.{get_entitlements, limit_of}

-- the columns of accounts.User that this code reads or writes
pub record User : Type 0 where
  pub id : ℕ
  pub email : Option String
  pub full_name : String
  pub has_password : Bool

-- the database over that of billing, and the addresses that mails were sent to
pub record Team : Type 0 where
  pub billing : Db
  pub users : List User
  pub memberships : List OrganizationMembership
  pub mails : List String

-- the actor's key, none of a principal that is no row, and `display_name()`
pub record Inviter : Type 0 where
  pub pk : Option ℕ
  pub label : String

-- `email.split("@")[0]`
unfoldable pub before_at : String → String
before_at String.[] = String.[]
before_at (String.◌∷◌ c s) =
    let rest = String.◌∷◌ c (before_at s) in if code c == 64 then String.[] else rest

-- `email__iexact`
abbrev pub same_email : String → Option String → Bool
same_email email none = false
same_email email (some e) = str_eq (lower e) (lower email)

abbrev pub has_email : String → User → Bool
has_email email u = same_email email u.email

-- `create_user` with no password
abbrev pub new_user : String → String → ℕ → User
new_user email full_name pk = record {
  id = pk;
  email = some email;
  full_name = or_else full_name (before_at email);
  has_password = false;
}

unfoldable pub add_user : String → String → Exec Team User
add_user email full_name t =
    let u = new_user email full_name (next_pk (map (λ (u : User). u.id) t.users)) in
    if truthy email then (ok u, record t { users = u ∷ t.users }) else (err value_error, t)

-- `User.objects.filter(email__iexact=email).first()`, or the new user
unfoldable pub user_for : String → String → Exec Team User
user_for email full_name t = elim (find (has_email email) t.users) [
  | some u ↦ (ok u, t)
  | none ↦ add_user email full_name t
]

-- the row of an organization and a user, which are unique together
abbrev pub is_member : ℕ → ℕ → OrganizationMembership → Bool
is_member org user m = m.organization == org && m.user == user

-- `.count()` of the active members
abbrev pub is_active_member : ℕ → OrganizationMembership → Bool
is_active_member org m = m.organization == org && m.is_active

unfoldable pub active_count : ℕ → List OrganizationMembership → ℕ
active_count org rows = count (is_active_member org) rows

-- the columns that the save of a former member writes
abbrev pub reactivated : String → OrganizationMembership → OrganizationMembership
reactivated role m = record m { role = role; is_active = true }

-- the `defaults` of `get_or_create`
unfoldable pub new_membership : ℕ → ℕ → String → ℕ → OrganizationMembership
new_membership org user role pk = record {
  id = pk;
  organization = org;
  user = user;
  role = role;
  is_active = true;
}

-- a membership that was there
unfoldable pub rejoin : String → OrganizationMembership → Exec Team OrganizationMembership
rejoin role m t =
    if m.is_active
    then (err (validation "This user is a member of the organization already."), t)
    else (
      ok (reactivated role m),
      record t {
        memberships = update (is_member m.organization m.user) (reactivated role) t.memberships;
      },
    )

unfoldable pub join_new : ℕ → ℕ → String → Exec Team OrganizationMembership
join_new org user role t =
    let pk = next_pk (map (λ (m : OrganizationMembership). m.id) t.memberships) in
    let m = new_membership org user role pk in (ok m, record t { memberships = m ∷ t.memberships })

-- `get_or_create`, and what follows for a membership that was there
unfoldable pub membership_for : ℕ → String → User → Exec Team OrganizationMembership
membership_for org role u t = elim (find (is_member org u.id) t.memberships) [
  | some m ↦ rejoin role m t
  | none ↦ join_new org u.id role t
]

-- the mail and the entry in the audit log
unfoldable pub announce_invitation :
    Organization
    → Inviter
    → String
    → String
    → OrganizationMembership
    → Exec Team OrganizationMembership
announce_invitation org actor email role m t = (
  ok m,
  record t {
    mails = email ∷ t.mails;
    billing = record t.billing {
      audit =
          record {
            organization = some org.id;
            actor = actor.pk;
            actor_label = actor.label;
            action = "user.invited";
            entity = "membership";
            entity_id = decimal m.id;
            metadata = ("email", email) ∷ ("role", role) ∷ [];
          }
          ∷ t.billing.audit;
    };
  },
)

-- `limit and active_count >= limit`
abbrev pub is_full : ℕ → ℕ → Bool
is_full limit active = not (limit == 0) && leb limit active

-- `int(entitlements.get("team_members") or 0)`
abbrev pub team_limit : ℕ → Db → ℕ
team_limit org db = limit_of "team_members" (get_entitlements org db)

-- once the two guards have passed
unfoldable pub invite_allowed :
    Organization → Inviter → String → String → String → Exec Team OrganizationMembership
invite_allowed org actor email role full_name = user_for email full_name >>= λ u.
    membership_for org.id role u >>= announce_invitation org actor email role

unfoldable pub guard_limit : ℕ → Exec Team (Unit {0})
guard_limit org t =
    raise_if (is_full (team_limit org t.billing) (active_count org t.memberships))
      (validation "The team of the current plan is full.") t

-- the steps after the address is normalised
unfoldable pub invite_steps :
    Organization → Inviter → String → String → String → Exec Team OrganizationMembership
invite_steps org actor email role full_name = do
  raise_if (str_eq role "owner") (validation "A new owner cannot be added by an invitation.")
  guard_limit org.id
  invite_allowed org actor email role full_name

-- `invite_member`
unfoldable pub invite_member :
    Organization → Inviter → String → String → String → Exec Team OrganizationMembership
invite_member org actor email role full_name =
    invite_steps org actor (lower (strip email)) role full_name
