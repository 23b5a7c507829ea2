-- ===== src/Accounts/Users.antt =====
-- accounts/models.py: users, and the parts of Django's user model that the code calls. A password
-- is stored as its hash; hashing and the check are parameters.
use govahee.Prelude.{
  ℕ, String, Bool, false, Option, none, some, ltb, str_eq, or_else, truthy, if◌then◌else◌,
}
use govahee.Prelude.Text.{lower}

pub record User : Type 0 where
  pub id : ℕ
  pub email : Option String
  pub phone : Option String
  pub full_name : String
  pub password : String
  pub is_active : Bool
  pub is_platform_admin : Bool
  pub failed_login_count : ℕ
  pub locked_until : Option ℕ
  pub last_login_at : Option ℕ

abbrev pub text_or_empty : Option String → String
text_or_empty none = ""
text_or_empty (some s) = s

-- `display_name`
abbrev pub display_name : User → String
display_name u = or_else u.full_name (or_else (text_or_empty u.email) (text_or_empty u.phone))

-- `is_locked`, at the time `now`
unfoldable pub is_locked : ℕ → User → Bool
is_locked now u = elim u.locked_until [ none ↦ false | some t ↦ ltb now t ]

-- `email__iexact=login`
abbrev pub has_email : String → User → Bool
has_email login u = elim u.email [ none ↦ false | some e ↦ str_eq (lower e) (lower login) ]

-- `phone=login`
abbrev pub has_phone : String → User → Bool
has_phone login u = elim u.phone [ none ↦ false | some p ↦ str_eq p login ]

-- `value or None`
abbrev pub or_none : String → Option String
or_none s = if truthy s then some s else none
