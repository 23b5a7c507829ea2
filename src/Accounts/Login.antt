-- ===== src/Accounts/Login.antt =====
-- `LoginSerializer` of accounts/serializers.py, with the super admin of accounts/auth.py and the
-- roles that tokens carry. Signing tokens is simplejwt's: a token is what stands in it.
pub mod Sound
pub mod Locks
use govahee.Prelude.{
  ℕ, String, Bool, true, false, ◌&&◌, not, List, [], ◌∷◌, Option, none, some, ◌==◌, ltb, str_eq,
  find, update, truthy, if◌then◌else◌,
}
use Prim.Native.Char.{code}
use govahee.Prelude.Text.{strip}
use govahee.Exec.{Exec, Result, ok, err, validation, type_error}
use govahee.Accounts.Users.{User, has_email, has_phone, is_locked}
use govahee.Certificates.Bulk.{has_char}

-- the settings SUPER_ADMIN_USERNAME and SUPER_ADMIN_PASSWORD, `timezone.now()`, and the users,
-- in the order of their keys
pub record Site : Type 0 where
  pub super_admin_username : String
  pub super_admin_password : String
  pub now : ℕ
  pub users : List User

pub data Role : Type 0 where
  platform_admin member : Role

-- whose the tokens are: a user's, or the super admin's with its name
pub data Holder : Type 0 where
  user : ℕ → Holder
  super_admin : String → Holder

pub record Tokens : Type 0 where
  pub holder : Holder
  pub role : Role

-- `super_admin_credentials_configured`
abbrev pub credentials_configured : Site → Bool
credentials_configured s = truthy s.super_admin_username && truthy s.super_admin_password

unfoldable pub is_ascii : String → Bool
is_ascii String.[] = true
is_ascii (String.◌∷◌ c s) = ltb (code c) 128 && is_ascii s

-- `secrets.compare_digest`, which takes texts of ASCII characters only
unfoldable pub compare_digest : String → String → Result Bool
compare_digest a b = if is_ascii a && is_ascii b then ok (str_eq a b) else err type_error

-- `a and compare_digest(...)`
abbrev pub and_then : Result Bool → Result Bool → Result Bool
and_then (err e) more = err e
and_then (ok true) more = more
and_then (ok false) more = ok false

-- `check_super_admin_login`
unfoldable pub check_super_admin_login : Site → String → String → Result Bool
check_super_admin_login s login password =
    if credentials_configured s
    then and_then (compare_digest login s.super_admin_username)
        (compare_digest password s.super_admin_password)
    else ok false

-- the user of a login
unfoldable pub user_of : String → List User → Option User
user_of login users =
    if has_char 64 login then find (has_email login) users else find (has_phone login) users

abbrev pub role_of : User → Role
role_of u = if u.is_platform_admin then platform_admin else member

-- `issue_tokens_for_user`
abbrev pub issue_tokens_for_user : User → Tokens
issue_tokens_for_user u = record { holder = user u.id; role = role_of u }

-- the columns that a login saves
abbrev pub logged_in : ℕ → User → User
logged_in now u = record u { failed_login_count = 0; last_login_at = some now }

abbrev pub refuse : String → Exec Site Tokens
refuse message s = (err (validation message), s)

-- `check` is `user.check_password`
module _ (check : User → String → Bool) where
  -- the tests on a user that was found
  unfoldable pub login_user : String → User → Exec Site Tokens
  login_user password u s =
      if not (check u password)
      then refuse "The login or the password is wrong." s
      else if not u.is_active
      then refuse "The account is not active." s
      else if is_locked s.now u
      then refuse "The account is locked. Try again later." s
      else (
        ok (issue_tokens_for_user u),
        record s { users = update (λ (v : User). v.id == u.id) (logged_in s.now) s.users },
      )

  unfoldable pub login_found : String → Option User → Exec Site Tokens
  login_found password none s = refuse "The login or the password is wrong." s
  login_found password (some u) s = login_user password u s

  unfoldable pub login_checked : String → String → Result Bool → Exec Site Tokens
  login_checked login password (err e) s = (err e, s)
  login_checked login password (ok true) s =
      (ok (record { holder = super_admin login; role = platform_admin }), s)
  login_checked login password (ok false) s = login_found password (user_of login s.users) s

  -- `LoginSerializer.validate`
  unfoldable pub login : String → String → Exec Site Tokens
  login name password s =
      login_checked (strip name) password (check_super_admin_login s (strip name) password) s
