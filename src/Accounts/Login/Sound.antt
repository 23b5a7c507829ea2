-- ===== src/Accounts/Login/Sound.antt =====
-- Whom `LoginSerializer` of accounts/serializers.py gives tokens.
use govahee.Prelude.{
  ◌≡◌, refl, ◌⊎◌, inl, inr, String, Bool, true, false, Option, none, some, arith, str_eq_iff,
  Bool-cases,
}
use govahee.Prelude.Text.{strip}
use govahee.Exec.{Result, ok, err}
use govahee.Accounts.Users.{User, is_locked}
use govahee.Accounts.Login.{
  Site, platform_admin, super_admin, Tokens, credentials_configured, compare_digest, and_then,
  check_super_admin_login, user_of, issue_tokens_for_user, login_user, login_found, login_checked,
  login,
}

-- the credentials of the super admin are configured, and these are they
abbrev pub IsSuperAdmin : Site → String → String → Type 0
IsSuperAdmin s name password =
    (credentials_configured s ≡ true)
    × (name ≡ s.super_admin_username)
    × (password ≡ s.super_admin_password)

-- the user of this login may log in
abbrev pub MayLogIn : (User → String → Bool) → Site → String → String → User → Type 0
MayLogIn check s name password u =
    (user_of name s.users ≡ some u)
    × (check u password ≡ true)
    × (u.is_active ≡ true)
    × (is_locked s.now u ≡ false)

compare_digest_sound : (a b : String) → compare_digest a b ≡ ok true → a ≡ b
unfolding compare_digest
compare_digest_sound a b h = ground (arith, str_eq_iff a b)

and_then-true : (a b : Result Bool) → and_then a b ≡ ok true → (a ≡ ok true) × (b ≡ ok true)
and_then-true (err e) b h = absurd (ground arith)
and_then-true (ok true) b h = (refl, h)
and_then-true (ok false) b h = absurd (ground arith)

check_super_admin_login_sound :
    (s : Site) (name password : String)
    → check_super_admin_login s name password ≡ ok true
    → IsSuperAdmin s name password
unfolding check_super_admin_login
check_super_admin_login_sound s name password h = elim (Bool-cases (credentials_configured s)) [
  | inl set ↦
      let both =
        and_then-true (compare_digest name s.super_admin_username)
          (compare_digest password s.super_admin_password) (rw (set) at h) in
      (
        set,
        compare_digest_sound name s.super_admin_username both.0,
        compare_digest_sound password s.super_admin_password both.1,
      )
  | inr unset ↦ absurd (ground (arith, rw (unset) at h))
]

module _ (check : User → String → Bool) (s : Site) (name password : String) where
  -- tokens of the super admin or of a user that may log in
  abbrev pub Entitled : Tokens → Type 0
  Entitled tokens =
      (IsSuperAdmin s name password
        × (tokens ≡ record { holder = super_admin name; role = platform_admin }))
      ⊎ ((u : User) × MayLogIn check s name password u × (tokens ≡ issue_tokens_for_user u))

  login_user-Entitled :
      (u : User) (tokens : Tokens) (t : Site)
      → user_of name s.users ≡ some u
      → login_user check password u s ≡ (ok tokens, t)
      → Entitled tokens
  unfolding login_user
  login_user-Entitled u tokens t found h = elim (Bool-cases (check u password)) [
    | inr wrong ↦ absurd (ground (arith, wrong))
    | inl right ↦ elim (Bool-cases u.is_active) [
      | inr inactive ↦ absurd (ground (arith, right, inactive))
      | inl active ↦ elim (Bool-cases (is_locked s.now u)) [
        | inl locked ↦ absurd (ground (arith, right, active, locked))
        | inr open_ ↦ inr (u, (found, right, active, open_), ground (arith, right, active, open_))
      ]
    ]
  ]

  login_found-Entitled :
      (found : Option User) (tokens : Tokens) (t : Site)
      → user_of name s.users ≡ found
      → login_found check password found s ≡ (ok tokens, t)
      → Entitled tokens
  unfolding login_found
  login_found-Entitled none tokens t e h = absurd (ground arith)
  login_found-Entitled (some u) tokens t e h = login_user-Entitled u tokens t e h

  login_checked-Entitled :
      (r : Result Bool) (tokens : Tokens) (t : Site)
      → check_super_admin_login s name password ≡ r
      → login_checked check name password r s ≡ (ok tokens, t)
      → Entitled tokens
  unfolding login_checked
  login_checked-Entitled (err e) tokens t same h = absurd (ground arith)
  login_checked-Entitled (ok true) tokens t same h =
      inl (check_super_admin_login_sound s name password same, ground arith)
  login_checked-Entitled (ok false) tokens t same h =
      login_found-Entitled (user_of name s.users) tokens t refl h

-- Tokens are given only to the super admin, whose name and password are configured and were
-- entered, or to the user of the login, with the right password, active and not locked; only the
-- super admin and a user who is a platform admin get the role of one.
pub login_sound :
    (check : User → String → Bool) (name password : String) (s : Site) (tokens : Tokens) (t : Site)
    → login check name password s ≡ (ok tokens, t)
    → Entitled check s (strip name) password tokens
unfolding login
login_sound check name password s tokens t h =
    login_checked-Entitled check s (strip name) password
      (check_super_admin_login s (strip name) password) tokens t refl h
