-- ===== src/Accounts/Register/Logins.antt =====
-- A user who registered (accounts/serializers.py) logs in.
use mathlib.Core.Path.{subst}
use govahee.Prelude.{
  ℕ, ◌≡◌, refl, sym, ap, ◌∙◌, inl, inr, String, Bool, true, false, List, [], ◌∷◌, ◌++◌, Option,
  none, some, arith, all, find, map, truthy, str_eq, str_eq_iff, Bool-cases, if◌then◌else◌,
}
use govahee.Prelude.Text.{lower, lower-lower, strip, str_eq_refl}
use govahee.Exec.{ok}
use govahee.Billing.State.{next_pk}
use govahee.Organizations.Models.{Organization}
use govahee.Certificates.Bulk.{has_char}
use govahee.Accounts.Users.{User, has_email, is_locked}
use govahee.Accounts.Login.{
  Site, Tokens, issue_tokens_for_user, check_super_admin_login, user_of, login_user, login_found,
  login_checked, login,
}
use govahee.Accounts.Register.Stored.{truthy-lower, register-Appended}
use govahee.Accounts.Register.{Signup, RegisterData, same_text, email_exists, new_user, register}

-- Stored addresses are in lower case, as `validate` and `invite_member` write them.
abbrev pub is_lower_email : User → Bool
is_lower_email u = elim u.email [ none ↦ true | some e ↦ str_eq e (lower e) ]

-- an address that no user has, in whatever case it is written
absent_email :
    (email : String) (users : List User)
    → all is_lower_email users ≡ true
    → email_exists (lower email) users ≡ false
    → find (has_email email) users ≡ none
absent_email email [] h k = refl
absent_email email (u ∷ us) h k =
    let ih = absent_email email us (ground (arith, h)) (ground (arith, k)) in
    no_email u.email (ground (arith, h)) (ground (arith, k)) ih
  where
    no_email :
        {rest : Option User} (e : Option String)
        → (elim e [ none ↦ true | some t ↦ str_eq t (lower t) ]) ≡ true
        → same_text (lower email) e ≡ false
        → rest ≡ none
        → (if (elim e [ none ↦ false | some t ↦ str_eq (lower t) (lower email) ])
            then some u
            else rest)
          ≡ none
    no_email none h k ih = ih
    no_email (some t) h k ih =
        let same = (str_eq_iff t (lower t)).1 in
        ground (
          arith,
          str_eq_iff t (lower t),
          str_eq_iff (lower t) (lower email),
          str_eq_iff t (lower email),
          h,
          k,
          ih,
        )

find-append_absent :
    (test : User → Bool) (front : List User) (u : User)
    → find test front ≡ none
    → test u ≡ true
    → find test (front ++ (u ∷ [])) ≡ some u
find-append_absent test [] u h k = ground (arith, k)
find-append_absent test (v ∷ vs) u h k = elim (Bool-cases (test v)) [
  | inl hit ↦ absurd (ground (arith, hit))
  | inr miss ↦ rw (miss) (find-append_absent test vs u (ground (arith, miss)) k)
]

-- the user that was made may log in with the password
login-new_user :
    (normalize_email make_password : String → String) (check : User → String → Bool)
    (email phone password full_name : String) (pk : ℕ) (s : Site)
    → let u = new_user normalize_email make_password email phone password full_name pk in
      check u password ≡ true → (login_user check password u s).0 ≡ ok (issue_tokens_for_user u)
unfolding login_user new_user is_locked
login-new_user normalize_email make_password check email phone password full_name pk s right =
    rw (right) refl

-- the address that is stored
stored_email :
    (normalize_email make_password : String → String) (email phone password full_name : String)
    (pk : ℕ)
    → truthy email ≡ true
    → normalize_email email ≡ email
    → (new_user normalize_email make_password email phone password full_name pk).email ≡ some email
unfolding new_user
stored_email normalize_email make_password email phone password full_name pk given same =
    rw (given, same, given) refl

found_email :
    (name email : String) (u : User)
    → u.email ≡ some (lower email)
    → lower name ≡ lower email
    → has_email name u ≡ true
found_email name email u stored same =
    rw (stored, same, lower-lower email) (str_eq_refl (lower email))

-- Whoever registers with an address logs in with it: after a registration that returns, a login
-- with that address, in whatever case it is written and with spaces around it, and with the
-- password gives the tokens that the registration gave. This is so where the addresses that were
-- stored before are in lower case, the check of a password accepts what was hashed, normalizing
-- leaves the lower case as it is, and the login is not the super admin's.
pub register-login :
    (normalize_email make_password slugify canvas : String → String) (order : List ℕ → List ℕ)
    (check : User → String → Bool) (d : RegisterData) (name : String) (s t : Signup)
    (tokens : Tokens) (org : Organization)
    → ((u : User) → u.password ≡ make_password d.password → check u d.password ≡ true)
    → normalize_email (lower d.email) ≡ lower d.email
    → all is_lower_email s.site.users ≡ true
    → truthy d.email ≡ true
    → lower (strip name) ≡ lower d.email
    → has_char 64 (strip name) ≡ true
    → check_super_admin_login t.site (strip name) d.password ≡ ok false
    → register normalize_email make_password slugify canvas order d s ≡ (ok (tokens, org), t)
    → (login check name d.password t.site).0 ≡ ok tokens
unfolding login login_checked login_found user_of new_user
register-login normalize_email make_password slugify canvas order check d name s t tokens org checks
      normal lowered given same at no_admin h =
    let (free, u, answer, (built, site)) =
      register-Appended normalize_email make_password slugify canvas order d s t tokens org given
        h in
    let pk = next_pk (map (λ (v : User). v.id) s.site.users) in
    let email = lower d.email in
    let stored : u.email ≡ some email =
      ap (λ (v : User). v.email) built
      ∙ stored_email normalize_email make_password email d.phone d.password d.full_name pk
          (truthy-lower d.email ∙ given) normal in
    let absent = absent_email (strip name) s.site.users lowered (rw (same) free) in
    let found : find (has_email (strip name)) (s.site.users ++ (u ∷ [])) ≡ some u =
      find-append_absent (has_email (strip name)) s.site.users u absent
        (found_email (strip name) d.email u stored same) in
    let in_t : find (has_email (strip name)) t.site.users ≡ some u =
      ap (λ (x : Site). find (has_email (strip name)) x.users) site ∙ found in
    let logged : (login_user check d.password u t.site).0 ≡ ok (issue_tokens_for_user u) =
      subst (λ v. (login_user check d.password v t.site).0 ≡ ok (issue_tokens_for_user v))
        (sym built)
        (login-new_user normalize_email make_password check email d.phone d.password d.full_name pk
          t.site
          (checks (new_user normalize_email make_password email d.phone d.password d.full_name pk)
            refl)) in
    rw (no_admin, at, in_t, answer) logged
