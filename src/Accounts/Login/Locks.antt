-- ===== src/Accounts/Login/Locks.antt =====
-- The lock of accounts (accounts/models.py) under `LoginSerializer`: no login sets it.
use govahee.Prelude.{
  ℕ, ◌≡◌, ◌≤◌, refl, ap, String, Bool, true, false, not, List, [], ◌∷◌, Option, none, some, ◌==◌,
  arith, map, update, Bool-cases, inl, inr,
}
use govahee.Prelude.Text.{strip}
use govahee.Exec.{Result, ok, err}
use govahee.Accounts.Users.{User, is_locked}
use govahee.Accounts.Login.{
  Site, check_super_admin_login, user_of, logged_in, login_user, login_found, login_checked, login,
}

-- what a lock hangs on, user by user
abbrev pub locks : List User → List (ℕ × Option ℕ)
locks users = map (λ (u : User). (u.id, u.locked_until)) users

-- no count of failed logins is above what it was
abbrev pub NoneFailed : List User → List User → Type 0
NoneFailed [] after = Unit {0}
NoneFailed (u ∷ us) [] = Unit {0}
NoneFailed (u ∷ us) (v ∷ vs) = (v.failed_login_count ≤ u.failed_login_count) × NoneFailed us vs

NoneFailed-refl : (users : List User) → NoneFailed users users
NoneFailed-refl [] = tt
NoneFailed-refl (u ∷ us) = (omega arith, NoneFailed-refl us)

update-locks :
    (pk now : ℕ) (users : List User)
    → let after = update (λ (v : User). v.id == pk) (logged_in now) users in
      (locks after ≡ locks users) × NoneFailed users after
update-locks pk now [] = (refl, tt)
update-locks pk now (u ∷ us) =
    let ih = update-locks pk now us in
    elim (Bool-cases (u.id == pk)) [
      | inl here ↦ rw (here) (ap (◌∷◌ (u.id, u.locked_until)) ih.0, (omega arith, ih.1))
      | inr there ↦ rw (there) (ap (◌∷◌ (u.id, u.locked_until)) ih.0, (omega arith, ih.1))
    ]

-- the same users, as far as locks go
abbrev Unlocking : Site → Site → Type 0
Unlocking s t = (locks t.users ≡ locks s.users) × NoneFailed s.users t.users

Unlocking-refl : (s : Site) → Unlocking s s
Unlocking-refl s = (refl, NoneFailed-refl s.users)

module _ (check : User → String → Bool) (s : Site) where
  login_user-Unlocking :
      (password : String) (u : User) → Unlocking s (login_user check password u s).1
  unfolding login_user
  login_user-Unlocking password u = elim (Bool-cases (not (check u password))) [
    | inl wrong ↦ rw (wrong) (Unlocking-refl s)
    | inr right ↦ elim (Bool-cases (not u.is_active)) [
      | inl inactive ↦ rw (right, inactive) (Unlocking-refl s)
      | inr active ↦ elim (Bool-cases (is_locked s.now u)) [
        | inl locked ↦ rw (right, active, locked) (Unlocking-refl s)
        | inr open_ ↦ rw (right, active, open_) (update-locks u.id s.now s.users)
      ]
    ]
  ]

  login_found-Unlocking :
      (password : String) (found : Option User) → Unlocking s (login_found check password found s).1
  unfolding login_found
  login_found-Unlocking password none = Unlocking-refl s
  login_found-Unlocking password (some u) = login_user-Unlocking password u

  login_checked-Unlocking :
      (name password : String) (r : Result Bool)
      → Unlocking s (login_checked check name password r s).1
  unfolding login_checked
  login_checked-Unlocking name password (err e) = Unlocking-refl s
  login_checked-Unlocking name password (ok true) = Unlocking-refl s
  login_checked-Unlocking name password (ok false) =
      login_found-Unlocking password (user_of name s.users)

-- No login ever locks an account: whatever was entered, right or wrong, every user has the lock
-- that it had before, and no count of failed logins has grown.
pub login_never_locks :
    (check : User → String → Bool) (name password : String) (s : Site)
    → let t = (login check name password s).1 in
      (locks t.users ≡ locks s.users) × NoneFailed s.users t.users
unfolding login
login_never_locks check name password s =
    login_checked-Unlocking check s (strip name) password
      (check_super_admin_login s (strip name) password)
