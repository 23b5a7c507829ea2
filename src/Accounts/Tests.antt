-- ===== src/Accounts/Tests.antt =====
-- Runs of logging in and of registering, and their theorems at concrete inputs.
use govahee.Prelude.{
  ◌≡◌, refl, ℕ, List, Bool, String, true, false, [], ◌∷◌, none, some, all, arith, str_eq_iff,
  str_eq,
}
use govahee.Prelude.Text.{strip, lower, is_space}
use govahee.Exec.{ok, err, type_error}
use govahee.Certificates.Bulk.{has_char}
use govahee.Accounts.Users.{User, is_locked}
use govahee.Accounts.Login.{
  Site, Tokens, user, member, is_ascii, compare_digest, check_super_admin_login, user_of,
  login_user, login_found, login_checked, login,
}
use govahee.Accounts.Login.Sound.{Entitled, login_sound}
use govahee.Billing.Tests.Fixtures.{unsubscribed}
use govahee.Billing.Plans.{ensure_trial_subscription, seed_plan, seed_plans, start_trial}
use govahee.Certificates.Templates.{add_template, create_version, save_template}
use govahee.Organizations.Models.{Organization}
use govahee.Organizations.Slugs.{unique_slug, next_free}
use govahee.Organizations.Provision.{
  new_organization, create_organization, create_parts, seed_sheet, seed_sheets, seed_org_templates,
  seed_org_types, log_created, provision_organization,
}
use govahee.Accounts.Register.{
  Signup, RegisterData, validate, new_user, create_user, create, register,
}
use govahee.Accounts.Register.Logins.{is_lower_email, register-login}
use govahee.Accounts.Login.Locks.{locks, NoneFailed, login_never_locks}

abbrev sara : User
sara = record {
  id = 3;
  email = some "sara@example.org";
  phone = none;
  full_name = "Sara";
  password = "hash";
  is_active = true;
  is_platform_admin = false;
  failed_login_count = 2;
  locked_until = some 500;
  last_login_at = none;
}

abbrev office : Site
office = record {
  super_admin_username = "";
  super_admin_password = "";
  now = 1000;
  users = sara ∷ [];
}

abbrev check : User → String → Bool
check u password = str_eq password "secret"

abbrev tokens : Tokens
tokens = record { holder = user 3; role = member }

abbrev logged : Site
logged = record office {
  users = record sara { failed_login_count = 0; last_login_at = some 1000 } ∷ [];
}

-- Her lock is over, and she logs in.
sara_logs_in : login check "Sara@example.org" "secret" office ≡ (ok tokens, logged)
unfolding login login_checked login_found login_user check_super_admin_login user_of has_char
    is_locked strip is_space lower
sara_logs_in = refl

login_sound_example : Entitled check office (strip "Sara@example.org") "secret" tokens
login_sound_example =
    login_sound check "Sara@example.org" "secret" office tokens logged sara_logs_in

-- A wrong password
login_never_locks_example :
    (locks (login check "sara@example.org" "guess" office).1.users ≡ locks office.users)
    × NoneFailed office.users (login check "sara@example.org" "guess" office).1.users
login_never_locks_example = login_never_locks check "sara@example.org" "guess" office

-- A login in Persian digits, where the super admin is configured, is an error of the server.
login_raises :
    (login check "۰" "secret"
      (record office { super_admin_username = "admin"; super_admin_password = "admin" })).0
    ≡ err type_error
unfolding login login_checked check_super_admin_login compare_digest is_ascii strip is_space
login_raises = refl

abbrev form : RegisterData
form = record {
  full_name = "Ali";
  email = "Ali@Example.org";
  phone = "";
  password = "secret";
  organization_name = "School";
}

abbrev start : Signup
start = record {
  site = office;
  registry = record {
    billing = unsubscribed;
    memberships = [];
    brandings = [];
    profiles = [];
    mail_templates = [];
    library = record { templates = []; versions = []; certificates = []; batch_templates = [] };
    types = [];
  };
}

abbrev hash : String → String
hash password = password

abbrev same : String → String
same s = s

abbrev in_order : List ℕ → List ℕ
in_order pks = pks

abbrev matches : User → String → Bool
matches u password = str_eq u.password password

abbrev tokens_of_ali : Tokens
tokens_of_ali = record { holder = user 4; role = member }

abbrev school : Organization
school = new_organization 8 "School" "School"

ali_registers :
    register same hash same same in_order form start
    ≡ (ok (tokens_of_ali, school), (register same hash same same in_order form start).1)
unfolding register validate create create_user new_user lower provision_organization
    new_organization create_organization unique_slug next_free create_parts
    ensure_trial_subscription seed_plans seed_plan start_trial seed_org_templates seed_sheets
    seed_sheet add_template create_version save_template seed_org_types log_created
ali_registers = refl

hash_is_matched : (u : User) → u.password ≡ hash form.password → matches u form.password ≡ true
hash_is_matched u h = ground (arith, str_eq_iff u.password form.password)

lower_ali : same (lower form.email) ≡ lower form.email
lower_ali = refl

lower_sara : all is_lower_email start.site.users ≡ true
unfolding lower
lower_sara = refl

ali_typed : lower (strip " ALI@example.org") ≡ lower form.email
unfolding lower strip is_space
ali_typed = refl

ali_at : has_char 64 (strip " ALI@example.org") ≡ true
unfolding has_char strip is_space
ali_at = refl

no_admin :
    check_super_admin_login
      (register same hash same same in_order form start).1.site
      (strip " ALI@example.org")
      form.password
    ≡ ok false
unfolding check_super_admin_login register validate create create_user new_user lower
    provision_organization new_organization create_organization unique_slug next_free create_parts
    ensure_trial_subscription seed_plans seed_plan start_trial seed_org_templates seed_sheets
    seed_sheet add_template create_version save_template seed_org_types log_created
no_admin = refl

register-login_example :
    (login matches " ALI@example.org" form.password
      (register same hash same same in_order form start).1.site).0
    ≡ ok tokens_of_ali
register-login_example =
    register-login same hash same same in_order matches form " ALI@example.org" start
      (register same hash same same in_order form start).1 tokens_of_ali school hash_is_matched
      lower_ali lower_sara refl ali_typed ali_at no_admin ali_registers
