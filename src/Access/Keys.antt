-- ===== src/Access/Keys.antt =====
-- organizations/api_keys.py and organizations/authentication.py: how the key that a request brings
-- becomes its principal. The SHA-256 of a text, `hash_api_key`, is an argument.
pub mod Valid
use govahee.Prelude.{
  ℕ, ◌+◌, String, Bool, true, false, ◌&&◌, not, List, Option, none, some, is_some, ◌==◌, ltb,
  str_eq, truthy, find, update, if◌then◌else◌,
}
use govahee.Prelude.Text.{strip, lower, is_space, lstrip}
use govahee.Organizations.Models.{Organization, ApiKey}
use govahee.Access.Principal.{Principal, api_key_principal}

-- a row of `ApiKey`: the columns that authentication reads and writes, around what the principal has
pub record StoredKey : Type 0 where
  pub id : ℕ
  pub key : ApiKey
  pub hashed_key : String
  pub last_used_at : Option ℕ
  pub revoked_at : Option ℕ

-- `s.startswith(start)`
unfoldable pub starts_with : String → String → Bool
starts_with String.[] s = true
starts_with (String.◌∷◌ c t) String.[] = false
starts_with (String.◌∷◌ c t) (String.◌∷◌ d s) =
    let rest = starts_with t s in
    if str_eq (String.◌∷◌ c String.[]) (String.◌∷◌ d String.[]) then rest else false

abbrev pub key_prefix : String
key_prefix = "gvh_"

-- the key with this hash that is not revoked
abbrev pub live_key : String → StoredKey → Bool
live_key hashed row = str_eq row.hashed_key hashed && not (is_some row.revoked_at)

-- `lookup_api_key`
unfoldable pub lookup_api_key : (String → String) → String → List StoredKey → Option StoredKey
lookup_api_key hash raw rows =
    let found = find (live_key (hash (strip raw))) rows in
    if starts_with key_prefix (strip raw) then found else none

after_word : String → String
after_word String.[] = String.[]
after_word (String.◌∷◌ c s) = let rest = after_word s in if is_space c then lstrip s else rest

-- the key of the header X-Api-Key, or of `Authorization: Bearer gvh_...`
unfoldable pub raw_key : String → String → String
unfolding after_word
raw_key header authorization =
    if truthy header
    then header
    else if starts_with "bearer gvh_" (lower authorization)
    then after_word (lstrip authorization)
    else header

pub data Refusal : Type 0 where
  invalid_key suspended api_disabled : Refusal

pub data Authentication : Type 0 where
  anonymous : Authentication
  authenticated : Principal → Authentication
  refused : Refusal → Authentication

-- `not key.last_used_at or now - key.last_used_at > timedelta(seconds=30)`
abbrev pub is_stale : ℕ → Option ℕ → Bool
is_stale now none = true
is_stale now (some used) = ltb (used + 30) now

unfoldable pub touch : ℕ → StoredKey → List StoredKey → List StoredKey
touch now row rows =
    if is_stale now row.last_used_at
    then update (λ r. r.id == row.id) (λ r. record r { last_used_at = some now }) rows
    else rows

-- the tests on the organization, whether it is suspended and whether its API is enabled
unfoldable pub admit_if :
    Bool → Bool → Principal → List StoredKey → List StoredKey → Authentication × List StoredKey
admit_if is_suspended api_enabled principal rows touched =
    if is_suspended
    then (refused suspended, rows)
    else if not api_enabled
    then (refused api_disabled, rows)
    else (authenticated principal, touched)

-- what follows the lookup of the key
unfoldable pub admit_key : ℕ → Option StoredKey → List StoredKey → Authentication × List StoredKey
admit_key now none rows = (refused invalid_key, rows)
admit_key now (some row) rows =
    admit_if row.key.organization.is_suspended row.key.organization.api_enabled
      (api_key_principal row.key) rows (touch now row rows)

-- `ApiKeyAuthentication.authenticate`
unfoldable pub authenticate :
    (String → String) → ℕ → String → String → List StoredKey → Authentication × List StoredKey
authenticate hash now header authorization rows =
    let raw = raw_key header authorization in
    if truthy raw then admit_key now (lookup_api_key hash raw rows) rows else (anonymous, rows)
