-- ===== src/Access/Keys/Valid.antt =====
-- Which keys organizations/authentication.py lets in.
use govahee.Prelude.{
  ℕ, String, ◌≡◌, refl, ap, sym, inl, inr, Bool, true, false, not, List, [], ◌∷◌, ◌++◌, Option,
  none, some, is_some, arith, str_eq_iff, truthy, find, find_sound, Bool-cases,
}
use govahee.Prelude.Text.{strip}
use govahee.Access.Principal.{Principal, api_key_principal}
use govahee.Access.Keys.{
  StoredKey, starts_with, key_prefix, live_key, lookup_api_key, raw_key, Authentication,
  authenticated, touch, admit_if, admit_key, authenticate,
}

-- the row of the table that a principal stands for, and the tests that it has passed
pub record Admitted (hash : String → String) (raw : String) (rows : List StoredKey) (p : Principal)
    : Type 0 where
  pub row : StoredKey
  pub front : List StoredKey
  pub back : List StoredKey
  pub stored : rows ≡ front ++ (row ∷ back)
  pub principal : p ≡ api_key_principal row.key
  pub begins : starts_with key_prefix (strip raw) ≡ true
  pub hashed : row.hashed_key ≡ hash (strip raw)
  pub unrevoked : row.revoked_at ≡ none
  pub trading : row.key.organization.is_suspended ≡ false
  pub enabled : row.key.organization.api_enabled ≡ true

principal_or : Principal → Authentication → Principal
principal_or p (authenticated q) = q
principal_or p _ = p

-- what a search finds stands in the table
find-split :
    (test : StoredKey → Bool) (rows : List StoredKey) (row : StoredKey)
    → find test rows ≡ some row
    → (front : List StoredKey) × (back : List StoredKey) × (rows ≡ front ++ (row ∷ back))
find-split test [] row h = absurd (ground arith)
find-split test (r ∷ rs) row h = elim (Bool-cases (test r)) [
  | inl hit ↦ ([], rs, ap (λ (x : StoredKey). x ∷ rs) (ground (arith, rw (hit) at h)))
  | inr miss ↦
      let (front, back, e) = find-split test rs row (rw (miss) at h) in
      (r ∷ front, back, ap (λ (xs : List StoredKey). r ∷ xs) e)
]

lookup-live :
    (hash : String → String) (raw : String) (rows : List StoredKey) (row : StoredKey)
    → lookup_api_key hash raw rows ≡ some row
    → (starts_with key_prefix (strip raw) ≡ true)
      × (live_key (hash (strip raw)) row ≡ true)
      × (front : List StoredKey) × (back : List StoredKey) × (rows ≡ front ++ (row ∷ back))
unfolding lookup_api_key
lookup-live hash raw rows row h = elim (Bool-cases (starts_with key_prefix (strip raw))) [
  | inl begins ↦
      let found = rw (begins) at h in
      let (front, back, stored) = find-split (live_key (hash (strip raw))) rows row found in
      (begins, find_sound (live_key (hash (strip raw))) rows {x = row} found, front, back, stored)
  | inr other ↦ absurd (ground (arith, rw (other) at h))
]

unrevoked_of : (o : Option ℕ) → not (is_some o) ≡ true → o ≡ none
unrevoked_of none h = refl
unrevoked_of (some t) h = cc

admit_if-inv :
    (out on : Bool) (q p : Principal) (rows touched : List StoredKey)
    → (admit_if out on q rows touched).0 ≡ authenticated p
    → (out ≡ false) × (on ≡ true) × (p ≡ q)
unfolding principal_or admit_if
admit_if-inv true on q p rows touched h = absurd (ground arith)
admit_if-inv false false q p rows touched h = absurd (ground arith)
admit_if-inv false true q p rows touched h = (refl, refl, ap (principal_or p) (sym h))

admit_key-Admitted :
    (hash : String → String) (raw : String) (now : ℕ) (found : Option StoredKey)
    (rows : List StoredKey) (p : Principal)
    → lookup_api_key hash raw rows ≡ found
    → (admit_key now found rows).0 ≡ authenticated p
    → Admitted hash raw rows p
unfolding admit_key
admit_key-Admitted hash raw now none rows p e h = absurd (ground arith)
admit_key-Admitted hash raw now (some row) rows p e h =
    let (begins, live, front, back, stored) = lookup-live hash raw rows row e in
    let (trading, on, same) =
      admit_if-inv row.key.organization.is_suspended row.key.organization.api_enabled
        (api_key_principal row.key) p rows (touch now row rows) h in
    record {
      row = row;
      front = front;
      back = back;
      stored = stored;
      principal = same;
      begins = begins;
      hashed = ground (arith, live, str_eq_iff row.hashed_key (hash (strip raw)));
      unrevoked = unrevoked_of row.revoked_at (ground (arith, live));
      trading = trading;
      enabled = on;
    }

-- A request that is authenticated by a key brought a text with the prefix of keys whose hash is
-- that of a key of the table that is not revoked; the principal is that key's, and its organization
-- is not suspended and has its API enabled.
pub authenticate-Admitted :
    (hash : String → String) (now : ℕ) (header authorization : String) (rows : List StoredKey)
    (p : Principal)
    → (authenticate hash now header authorization rows).0 ≡ authenticated p
    → Admitted hash (raw_key header authorization) rows p
unfolding authenticate
authenticate-Admitted hash now header authorization rows p h =
    let raw = raw_key header authorization in
    elim (Bool-cases (truthy raw)) [
      | inl some_key ↦
          admit_key-Admitted hash raw now (lookup_api_key hash raw rows) rows p refl
            (rw (some_key) at h)
      | inr no_key ↦ absurd (ground (arith, rw (no_key) at h))
    ]
