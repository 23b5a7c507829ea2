-- ===== src/Billing/Usage.antt =====
-- The counters of billing/usage.py, and the limit that `assert_can_issue` of
-- billing/entitlements.py puts on them.
use govahee.Prelude.{
  ℕ, ◌+◌, ◌<◌, String, ◌≡◌, refl, ap, ◌↔◌, ◌⊎◌, inl, inr, true, false, ◌&&◌, List, some, arith,
  find, find_sound, find-update, find-update_other, Option-cases, ==_refl, str_eq_iff,
}
use govahee.Prelude.Text.{str_eq_refl}
use govahee.Exec.{ok}
use govahee.Billing.Models.{UsageCounter}
use govahee.Billing.State.{Db}
use govahee.Billing.Entitlements.{
  get_entitlements, limit_of, is_counter, counter_value, current_usage, assert_can_issue, add_value,
  increment_rows, increment_usage,
}

-- A counter test is kept by a change of the value.
is_counter-add :
    (o : ℕ) (period key : String) (amount : ℕ) (row : UsageCounter)
    → is_counter o period key (add_value amount row) ≡ is_counter o period key row
is_counter-add o period key amount row = refl

-- A row is the counter of one organization, period and key only.
is_counter_unique :
    (o o' : ℕ) (period key key' : String) (row : UsageCounter)
    → is_counter o period key row ≡ true
    → is_counter o' period key' row ≡ true
    → (o ≡ o') × (key ≡ key')
is_counter_unique o o' period key key' row h h' =
    ground (arith, str_eq_iff row.key key, str_eq_iff row.key key')

module _ (o : ℕ) (period key : String) (amount : ℕ) where
  increment_found :
      (rows : List UsageCounter) (row : UsageCounter)
      → find (is_counter o period key) rows ≡ some row
      → find (is_counter o period key) (increment_rows o period key amount rows)
        ≡ some (add_value amount row)
  unfolding increment_rows
  increment_found rows row h =
      let kept = find_sound (is_counter o period key) rows {x = row} h in
      let after = find-update (is_counter o period key) (add_value amount) rows {x = row} h kept in
      rw (h, after)

  -- the counter that is incremented
  pub increment_rows_self :
      (rows : List UsageCounter)
      → counter_value (find (is_counter o period key) (increment_rows o period key amount rows))
        ≡ counter_value (find (is_counter o period key) rows) + amount
  unfolding increment_rows
  increment_rows_self rows = elim (Option-cases (find (is_counter o period key) rows)) [
    | inl h ↦ rw (h, ==_refl o, str_eq_refl period, str_eq_refl key) (omega arith)
    | inr (row, h) ↦ rw (increment_found rows row h, h)
  ]

  module _ (o' : ℕ) (key' : String) (ne : o' ≡ o → ¬ (key' ≡ key)) where
    apart :
        (row : UsageCounter)
        → (is_counter o period key row && is_counter o' period key' row) ≡ false
    apart row = ground (arith, ne, str_eq_iff row.key key, str_eq_iff row.key key')

    new_apart :
        (v : ℕ)
        → is_counter o' period key'
            (record { organization = o; period = period; key = key; value = v })
          ≡ false
    new_apart v = ground (arith, ne, str_eq_iff key key')

    -- every other counter
    increment_rows_other :
        (rows : List UsageCounter)
        → find (is_counter o' period key') (increment_rows o period key amount rows)
          ≡ find (is_counter o' period key') rows
    unfolding increment_rows
    increment_rows_other rows =
        let frame =
          find-update_other (is_counter o period key) (is_counter o' period key') (add_value amount)
            (is_counter-add o' period key' amount) apart rows in
        elim (Option-cases (find (is_counter o period key) rows)) [
          | inl h ↦ rw (h, new_apart amount) refl
          | inr (row, h) ↦ elim (Option-cases (find (is_counter o' period key') rows)) [
            | inl h' ↦ rw (h, h', frame.1 h') refl
            | inr (row', h') ↦ rw (h, h', frame.0 row' h') refl
          ]
        ]

-- the usage that was incremented
pub increment_usage_self :
    (o : ℕ) (key : String) (amount : ℕ) (db : Db)
    → current_usage o key (increment_usage o key amount db).1 ≡ current_usage o key db + amount
unfolding current_usage increment_usage
increment_usage_self o key amount db = increment_rows_self o db.period key amount db.usage

-- `increment_usage` adds the amount to the usage of this month of the given organization and
-- key, whether or not the counter had a row, and does not change the usage of another
-- organization or of another key.
pub increment_usage-current_usage :
    (o : ℕ) (key : String) (amount : ℕ) (db : Db) (o' : ℕ) (key' : String)
    → (o' ≡ o → ¬ (key' ≡ key))
    → (current_usage o key (increment_usage o key amount db).1 ≡ current_usage o key db + amount)
      × (current_usage o' key' (increment_usage o key amount db).1 ≡ current_usage o' key' db)
unfolding current_usage increment_usage
increment_usage-current_usage o key amount db o' key' ne = (
  increment_usage_self o key amount db,
  ap counter_value (increment_rows_other o db.period key amount o' key' ne db.usage),
)

-- `assert_can_issue` lets an organization through just when its plan has no limit on the
-- certificates of a month or fewer were issued this month; it writes nothing.
pub assert_can_issue_iff :
    (o : ℕ) (db : Db)
    → ((assert_can_issue o db ≡ (ok tt, db)) ↔ (
        (limit_of "certificates_per_month" (get_entitlements o db) ≡ 0)
        ⊎ (current_usage o "certificates_issued" db
            < limit_of "certificates_per_month" (get_entitlements o db))))
      × ((assert_can_issue o db).1 ≡ db)
unfolding assert_can_issue
assert_can_issue_iff o db = ground arith
