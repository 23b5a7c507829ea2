-- ===== src/Billing/Entitlements.antt =====
-- billing/entitlements.py and billing/usage.py: what the plan of an organization lets it do, and
-- the counters of what it did this month.
use govahee.Prelude.{
  ℕ, ◌+◌, String, Bool, true, false, ◌&&◌, not, List, [], ◌∷◌, Option, none, some, is_some, ◌==◌,
  leb, str_eq, find, update, if◌then◌else◌,
}
use govahee.Prelude.Text.{get}
use govahee.Exec.{Exec, validation, modify, raise_if}
use govahee.Billing.Models.{
  Capabilities, null, flag, number, value_truth, Plan, Subscription, SubscriptionStatus,
  UsageCounter,
}
use govahee.Billing.State.{Db, subscription_of, plan_by_pk}

abbrev pub default_free_capabilities : Capabilities
default_free_capabilities =
    ("certificates_per_month", number 20)
    ∷ ("templates_max", number 3)
    ∷ ("bulk_issuance", flag false)
    ∷ ("branding", flag false)
    ∷ ("email", flag true)
    ∷ ("api", flag false)
    ∷ ("webhooks", flag false)
    ∷ ("analytics", flag false)
    ∷ ("white_label", flag false)
    ∷ ("team_members", number 1)
    ∷ []

-- `dict(plan.capabilities or DEFAULT_FREE_CAPABILITIES)`
abbrev pub capabilities_of : Plan → Capabilities
capabilities_of plan = elim (plan.capabilities) [ [] ↦ default_free_capabilities | c ∷ cs ↦ c ∷ cs ]

-- `sub.status in {ACTIVE, TRIAL}`
abbrev pub is_live : SubscriptionStatus → Bool
is_live SubscriptionStatus.active = true
is_live SubscriptionStatus.trial = true
is_live _ = false

-- the active plan with the code "free", or the built-in capabilities
unfoldable pub free_entitlements : List Plan → Capabilities
free_entitlements plans = elim (find (λ (p : Plan). str_eq p.code "free" && p.is_active) plans) [
  | none ↦ default_free_capabilities
  | some plan ↦ capabilities_of plan
]

-- the tests on the subscription, its plan being `plan`
unfoldable pub subscription_entitlements : ℕ → List Plan → Subscription → Option Plan → Capabilities
subscription_entitlements now plans sub none = free_entitlements plans
subscription_entitlements now plans sub (some plan) =
    if is_live sub.status && leb now sub.current_period_end
    then capabilities_of plan
    else free_entitlements plans

-- `get_entitlements`; `select_related("plan")` joins the plan's row
unfoldable pub get_entitlements : ℕ → Db → Capabilities
get_entitlements organization db = elim (subscription_of organization db.subscriptions) [
  | none ↦ free_entitlements db.plans
  | some sub ↦ subscription_entitlements db.now db.plans sub (plan_by_pk sub.plan db.plans)
]

-- `int(entitlements.get(key) or 0)`
unfoldable pub limit_of : String → Capabilities → ℕ
limit_of key entitlements = elim (get key entitlements) [
  | none ↦ 0
  | some null ↦ 0
  | some (flag b) ↦ if b then 1 else 0
  | some (number n) ↦ n
]

-- the row of an organization, a period and a key, which are unique together
abbrev pub is_counter : ℕ → String → String → UsageCounter → Bool
is_counter organization period key row =
    row.organization == organization && (str_eq row.period period && str_eq row.key key)

abbrev pub counter_value : Option UsageCounter → ℕ
counter_value none = 0
counter_value (some row) = row.value

-- `current_usage`
unfoldable pub current_usage : ℕ → String → Db → ℕ
current_usage organization key db =
    counter_value (find (is_counter organization db.period key) db.usage)

-- `assert_can_issue`
unfoldable pub assert_can_issue : ℕ → Exec Db (Unit {0})
assert_can_issue organization db =
    let limit = limit_of "certificates_per_month" (get_entitlements organization db) in
    raise_if (not (limit == 0) && leb limit (current_usage organization "certificates_issued" db))
      (validation "The certificates of this month are used up.") db

-- `assert_feature`
unfoldable pub assert_feature : ℕ → String → String → Exec Db (Unit {0})
assert_feature organization feature message db =
    raise_if
      (not (elim (get feature (get_entitlements organization db)) [
        | none ↦ false
        | some v ↦ value_truth v
      ]))
      (validation message) db

-- `value=F("value") + amount`
abbrev pub add_value : ℕ → UsageCounter → UsageCounter
add_value amount row = record row { value = row.value + amount }

-- the rows after `get_or_create` and the update
unfoldable pub increment_rows : ℕ → String → String → ℕ → List UsageCounter → List UsageCounter
increment_rows organization period key amount rows =
    if is_some (find (is_counter organization period key) rows)
    then update (is_counter organization period key) (add_value amount) rows
    else record { organization = organization; period = period; key = key; value = amount } ∷ rows

-- `increment_usage`
unfoldable pub increment_usage : ℕ → String → ℕ → Exec Db (Unit {0})
increment_usage organization key amount =
    modify λ db. record db { usage = increment_rows organization db.period key amount db.usage }
