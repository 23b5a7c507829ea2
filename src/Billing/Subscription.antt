-- ===== src/Billing/Subscription.antt =====
-- billing/subscription.py: the period of a plan and `apply_subscription_plan`.
pub mod Period
use govahee.Prelude.{
  ℕ, ◌+◌, ◌*◌, String, Bool, true, false, ◌&&◌, not, List, [], ◌∷◌, Option, none, some, ◌==◌, ltb,
  update, if◌then◌else◌,
}
use govahee.Exec.{Exec, Result, ok}
use govahee.Organizations.Models.{Organization}
use govahee.Billing.Models.{Plan, Subscription, SubscriptionStatus, is_yearly, allows}
use govahee.Billing.State.{Db, subscription_of, update_subscription}

abbrev pub day : ℕ
day = 86400

unfoldable pub period_delta : Plan → ℕ
period_delta plan = if is_yearly plan.interval then 365 * day else 30 * day

abbrev pub is_active : SubscriptionStatus → Bool
is_active SubscriptionStatus.active = true
is_active _ = false

-- The row of an organization that has none yet.
unfoldable pub new_subscription : ℕ → Plan → ℕ → Subscription
new_subscription org plan now = record {
  organization = org;
  plan = plan.id;
  status = SubscriptionStatus.active;
  started_at = now;
  current_period_end = now + period_delta plan;
  canceled_at = none;
}

-- `start`: the running period of the same plan is extended, any other period begins now
unfoldable pub period_start : Subscription → Plan → ℕ → ℕ
period_start sub plan now =
    if (is_active sub.status && ltb now sub.current_period_end) && sub.plan == plan.id
    then sub.current_period_end
    else now

-- The row as it is saved; `started_at` is never null, so it keeps its value.
unfoldable pub renewed : Subscription → Plan → ℕ → Subscription
renewed sub plan now = record sub {
  plan = plan.id;
  status = SubscriptionStatus.active;
  canceled_at = none;
  current_period_end = period_start sub plan now + period_delta plan;
}

-- `organization.api_enabled = True` and its save
unfoldable pub enable_api : Organization → Plan → List Organization → List Organization
enable_api org plan rows =
    if allows plan "api" && not org.api_enabled
    then update (λ o. o.id == org.id) (λ o. record o { api_enabled = true }) rows
    else rows

save_plan : Organization → Plan → Option Subscription → Exec Db Subscription
save_plan org plan none db =
    let sub = new_subscription org.id plan db.now in
    (ok sub, record db { subscriptions = sub ∷ db.subscriptions })
save_plan org plan (some sub) db = (
  ok (renewed sub plan db.now),
  record db {
    subscriptions = update_subscription org.id (λ s. renewed s plan db.now) db.subscriptions;
    organizations = enable_api org plan db.organizations;
  },
)

unfoldable pub apply_subscription_plan : Organization → Plan → Exec Db Subscription
unfolding save_plan
apply_subscription_plan org plan db =
    save_plan org plan (subscription_of org.id db.subscriptions) db
