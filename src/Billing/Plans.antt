-- ===== src/Billing/Plans.antt =====
-- billing/plans.py: the plans of the product, and the trial that a new organization starts with.
-- The Persian names of the plans stand in English.
pub mod Trial
use govahee.Prelude.{
  ℕ, ◌+◌, ◌*◌, String, Bool, true, false, List, [], ◌∷◌, Option, none, some, ◌==◌, str_eq, map,
  update, if◌then◌else◌,
}
use govahee.Exec.{Exec, Result, ok, err, does_not_exist}
use govahee.Billing.Models.{
  Capabilities, flag, number, Interval, monthly, Plan, Subscription, SubscriptionStatus,
}
use govahee.Billing.State.{Db, next_pk, subscription_of, plan_by_code}
use govahee.Billing.Subscription.{day}

-- an item of `DEFAULT_PLANS`
pub record PlanItem : Type 0 where
  pub code : String
  pub name : String
  pub name_fa : String
  pub interval : Interval
  pub price_toman : ℕ
  pub sort_order : ℕ
  pub capabilities : Capabilities

abbrev capabilities : ℕ → ℕ → Bool → Bool → Bool → Bool → ℕ → Capabilities
capabilities certificates templates bulk branding api white_label team =
    ("certificates_per_month", number certificates)
    ∷ ("templates_max", number templates)
    ∷ ("bulk_issuance", flag bulk)
    ∷ ("branding", flag branding)
    ∷ ("email", flag true)
    ∷ ("api", flag api)
    ∷ ("webhooks", flag api)
    ∷ ("analytics", flag true)
    ∷ ("white_label", flag white_label)
    ∷ ("team_members", number team)
    ∷ []

abbrev pub free_item : PlanItem
free_item = record {
  code = "free";
  name = "Free";
  name_fa = "Free";
  interval = monthly;
  price_toman = 0;
  sort_order = 0;
  capabilities = capabilities 20 3 false false false false 1;
}

abbrev pub paid_items : List PlanItem
paid_items =
    record {
      code = "starter";
      name = "Starter";
      name_fa = "Starter";
      interval = monthly;
      price_toman = 390000;
      sort_order = 1;
      capabilities = capabilities 200 10 true true false false 3;
    }
    ∷ record {
      code = "professional";
      name = "Professional";
      name_fa = "Professional";
      interval = monthly;
      price_toman = 890000;
      sort_order = 2;
      capabilities = capabilities 2000 50 true true true false 10;
    }
    ∷ record {
      code = "business";
      name = "Business";
      name_fa = "Organizational";
      interval = monthly;
      price_toman = 2490000;
      sort_order = 3;
      capabilities = capabilities 20000 200 true true true true 50;
    }
    ∷ []

abbrev pub default_plans : List PlanItem
default_plans = free_item ∷ paid_items

-- `defaults=item` on a row that exists, whose `is_active` keeps its value
abbrev pub write_item : PlanItem → Plan → Plan
write_item item p = record p {
  code = item.code;
  name = item.name;
  name_fa = item.name_fa;
  interval = item.interval;
  price_toman = item.price_toman;
  sort_order = item.sort_order;
  capabilities = item.capabilities;
}

abbrev pub new_plan : PlanItem → ℕ → Plan
new_plan item pk = record {
  id = pk;
  code = item.code;
  name = item.name;
  name_fa = item.name_fa;
  interval = item.interval;
  price_toman = item.price_toman;
  is_active = true;
  sort_order = item.sort_order;
  capabilities = item.capabilities;
}

abbrev pub has_code : String → Plan → Bool
has_code code p = str_eq p.code code

put_plan : PlanItem → List Plan → Option Plan → List Plan
put_plan item plans none = new_plan item (next_pk (map (λ p. p.id) plans)) ∷ plans
put_plan item plans (some p) = update (has_code item.code) (write_item item) plans

-- `Plan.objects.update_or_create(code=item["code"], defaults=item)`
unfoldable pub seed_plan : PlanItem → List Plan → List Plan
unfolding put_plan
seed_plan item plans = put_plan item plans (plan_by_code item.code plans)

seed_items : List PlanItem → List Plan → List Plan
seed_items [] plans = plans
seed_items (item ∷ items) plans = seed_items items (seed_plan item plans)

-- `seed_plans`, on the rows
unfoldable pub seed_plans : List Plan → List Plan
unfolding seed_items
seed_plans = seed_items default_plans

unfoldable pub new_trial : ℕ → Plan → ℕ → ℕ → Subscription
new_trial organization plan now trial_days = record {
  organization = organization;
  plan = plan.id;
  status = SubscriptionStatus.trial;
  started_at = now;
  current_period_end = now + (if trial_days == 0 then 14 else trial_days) * day;
  canceled_at = none;
}

-- the rest of `ensure_trial_subscription`, the plan "free" being `plan`
unfoldable pub start_trial : ℕ → Option Plan → Exec Db Subscription
start_trial organization none db = (err does_not_exist, db)
start_trial organization (some plan) db =
    let sub = new_trial organization plan db.now db.trial_days in
    (ok sub, record db { subscriptions = sub ∷ db.subscriptions })

first_or_trial : ℕ → List Plan → Option Subscription → Exec Db Subscription
first_or_trial organization plans none db =
    start_trial organization (plan_by_code "free" plans) (record db { plans = plans })
first_or_trial organization plans (some existing) db = (ok existing, db)

-- `ensure_trial_subscription`
unfoldable pub ensure_trial_subscription : ℕ → Exec Db Subscription
unfolding first_or_trial
ensure_trial_subscription organization db =
    let plans = seed_plans db.plans in
    first_or_trial organization plans (subscription_of organization db.subscriptions) db
