-- ===== src/Billing/Subscription/Period.antt =====
-- What `apply_subscription_plan` of billing/subscription.py does to the table of subscriptions and
-- to the organization.
use govahee.Prelude.{
  ℕ, ◌+◌, ◌≤◌, ◌<◌, ◌≡◌, refl, ap, ◌∙◌, ◌≢◌, true, false, ◌∷◌, Option, none, some, arith, ==_refl,
  Bool-cases, inl, inr,
}
use govahee.Prelude.Keyed.{find-update_self, find-update_ne}
use govahee.Exec.{ok}
use govahee.Organizations.Models.{Organization, org_by_pk}
use govahee.Billing.Models.{Plan, Subscription, SubscriptionStatus, allows}
use govahee.Billing.State.{Db, subscription_of}
use govahee.Billing.Subscription.{
  period_delta, new_subscription, period_start, renewed, enable_api, save_plan,
  apply_subscription_plan,
}

-- The subscription of an organization once a plan has been applied to it, in the state that the
-- call leaves; `before` is the row that was there.
pub record Applied (org : Organization) (plan : Plan) (db db' : Db) (sub : Subscription)
    : Type 0 where
  pub stored : subscription_of org.id db'.subscriptions ≡ some sub
  pub on_plan : sub.plan ≡ plan.id
  pub in_force : sub.status ≡ SubscriptionStatus.active
  pub not_canceled : sub.canceled_at ≡ none
  pub full_period : db.now + period_delta plan ≤ sub.current_period_end
  pub others :
      (other : ℕ)
      → other ≢ org.id
      → subscription_of other db'.subscriptions ≡ subscription_of other db.subscriptions
  pub payments_kept : db'.payments ≡ db.payments
  pub plans_kept : db'.plans ≡ db.plans

renewed_keeps :
    (plan : Plan) (now : ℕ) (s : Subscription) → (renewed s plan now).organization ≡ s.organization
unfolding renewed
renewed_keeps plan now s = refl

-- the first subscription of an organization
new-Applied :
    (org : Organization) (plan : Plan) (db : Db)
    → Applied org plan db
        (record db { subscriptions = new_subscription org.id plan db.now ∷ db.subscriptions })
        (new_subscription org.id plan db.now)
unfolding new_subscription
new-Applied org plan db = record {
  stored = rw (==_refl org.id);
  on_plan = refl;
  in_force = refl;
  not_canceled = refl;
  full_period = omega arith;
  others = λ other h. ground arith;
  payments_kept = refl;
  plans_kept = refl;
}

-- the row of an organization that has one
renewed-Applied :
    (org : Organization) (plan : Plan) (db : Db) (s : Subscription)
    → subscription_of org.id db.subscriptions ≡ some s
    → Applied org plan db (save_plan org plan (some s) db).1 (renewed s plan db.now)
unfolding save_plan
renewed-Applied org plan db s e = record {
  stored =
      find-update_self (λ r. r.organization) (λ r. renewed r plan db.now)
        (renewed_keeps plan db.now) org.id db.subscriptions s e;
  on_plan = unfold renewed in refl;
  in_force = unfold renewed in refl;
  not_canceled = unfold renewed in refl;
  full_period = unfold renewed period_start in ground arith;
  others = λ other h.
      find-update_ne (λ r. r.organization) (λ r. renewed r plan db.now) (renewed_keeps plan db.now)
        org.id other db.subscriptions h;
  payments_kept = refl;
  plans_kept = refl;
}

save_plan-Applied :
    (org : Organization) (plan : Plan) (db : Db) (o : Option Subscription)
    → subscription_of org.id db.subscriptions ≡ o
    → (sub : Subscription) × ((save_plan org plan o db).0 ≡ ok sub)
      × Applied org plan db (save_plan org plan o db).1 sub
unfolding save_plan
save_plan-Applied org plan db none e =
    (new_subscription org.id plan db.now, refl, new-Applied org plan db)
save_plan-Applied org plan db (some s) e =
    (renewed s plan db.now, refl, renewed-Applied org plan db s e)

-- Applying a plan always succeeds: the organization's subscription is then on that plan, active
-- and not canceled, it lasts at least one full period of the plan from now, and the subscriptions
-- of the other organizations, the payments and the plans are as before.
pub apply_subscription_plan-Applied :
    (org : Organization) (plan : Plan) (db : Db)
    → (sub : Subscription) × ((apply_subscription_plan org plan db).0 ≡ ok sub)
      × Applied org plan db (apply_subscription_plan org plan db).1 sub
unfolding apply_subscription_plan
apply_subscription_plan-Applied org plan db =
    save_plan-Applied org plan db (subscription_of org.id db.subscriptions) refl

renewed_running :
    (s : Subscription) (plan : Plan) (now : ℕ)
    → s.status ≡ SubscriptionStatus.active
    → now < s.current_period_end
    → s.plan ≡ plan.id
    → renewed s plan now ≡ record s {
      canceled_at = none;
      current_period_end = s.current_period_end + period_delta plan;
    }
unfolding renewed period_start
renewed_running s plan now active later same = ground arith

renewed_other_plan :
    (s : Subscription) (plan : Plan) (now : ℕ)
    → s.plan ≢ plan.id
    → renewed s plan now ≡ record s {
      plan = plan.id;
      status = SubscriptionStatus.active;
      canceled_at = none;
      current_period_end = now + period_delta plan;
    }
unfolding renewed period_start
renewed_other_plan s plan now other = ground arith

-- Paying for the plan of a running subscription adds one period behind the time that is paid.
pub apply_subscription_plan_extends :
    (org : Organization) (plan : Plan) (db : Db) (s : Subscription)
    → subscription_of org.id db.subscriptions ≡ some s
    → s.status ≡ SubscriptionStatus.active
    → db.now < s.current_period_end
    → s.plan ≡ plan.id
    → subscription_of org.id (apply_subscription_plan org plan db).1.subscriptions
      ≡ some (record s {
        canceled_at = none;
        current_period_end = s.current_period_end + period_delta plan;
      })
unfolding apply_subscription_plan
apply_subscription_plan_extends org plan db s e active later same =
    rw (e, save_plan)
      ((renewed-Applied org plan db s e).stored
        ∙ ap some (renewed_running s plan db.now active later same))

-- A change of plan starts the period now, whatever was left of the old one.
pub apply_subscription_plan_restarts :
    (org : Organization) (plan : Plan) (db : Db) (s : Subscription)
    → subscription_of org.id db.subscriptions ≡ some s
    → s.plan ≢ plan.id
    → subscription_of org.id (apply_subscription_plan org plan db).1.subscriptions
      ≡ some (record s {
        plan = plan.id;
        status = SubscriptionStatus.active;
        canceled_at = none;
        current_period_end = db.now + period_delta plan;
      })
unfolding apply_subscription_plan
apply_subscription_plan_restarts org plan db s e other =
    rw (e, save_plan)
      ((renewed-Applied org plan db s e).stored ∙ ap some (renewed_other_plan s plan db.now other))

-- A plan with the feature "api" turns the API of an organization on that has a subscription.
pub apply_subscription_plan_enables :
    (org : Organization) (plan : Plan) (db : Db) (s : Subscription)
    → org_by_pk org.id db.organizations ≡ some org
    → allows plan "api" ≡ true
    → subscription_of org.id db.subscriptions ≡ some s
    → org_by_pk org.id (apply_subscription_plan org plan db).1.organizations
      ≡ some (record org { api_enabled = true })
unfolding apply_subscription_plan enable_api
apply_subscription_plan_enables org plan db s row feature e =
    rw (e, save_plan)
      (elim (Bool-cases org.api_enabled) [
        | inl on ↦ rw (feature, on) (ground arith)
        | inr off ↦
            rw (feature, off)
              (find-update_self (λ o. o.id) (λ o. record o { api_enabled = true }) (λ o. refl)
                org.id db.organizations org row)
      ])

-- The first subscription of an organization, even to a plan with the feature "api", is active and
-- leaves the organization as it was: an API that was off stays off.
pub apply_subscription_plan_first :
    (org : Organization) (plan : Plan) (db : Db)
    → org_by_pk org.id db.organizations ≡ some org
    → org.api_enabled ≡ false
    → allows plan "api" ≡ true
    → subscription_of org.id db.subscriptions ≡ none
    → (subscription_of org.id (apply_subscription_plan org plan db).1.subscriptions
        ≡ some (new_subscription org.id plan db.now))
      × (org_by_pk org.id (apply_subscription_plan org plan db).1.organizations ≡ some org)
unfolding apply_subscription_plan
apply_subscription_plan_first org plan db row off feature e =
    rw (e, save_plan) ((new-Applied org plan db).stored, row)
