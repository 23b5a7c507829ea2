-- ===== src/Billing/Plans/Trial.antt =====
-- What `seed_plans` and `ensure_trial_subscription` of billing/plans.py promise.
use govahee.Prelude.{
  ℕ, String, ◌≡◌, refl, sym, ◌∙◌, ap, ◌⊎◌, inl, inr, Bool, true, List, [], ◌∷◌, Option, none, some,
  is_some, arith, str_eq, update, Option-cases, Bool-cases, ==_refl, str_eq_iff,
}
use govahee.Prelude.Text.{str_eq_refl}
use govahee.Exec.{ok}
use govahee.Billing.Models.{Plan, Subscription}
use govahee.Billing.State.{Db, subscription_of, plan_by_code}
use govahee.Billing.Plans.{
  PlanItem, paid_items, free_item, write_item, has_code, put_plan, seed_plan, seed_items,
  seed_plans, new_trial, start_trial, first_or_trial, ensure_trial_subscription,
}

-- whether the rows have a plan with this code
listed : String → List Plan → Bool
listed code plans = is_some (plan_by_code code plans)

-- a plan that is written again keeps its code
update-listed :
    (item : PlanItem) (code : String) (plans : List Plan)
    → listed code plans ≡ true
    → listed code (update (has_code item.code) (write_item item) plans) ≡ true
unfolding listed
update-listed item code [] h = h
update-listed item code (y ∷ ys) h =
    ground (arith, str_eq_iff y.code item.code, update-listed item code ys)

put_plan-listed :
    (item : PlanItem) (code : String) (plans : List Plan) (o : Option Plan)
    → listed code plans ≡ true
    → listed code (put_plan item plans o) ≡ true
unfolding put_plan listed
put_plan-listed item code plans none h = elim (Bool-cases (str_eq item.code code)) [
  | inl e ↦ rw (e) refl
  | inr e ↦ rw (e) h
]
put_plan-listed item code plans (some p) h = update-listed item code plans h

put_plan-own :
    (item : PlanItem) (plans : List Plan) (o : Option Plan)
    → plan_by_code item.code plans ≡ o
    → listed item.code (put_plan item plans o) ≡ true
unfolding put_plan listed
put_plan-own item plans none h = rw (str_eq_refl item.code) refl
put_plan-own item plans (some p) h = update-listed item item.code plans (ap is_some h)

seed_items-listed :
    (items : List PlanItem) (code : String) (plans : List Plan)
    → listed code plans ≡ true
    → listed code (seed_items items plans) ≡ true
unfolding seed_items seed_plan
seed_items-listed [] code plans h = h
seed_items-listed (item ∷ items) code plans h =
    seed_items-listed items code (seed_plan item plans)
      (put_plan-listed item code plans (plan_by_code item.code plans) h)

seed_plans-free : (plans : List Plan) → listed "free" (seed_plans plans) ≡ true
unfolding seed_plans seed_items seed_plan
seed_plans-free plans =
    seed_items-listed paid_items "free" (seed_plan free_item plans)
      (put_plan-own free_item plans (plan_by_code "free" plans) refl)

free_plan :
    (plans : List Plan) → (plan : Plan) × (plan_by_code "free" (seed_plans plans) ≡ some plan)
unfolding listed
free_plan plans = elim (Option-cases (plan_by_code "free" (seed_plans plans))) [
  | inl h ↦ (let free = seed_plans-free plans in absurd (ground (arith, h, free)))
  | inr found ↦ found
]

module _ (o : ℕ) (db : Db) where
  existing-ensure :
      (sub : Subscription)
      → subscription_of o db.subscriptions ≡ some sub
      → ensure_trial_subscription o db ≡ (ok sub, db)
  unfolding ensure_trial_subscription first_or_trial
  existing-ensure sub h = ap (λ s. first_or_trial o (seed_plans db.plans) s db) h

  -- the database once a trial of this plan was stored
  with_trial : Plan → Db
  with_trial plan = record db {
    plans = seed_plans db.plans;
    subscriptions = new_trial o plan db.now db.trial_days ∷ db.subscriptions;
  }

  none-ensure :
      (plan : Plan)
      → subscription_of o db.subscriptions ≡ none
      → plan_by_code "free" (seed_plans db.plans) ≡ some plan
      → ensure_trial_subscription o db
        ≡ (ok (new_trial o plan db.now db.trial_days), with_trial plan)
  unfolding ensure_trial_subscription first_or_trial start_trial with_trial
  none-ensure plan h k =
      ap (λ s. first_or_trial o (seed_plans db.plans) s db) h
      ∙ ap (λ f. start_trial o f (record db { plans = seed_plans db.plans })) k

  with_trial-subscription_of :
      (plan : Plan)
      → subscription_of o (with_trial plan).subscriptions
        ≡ some (new_trial o plan db.now db.trial_days)
  unfolding with_trial new_trial
  with_trial-subscription_of plan = rw (==_refl o) refl

-- `ensure_trial_subscription` always gives a subscription. It is the one that the organization
-- has, and nothing is written; or the organization has none, the plan "free" exists after the
-- plans were seeded, whatever plans were stored before, and a trial of that plan is stored, which
-- a second call gives back unchanged.
pub ensure_trial_subscription_total :
    (o : ℕ) (db : Db)
    → ((sub : Subscription) × (subscription_of o db.subscriptions ≡ some sub)
        × (ensure_trial_subscription o db ≡ (ok sub, db)))
      ⊎ ((plan : Plan) × (subscription_of o db.subscriptions ≡ none)
          × (plan_by_code "free" (seed_plans db.plans) ≡ some plan)
          × ((ensure_trial_subscription o db).0 ≡ ok (new_trial o plan db.now db.trial_days))
          × (ensure_trial_subscription o (ensure_trial_subscription o db).1
              ≡ (ensure_trial_subscription o db)))
ensure_trial_subscription_total o db = elim (Option-cases (subscription_of o db.subscriptions)) [
  | inr (sub, h) ↦ inl (sub, h, existing-ensure o db sub h)
  | inl h ↦ inr (
      let (plan, k) = free_plan db.plans in
      let stored = none-ensure o db plan h k in
      let again =
        existing-ensure o (with_trial o db plan) _ (with_trial-subscription_of o db plan) in
      (
        plan,
        h,
        k,
        ap (λ r. r.0) stored,
        ap (λ r. ensure_trial_subscription o r.1) stored ∙ again ∙ sym stored,
      ))
]
