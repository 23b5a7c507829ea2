-- ===== src/Billing/Payments/Paid.antt =====
-- The writes of billing/payments/service.py under the row lock: how `_apply_paid` and the saves
-- around it end.
use govahee.Prelude.{ℕ, ◌≡◌, refl, ◌∙◌, ap, some, Option-cases, ◌⊎◌, inl, inr}
use govahee.Prelude.Keyed.{find-update_self}
use govahee.Exec.{Error, ok, err, payment, does_not_exist, ◌>>◌, continue-ok}
use govahee.Organizations.Models.{Organization, org_by_pk}
use govahee.Billing.Models.{Plan, PaymentTransaction}
use govahee.Billing.State.{Db, plan_by_pk, payment_by_pk}
use govahee.Billing.Subscription.{apply_subscription_plan}
use govahee.Billing.Subscription.Period.{apply_subscription_plan-Applied}
use govahee.Billing.Payments.Rows.{Write, save, log_payment, plan_of, organization_of, apply_paid}
use govahee.Billing.Payments.Verify.{
  settle_locked, write_verified, write_paid, with_verified_at, with_paid,
}

-- the columns that a save lists do not include the primary key
abbrev pub KeepsPk : Write → Type 0
KeepsPk write = (p row : PaymentTransaction) → (write p row).id ≡ row.id

pub save-stored :
    (write : Write) (p row : PaymentTransaction) (db : Db)
    → KeepsPk write
    → payment_by_pk p.id db.payments ≡ some row
    → payment_by_pk p.id (save write p db).1.payments ≡ some (write p row)
unfolding save
save-stored write p row db keeps e =
    find-update_self (λ r. r.id) (write p) (keeps p) p.id db.payments row e

write_verified-KeepsPk :
    (persisted : Write) → KeepsPk persisted → KeepsPk (write_verified persisted)
unfolding write_verified
write_verified-KeepsPk persisted keeps p row = keeps p row

write_paid-KeepsPk : KeepsPk write_paid
unfolding write_paid
write_paid-KeepsPk p row = refl

-- How `_apply_paid` ends when it does not raise: a plan and an organization were found, and the
-- plan was applied to the organization.
pub record PaidFor (p : PaymentTransaction) (db : Db) : Type 0 where
  pub plan : Plan
  pub organization : Organization
  pub plan_pk : ℕ
  pub has_plan : p.plan ≡ some plan_pk
  pub plan_row : plan_by_pk plan_pk db.plans ≡ some plan
  pub organization_row : org_by_pk p.organization db.organizations ≡ some organization
  pub result :
      apply_paid p db
      ≡ log_payment p "payment.success" (apply_subscription_plan organization plan db).1

-- the last two steps, once the plan and the organization are known
finish_paid :
    (p : PaymentTransaction) (organization : Organization) (plan : Plan) (db : Db)
    → (apply_subscription_plan organization plan >> log_payment p "payment.success") db
      ≡ log_payment p "payment.success" (apply_subscription_plan organization plan db).1
finish_paid p organization plan db =
    let (sub, returned, rest) = apply_subscription_plan-Applied organization plan db in
    continue-ok (apply_subscription_plan organization plan db) sub
      (λ _. log_payment p "payment.success") returned

-- With its plan and its organization in place `_apply_paid` does not raise.
pub apply_paid-PaidFor :
    (p : PaymentTransaction) (organization : Organization) (plan : Plan) (k : ℕ) (db : Db)
    → p.plan ≡ some k
    → plan_by_pk k db.plans ≡ some plan
    → org_by_pk p.organization db.organizations ≡ some organization
    → apply_paid p db
      ≡ log_payment p "payment.success" (apply_subscription_plan organization plan db).1
unfolding apply_paid plan_of organization_of log_payment
apply_paid-PaidFor p organization plan k db e e2 e3 =
    rw (e, plan_of, e2, e3) (finish_paid p organization plan db)

-- `_apply_paid` raises and changes nothing, or ends well
pub apply_paid-cases :
    (p : PaymentTransaction) (db : Db)
    → ((e : Error) × (apply_paid p db ≡ (err e, db))) ⊎ PaidFor p db
unfolding apply_paid plan_of organization_of
apply_paid-cases p db = elim (Option-cases p.plan) [
  | inl e ↦ inl (payment "The plan of the transaction was not found.", rw (e, plan_of))
  | inr (k, e) ↦ elim (Option-cases (plan_by_pk k db.plans)) [
    | inl e2 ↦ inl (does_not_exist, rw (e, plan_of, e2))
    | inr (plan, e2) ↦ elim (Option-cases (org_by_pk p.organization db.organizations)) [
      | inl e3 ↦ inl (does_not_exist, rw (e, plan_of, e2, e3))
      | inr (org, e3) ↦ inr (record {
        plan = plan;
        organization = org;
        plan_pk = k;
        has_plan = e;
        plan_row = e2;
        organization_row = e3;
        result = apply_paid-PaidFor p org plan k db e e2 e3;
      })
    ]
  ]
]

module _ (persisted : Write) (p : PaymentTransaction) (db : Db) where
  -- the state after the first save
  abbrev pub saved : Db
  saved = (save (write_verified persisted) (with_verified_at db.now p) db).1

  -- the state after the plan was applied to the organization, and the success logged
  abbrev pub subscribed : Organization → Plan → Db
  subscribed organization plan =
      (log_payment (with_verified_at db.now p) "payment.success"
        (apply_subscription_plan organization plan saved).1).1

  -- How the writes under the lock end when nothing raises.
  pub record Settled : Type 0 where
    pub paid_for : PaidFor (with_verified_at db.now p) saved
    pub result : settle_locked persisted p db ≡ (
      ok (with_paid db.now p),
      (save write_paid (with_paid db.now p) (subscribed paid_for.organization paid_for.plan)).1,
    )

  pub settle_locked-Settled :
      (paid_for : PaidFor (with_verified_at db.now p) saved)
      → settle_locked persisted p db ≡ (
        ok (with_paid db.now p),
        (save write_paid (with_paid db.now p) (subscribed paid_for.organization paid_for.plan)).1,
      )
  unfolding settle_locked save log_payment
  settle_locked-Settled paid_for = rw (paid_for.result)

  pub settle_locked-cases :
      ((e : Error) × (settle_locked persisted p db ≡ (err e, saved))) ⊎ Settled
  unfolding settle_locked save log_payment
  settle_locked-cases = elim (apply_paid-cases (with_verified_at db.now p) saved) [
    | inl (e, raised) ↦ inl (e, rw raised)
    | inr paid_for ↦ inr (record { paid_for = paid_for; result = settle_locked-Settled paid_for })
  ]

  payments-subscribed :
      (organization : Organization) (plan : Plan)
      → (subscribed organization plan).payments ≡ saved.payments
  unfolding log_payment
  payments-subscribed organization plan =
      (apply_subscription_plan-Applied organization plan saved).2.payments_kept

  -- the row of the payment as the two saves leave it
  abbrev pub settled : PaymentTransaction → PaymentTransaction
  settled row =
      write_paid (with_paid db.now p) (write_verified persisted (with_verified_at db.now p) row)

  pub settled_row :
      (row : PaymentTransaction)
      → KeepsPk persisted
      → payment_by_pk p.id db.payments ≡ some row
      → Settled
      → payment_by_pk p.id (settle_locked persisted p db).1.payments ≡ some (settled row)
  settled_row row keeps e s = rw (s.result) (
      save-stored write_paid (with_paid db.now p)
        (write_verified persisted (with_verified_at db.now p) row)
        (subscribed s.paid_for.organization s.paid_for.plan) write_paid-KeepsPk
        (ap (payment_by_pk p.id) (payments-subscribed s.paid_for.organization s.paid_for.plan)
          ∙ save-stored (write_verified persisted) (with_verified_at db.now p) row db
              (write_verified-KeepsPk persisted keeps) e))
