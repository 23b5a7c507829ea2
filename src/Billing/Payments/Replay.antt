-- ===== src/Billing/Payments/Replay.antt =====
-- What undoes the mark of a paid payment: the cancel branch of `ZibalCallbackView._handle`
-- (billing/views.py), and a failure that `_mark_payment_failed` (billing/payments/service.py)
-- writes behind another request's success. Both write the status and do not look at the row.
use govahee.Prelude.{
  ◌+◌, ◌<◌, String, ◌≡◌, refl, ap, ◌∙◌, Bool, true, false, none, some, arith, ◌⊎◌, truthy,
  or_else-truthy,
}
use govahee.Prelude.Text.{prefix}
use govahee.Exec.{Result, ok, continue, roll_back}
use govahee.Organizations.Models.{Organization, org_by_pk}
use govahee.Billing.Models.{
  Plan, PaymentTransaction, PaymentStatus, Subscription, SubscriptionStatus,
}
use govahee.Billing.State.{Db, payment_by_pk, plan_by_pk, subscription_of}
use govahee.Billing.Subscription.{period_delta}
use govahee.Billing.Subscription.Period.{apply_subscription_plan_extends}
use govahee.Billing.Gateway.BitPay.{GatewayResult, done}
use govahee.Billing.Gateway.Zibal.{ZibalVerifyResult}
use govahee.Billing.Payments.Settings.{GatewaySettings}
use govahee.Billing.Payments.Rows.{
  Write, save, write_failure, log_payment, mark_payment_failed, already_applied, load_payment,
}
use govahee.Billing.Payments.Verify.{
  verified, judge, zibal_amount_fits, zibal_answered, zibal_check_row, zibal_check, settle_locked,
  settle_row, settle, conclude, zibal_persisted, with_paid, with_verified_at, write_paid,
  verify_and_apply_zibal_payment,
}
use govahee.Billing.Payments.Paid.{
  KeepsPk, save-stored, apply_paid-PaidFor, saved, subscribed, settle_locked-Settled,
}
use govahee.Billing.Payments.Callbacks.{cancel}

-- the row once the failure has been written
failed_row : (p row : PaymentTransaction) (message : String) (extra : Write) → PaymentTransaction
failed_row p row message extra =
    let q = record p { status = PaymentStatus.failed; error_message = prefix 500 message } in
    write_failure q (extra q row)

mark_payment_failed-reopens :
    (p row : PaymentTransaction) (message : String) (extra : Write) (db : Db)
    → KeepsPk extra
    → payment_by_pk p.id db.payments ≡ some row
    → (after : PaymentTransaction) × (payment_by_pk p.id
          (mark_payment_failed p message extra db).1.payments
        ≡ some after)
      × (after.status ≡ PaymentStatus.failed)
      × (already_applied after ≡ false)
unfolding mark_payment_failed log_payment failed_row already_applied save
mark_payment_failed-reopens p row message extra db keeps e =
    let q = record p { status = PaymentStatus.failed; error_message = prefix 500 message } in
    (
      failed_row p row message extra,
      save-stored (λ o r. write_failure o (extra o r)) q row db keeps e,
      refl,
      refl,
    )

-- A check that ends in a failure, after another request has settled the payment, leaves the row
-- failed and open to be applied once more.
pub late_failure_reopens :
    (p row : PaymentTransaction) (amount_fits success : Bool) (m1 m2 : String) (persisted : Write)
    (db : Db)
    → KeepsPk persisted
    → payment_by_pk p.id db.payments ≡ some row
    → already_applied row ≡ true
    → (amount_fits ≡ false) ⊎ (success ≡ false)
    → (after : PaymentTransaction) × (payment_by_pk p.id
          (judge p amount_fits success m1 m2 persisted db).1.payments
        ≡ some after)
      × (after.status ≡ PaymentStatus.failed)
      × (already_applied after ≡ false)
unfolding judge mark_payment_failed save log_payment
late_failure_reopens p row false success m1 m2 persisted db keeps e applied bad =
    mark_payment_failed-reopens p row m1 persisted db keeps e
late_failure_reopens p row true false m1 m2 persisted db keeps e applied bad =
    mark_payment_failed-reopens p row m2 persisted db keeps e
late_failure_reopens p row true true m1 m2 persisted db keeps e applied bad = absurd (ground arith)

-- the row as the cancel branch leaves it
abbrev canceled_row : PaymentTransaction → PaymentTransaction
canceled_row row = record row {
  status = PaymentStatus.canceled;
  error_message = "The user canceled the payment.";
}

cancel-stored :
    (row : PaymentTransaction) (db : Db)
    → payment_by_pk row.id db.payments ≡ some row
    → payment_by_pk row.id (cancel row db).1.payments ≡ some (canceled_row row)
unfolding cancel
cancel-stored row db e = save-stored write_failure (canceled_row row) row db (λ p r. refl) e

module _ (cfg : GatewaySettings) (gateway : String → Result (GatewayResult ZibalVerifyResult))
    (track_id : String) (result : ZibalVerifyResult) where
  -- a payment that is open again passes the check when Zibal answers with success once more
  zibal_check_row-verified :
      (row : PaymentTransaction) (db : Db)
      → already_applied row ≡ false
      → truthy cfg.zibal_merchant_id ≡ true
      → truthy track_id ≡ true
      → gateway track_id ≡ ok (done result)
      → result.success ≡ true
      → zibal_amount_fits result.amount_rials row.amount ≡ true
      → zibal_check_row cfg gateway track_id row db ≡ (
        ok (
            verified (record row {
              gateway_reference = track_id;
              gateway_transaction_id = result.ref_number;
              verify_response = result.raw;
              card_number = result.card_number;
            })),
        db,
      )
  unfolding zibal_check_row zibal_answered judge
  zibal_check_row-verified row db open_ merchant track answered success fits = rw (
    open_,
    merchant,
    or_else-truthy track_id row.gateway_reference track,
    track,
    answered,
    zibal_answered,
    fits,
    success,
    or_else-truthy track_id row.gateway_reference track,
  )

  module _ (row : PaymentTransaction) (organization : Organization) (plan : Plan) (s : Subscription)
      (db : Db) where
    -- the object that passes the check
    abbrev checked : PaymentTransaction
    checked = record (canceled_row row) {
      gateway_reference = track_id;
      gateway_transaction_id = result.ref_number;
      verify_response = result.raw;
      card_number = result.card_number;
    }

    pub settled_again :
        row.plan ≡ some plan.id
        → plan_by_pk plan.id db.plans ≡ some plan
        → org_by_pk row.organization db.organizations ≡ some organization
        → settle_locked zibal_persisted checked (cancel row db).1 ≡ (
          ok (with_paid db.now checked),
          (save write_paid
              (with_paid db.now checked)
              (subscribed zibal_persisted checked (cancel row db).1 organization plan)).1,
        )
    unfolding cancel save
    settled_again has_plan plan_row org_row =
        settle_locked-Settled zibal_persisted checked (cancel row db).1 (record {
          plan = plan;
          organization = organization;
          plan_pk = plan.id;
          has_plan = has_plan;
          plan_row = plan_row;
          organization_row = org_row;
          result =
              apply_paid-PaidFor (with_verified_at db.now checked) organization plan plan.id _
                has_plan plan_row org_row;
        })

    verified_again :
        payment_by_pk row.id db.payments ≡ some row
        → truthy cfg.zibal_merchant_id ≡ true
        → truthy track_id ≡ true
        → gateway track_id ≡ ok (done result)
        → result.success ≡ true
        → zibal_amount_fits result.amount_rials row.amount ≡ true
        → zibal_check cfg gateway row.id track_id (cancel row db).1
          ≡ (ok (verified checked), (cancel row db).1)
    unfolding zibal_check load_payment already_applied
    verified_again stored merchant track answered success fits = rw (cancel-stored row db stored) (
        zibal_check_row-verified (canceled_row row) (cancel row db).1 refl merchant track answered
          success fits)

    locked_again :
        payment_by_pk row.id db.payments ≡ some row
        → settle zibal_persisted checked (cancel row db).1
          ≡ roll_back (cancel row db).1 (settle_locked zibal_persisted checked (cancel row db).1)
    unfolding settle load_payment settle_row already_applied
    locked_again stored = rw (cancel-stored row db stored)

    -- the state after the whole replay
    abbrev pub replayed : Db
    replayed = (verify_and_apply_zibal_payment cfg gateway row.id track_id (cancel row db).1).1

    replayed_lem :
        payment_by_pk row.id db.payments ≡ some row
        → row.plan ≡ some plan.id
        → plan_by_pk plan.id db.plans ≡ some plan
        → org_by_pk row.organization db.organizations ≡ some organization
        → truthy cfg.zibal_merchant_id ≡ true
        → truthy track_id ≡ true
        → gateway track_id ≡ ok (done result)
        → result.success ≡ true
        → zibal_amount_fits result.amount_rials row.amount ≡ true
        → replayed
          ≡ (save write_paid
              (with_paid db.now checked)
              (subscribed zibal_persisted checked (cancel row db).1 organization plan)).1
    unfolding verify_and_apply_zibal_payment conclude
    replayed_lem stored has_plan plan_row org_row merchant track answered success fits =
        ap (λ r. (continue r (conclude zibal_persisted)).1)
          (verified_again stored merchant track answered success fits)
        ∙ ap (λ (r : Result PaymentTransaction × Db). r.1) (locked_again stored)
        ∙ ap (λ r. (roll_back (cancel row db).1 r).1) (settled_again has_plan plan_row org_row)

    -- A payment by Zibal that is paid and applied is canceled by a callback with success=0, which
    -- anybody can send; the next callback verifies it once more, and where Zibal still answers
    -- with success for its track id and its amount, the same payment extends the running
    -- subscription by another whole period.
    pub zibal_replay_extends :
        payment_by_pk row.id db.payments ≡ some row
        → already_applied row ≡ true
        → row.plan ≡ some plan.id
        → plan_by_pk plan.id db.plans ≡ some plan
        → org_by_pk row.organization db.organizations ≡ some organization
        → subscription_of organization.id db.subscriptions ≡ some s
        → s.status ≡ SubscriptionStatus.active
        → db.now < s.current_period_end
        → s.plan ≡ plan.id
        → truthy cfg.zibal_merchant_id ≡ true
        → truthy track_id ≡ true
        → gateway track_id ≡ ok (done result)
        → result.success ≡ true
        → zibal_amount_fits result.amount_rials row.amount ≡ true
        → subscription_of organization.id replayed.subscriptions
          ≡ some (record s {
            canceled_at = none;
            current_period_end = s.current_period_end + period_delta plan;
          })
    unfolding save log_payment cancel
    zibal_replay_extends stored applied has_plan plan_row org_row sub active later same merchant
          track answered success fits =
        ap (λ (d : Db). subscription_of organization.id d.subscriptions)
          (replayed_lem stored has_plan plan_row org_row merchant track answered success fits)
        ∙ apply_subscription_plan_extends organization plan
            (saved zibal_persisted checked (cancel row db).1) s sub active later same
