-- ===== src/Billing/Tests/Payments.antt =====
-- Runs of billing/payments/service.py and of the callback views.
use govahee.Prelude.{◌+◌, ◌≡◌, refl, ◌⊎◌, inl, true, false, none, some, arith}
use govahee.Exec.{Result, ok}
use govahee.Billing.Models.{PaymentTransaction, PaymentStatus, allows}
use govahee.Billing.State.{Db, subscription_of, payment_by_pk}
use govahee.Billing.Subscription.{
  period_delta, new_subscription, renewed, period_start, enable_api, apply_subscription_plan,
}
use govahee.Billing.Gateway.Decimal.{eq_natural}
use govahee.Billing.Payments.Rows.{
  save, log_payment, apply_paid, plan_of, organization_of, already_applied, load_payment,
}
use govahee.Billing.Payments.Verify.{
  judge, settle, settle_row, settle_locked, write_verified, write_paid, with_paid, bitpay_persisted,
  zibal_persisted, zibal_amount_fits, verify_and_apply_bitpay_payment,
  verify_and_apply_zibal_payment,
}
use govahee.Billing.Payments.Once.{settle_once}
use govahee.Billing.Payments.Paid.{KeepsPk}
use govahee.Billing.Payments.Charged.{Kept}
use govahee.Billing.Payments.BitPayCharged.{BitPayCharged, bitpay_charged}
use govahee.Billing.Payments.ZibalCharged.{ZibalCharged, zibal_charged}
use govahee.Billing.Payments.Replay.{late_failure_reopens, replayed, zibal_replay_extends}
use govahee.Billing.Tests.Fixtures.{
  academy, professional, running, open_payment, paid_payment, database, settings, zibal_answer,
  zibal_says, bitpay_says,
}

abbrev settled_database : Result PaymentTransaction × Db
unfolding settle settle_row settle_locked load_payment save apply_paid plan_of organization_of
    log_payment apply_subscription_plan new_subscription renewed period_start enable_api
    already_applied write_verified write_paid zibal_persisted period_delta allows
settled_database = settle zibal_persisted open_payment (database open_payment)

zibal_persisted-KeepsPk : KeepsPk zibal_persisted
unfolding zibal_persisted
zibal_persisted-KeepsPk p row = refl

settle_once_example :
    ((row : PaymentTransaction) × (payment_by_pk 1 settled_database.1.payments ≡ some row)
      × (already_applied row ≡ true)
      × (settle bitpay_persisted open_payment settled_database.1 ≡ (ok row, settled_database.1)))
    × (settle bitpay_persisted open_payment (database paid_payment)
        ≡ (ok paid_payment, database paid_payment))
unfolding settle settle_row settle_locked load_payment save apply_paid plan_of organization_of
    log_payment apply_subscription_plan new_subscription renewed period_start enable_api
    already_applied write_verified write_paid zibal_persisted period_delta allows
settle_once_example =
    settle_once zibal_persisted bitpay_persisted open_payment open_payment
      (with_paid 1000 open_payment) paid_payment (database open_payment) settled_database.1
      (database paid_payment) zibal_persisted-KeepsPk refl refl refl refl

bitpay_charged_example :
    Kept
      (database open_payment)
      (verify_and_apply_bitpay_payment settings bitpay_says 1 "t" "55" (database open_payment)).1
    ⊎ BitPayCharged settings bitpay_says "t" "55" 1
        (database open_payment)
        (verify_and_apply_bitpay_payment settings bitpay_says 1 "t" "55" (database open_payment)).0
bitpay_charged_example = bitpay_charged settings bitpay_says "t" "55" 1 (database open_payment)

zibal_charged_example :
    Kept
      (database open_payment)
      (verify_and_apply_zibal_payment settings zibal_says 1 "55" (database open_payment)).1
    ⊎ ZibalCharged settings zibal_says "55" 1
        (database open_payment)
        (verify_and_apply_zibal_payment settings zibal_says 1 "55" (database open_payment)).0
zibal_charged_example = zibal_charged settings zibal_says "55" 1 (database open_payment)

late_failure_reopens_example :
    (after : PaymentTransaction) × (payment_by_pk 1
        (judge open_payment false true "amount" "status" zibal_persisted
          (database paid_payment)).1.payments
      ≡ some after)
    × (after.status ≡ PaymentStatus.failed)
    × (already_applied after ≡ false)
unfolding already_applied
late_failure_reopens_example =
    late_failure_reopens open_payment paid_payment false true "amount" "status" zibal_persisted
      (database paid_payment) zibal_persisted-KeepsPk refl refl (inl refl)

zibal_replay_extends_example :
    subscription_of 7
      (replayed settings zibal_says "55" zibal_answer paid_payment academy professional running
        (database paid_payment)).subscriptions
    ≡ some (record running {
      canceled_at = none;
      current_period_end = 5000 + period_delta professional;
    })
unfolding already_applied zibal_amount_fits eq_natural
zibal_replay_extends_example =
    zibal_replay_extends settings zibal_says "55" zibal_answer paid_payment academy professional
      running (database paid_payment) refl refl refl refl refl refl refl (omega arith) refl refl
      refl refl refl refl
