-- ===== src/Billing/Payments/Opened.antt =====
-- What a started payment is: `PaymentStartView` of billing/views.py over the two start functions
-- of billing/payments/service.py.
use govahee.Billing.Payments.Frame.{
  SameBut, SameBut-refl, fresh, find-next_pk, create_payment-SameBut, bitpay_answered-Frames,
  zibal_answered-Frames, save_request-Frames, Frames-bind,
}
use govahee.Prelude.{
  ℕ, String, ◌≡◌, Bool, true, false, not, some, ◌==◌, arith, leb, truthy, str_eq, none, Option,
  Bool-cases, inl, inr, ◌∙◌,
}
use govahee.Prelude.Text.{strip}
use govahee.Exec.{
  Exec, Result, ok, err, raise_if, Error, validation, does_not_exist, invalid_operation,
  value_error, overflow_error, integrity_error, protected_error, type_error, storage, configuration,
  os_error, botocore_error, http_exception, ◌>>◌, payment,
}
use govahee.Organizations.Models.{Organization}
use govahee.Billing.Models.{Plan, PaymentTransaction}
use govahee.Billing.State.{Db, payment_by_pk}
use govahee.Billing.Gateway.BitPay.{GatewayResult, BitPayRequestResult}
use govahee.Billing.Gateway.Zibal.{toman_to_rial, ZibalRequestResult}
use govahee.Billing.Payments.Settings.{GatewaySettings}
use govahee.Billing.Payments.Start.{start_bitpay_payment, start_zibal_payment}
use govahee.Billing.Payments.Begin.{
  Outside, started, start_at, start_plan, active_plan, payment_start,
}

-- a guard in front of code leaves alone what the code leaves alone
guard-SameBut :
    {A : Type 0} (pk : ℕ) (b : Bool) (e : Error) (k : Exec Db A) (db : Db)
    → SameBut pk db (k db).1
    → SameBut pk db ((raise_if b e >> k) db).1
guard-SameBut pk true e k db h = SameBut-refl pk db
guard-SameBut pk false e k db h = h

module _ (cfg : GatewaySettings) (o : Organization) (plan : Plan) (amount : ℕ) (db : Db) where
  start_bitpay_payment-SameBut :
      (absolute : String) (answer : GatewayResult BitPayRequestResult)
      → SameBut (fresh db) db (start_bitpay_payment cfg absolute answer o plan amount db).1
  unfolding start_bitpay_payment
  start_bitpay_payment-SameBut absolute answer = guard-SameBut _ (not cfg.bitpay_enabled) _ _ db (
      guard-SameBut _ (not (truthy cfg.bitpay_api_key)) _ _ db (
        guard-SameBut _ (amount == 0) _ _ db (
          create_payment-SameBut _ o plan amount db _ (λ p.
            Frames-bind p.id _ _ (save_request-Frames _) (λ u. bitpay_answered-Frames _ answer)))))

  start_zibal_payment-SameBut :
      (absolute : String) (answer : Result (GatewayResult ZibalRequestResult))
      → SameBut (fresh db) db (start_zibal_payment cfg absolute answer o plan amount db).1
  unfolding start_zibal_payment
  start_zibal_payment-SameBut absolute answer = guard-SameBut _ (not cfg.zibal_enabled) _ _ db (
      guard-SameBut _ (not (truthy cfg.zibal_merchant_id)) _ _ db (
        guard-SameBut _ (amount == 0) _ _ db (
          guard-SameBut _ (leb (toman_to_rial amount) 1000) _ _ db (
            create_payment-SameBut _ o plan amount db _ (λ p.
              Frames-bind p.id _ _ (save_request-Frames _)
                (λ u. zibal_answered-Frames _ answer))))))

started-SameBut :
    (pk : ℕ) (db : Db) (r : Result (PaymentTransaction × String) × Db)
    → SameBut pk db r.1
    → SameBut pk db (started r).1
unfolding started
started-SameBut pk db (ok a, s) h = h
started-SameBut pk db (err (validation m), s) h = h
started-SameBut pk db (err (payment m), s) h = h
started-SameBut pk db (err does_not_exist, s) h = h
started-SameBut pk db (err invalid_operation, s) h = h
started-SameBut pk db (err value_error, s) h = h
started-SameBut pk db (err overflow_error, s) h = h
started-SameBut pk db (err integrity_error, s) h = h
started-SameBut pk db (err protected_error, s) h = h
started-SameBut pk db (err type_error, s) h = h
started-SameBut pk db (err (storage m), s) h = h
started-SameBut pk db (err (configuration m), s) h = h
started-SameBut pk db (err os_error, s) h = h
started-SameBut pk db (err botocore_error, s) h = h
started-SameBut pk db (err http_exception, s) h = h

module _ (cfg : GatewaySettings) (outside : Outside) (o : Organization) (gateway : String) where
  start_at-SameBut :
      (plan : Plan) (db : Db) → SameBut (fresh db) db (start_at cfg outside o gateway plan db).1
  unfolding start_at
  start_at-SameBut plan db = elim (Bool-cases (plan.price_toman == 0)) [
    | inl free ↦ rw (free) (SameBut-refl (fresh db) db)
    | inr paid ↦ elim (Bool-cases (str_eq gateway "bitpay")) [
      | inl b ↦
          rw (paid, b)
            (started-SameBut _ db _ (
              start_bitpay_payment-SameBut cfg o plan plan.price_toman db outside.absolute
                outside.bitpay_answer))
      | inr b ↦ elim (Bool-cases (str_eq gateway "zibal")) [
        | inl z ↦
            rw (paid, b, z)
              (started-SameBut _ db _ (
                start_zibal_payment-SameBut cfg o plan plan.price_toman db outside.absolute
                  outside.zibal_answer))
        | inr z ↦ rw (paid, b, z) (SameBut-refl (fresh db) db)
      ]
    ]
  ]

  start_plan-SameBut :
      (plan : Option Plan) (db : Db)
      → SameBut (fresh db) db (start_plan cfg outside o gateway plan db).1
  unfolding start_plan
  start_plan-SameBut none db = SameBut-refl (fresh db) db
  start_plan-SameBut (some plan) db = start_at-SameBut plan db

-- Whatever the request asks for and the gateway answers, and on every error: `PaymentStartView`
-- changes no subscription, plan, organization or usage counter, and a payment that was stored
-- before is stored as it was; only the payment that it creates is new.
pub payment_start_frame :
    (cfg : GatewaySettings) (outside : Outside) (o : Organization) (gateway : String)
    (plan_id : Option ℕ) (db : Db) (pk : ℕ) (row : PaymentTransaction)
    → payment_by_pk pk db.payments ≡ some row
    → (payment_by_pk pk (payment_start cfg outside o gateway plan_id db).1.payments ≡ some row)
      × ((payment_start cfg outside o gateway plan_id db).1.subscriptions ≡ db.subscriptions)
      × ((payment_start cfg outside o gateway plan_id db).1.plans ≡ db.plans)
      × ((payment_start cfg outside o gateway plan_id db).1.organizations ≡ db.organizations)
      × ((payment_start cfg outside o gateway plan_id db).1.usage ≡ db.usage)
unfolding payment_start fresh
payment_start_frame cfg outside o gateway plan_id db pk row h =
    let same = start_plan-SameBut cfg outside o (strip gateway) (active_plan plan_id db) db in
    let below = find-next_pk pk db.payments row h in
    (
      same.payments pk (λ e. omega (arith, below, e)) ∙ h,
      same.subscriptions,
      same.plans,
      same.organizations,
      same.usage,
    )
