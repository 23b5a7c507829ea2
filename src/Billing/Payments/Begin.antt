-- ===== src/Billing/Payments/Begin.antt =====
-- `PaymentStartView` and `SubscriptionView` of billing/views.py. `plan_id` of the request is
-- missing (`none`) or a number.
use govahee.Prelude.{
  ℕ, String, Bool, ◌&&◌, Option, none, some, ◌==◌, str_eq, truthy, find, if◌then◌else◌,
}
use govahee.Prelude.Text.{strip}
use govahee.Exec.{Exec, Result, ok, err, validation, payment, raise}
use govahee.Organizations.Models.{Organization}
use govahee.Billing.Models.{
  Plan, PaymentTransaction, PaymentStatus, Gateway, Capabilities, SubscriptionStatus,
}
use govahee.Billing.State.{Db, subscription_of, plan_by_pk}
use govahee.Billing.Entitlements.{get_entitlements}
use govahee.Billing.Gateway.BitPay.{GatewayResult, BitPayRequestResult}
use govahee.Billing.Gateway.Zibal.{ZibalRequestResult}
use govahee.Billing.Payments.Settings.{GatewaySettings}
use govahee.Billing.Payments.Start.{start_bitpay_payment, start_zibal_payment}

pub record Started : Type 0 where
  pub id : ℕ
  pub gateway : Gateway
  pub status : PaymentStatus
  pub amount : ℕ
  pub redirect_url : String

-- what the gateways answer to a request, and the URL of the callback view
pub record Outside : Type 0 where
  pub absolute : String
  pub bitpay_answer : GatewayResult BitPayRequestResult
  pub zibal_answer : Result (GatewayResult ZibalRequestResult)

-- `except PaymentError`, and the response
unfoldable pub started : Result (PaymentTransaction × String) × Db → Result Started × Db
started (ok (p, url), db) = (
  ok (record {
    id = p.id;
    gateway = p.gateway;
    status = p.status;
    amount = p.amount;
    redirect_url = url;
  }),
  db,
)
started (err (payment message), db) = (err (validation message), db)
started (err e, db) = (err e, db)

unfoldable pub start_at : GatewaySettings → Outside → Organization → String → Plan → Exec Db Started
start_at cfg outside organization gateway plan db =
    if plan.price_toman == 0
    then (err (validation "This plan needs no payment."), db)
    else if str_eq gateway "bitpay"
    then started (
        start_bitpay_payment cfg outside.absolute outside.bitpay_answer organization plan
          plan.price_toman db)
    else if str_eq gateway "zibal"
    then started (
        start_zibal_payment cfg outside.absolute outside.zibal_answer organization plan
          plan.price_toman db)
    else (err (validation "The gateway is not valid."), db)

-- `Plan.objects.filter(pk=plan_id, is_active=True).first()`
abbrev pub active_plan : Option ℕ → Db → Option Plan
active_plan none db = none
active_plan (some pk) db = find (λ (p : Plan). p.id == pk && p.is_active) db.plans

unfoldable pub start_plan :
    GatewaySettings → Outside → Organization → String → Option Plan → Exec Db Started
start_plan cfg outside organization gateway none = raise (validation "The plan was not found.")
start_plan cfg outside organization gateway (some plan) =
    start_at cfg outside organization gateway plan

-- `PaymentStartView.post`
unfoldable pub payment_start :
    GatewaySettings → Outside → Organization → String → Option ℕ → Exec Db Started
payment_start cfg outside organization gateway plan_id db =
    start_plan cfg outside organization (strip gateway) (active_plan plan_id db) db

pub record SubscriptionInfo : Type 0 where
  pub status : SubscriptionStatus
  pub plan : Option String
  pub current_period_end : ℕ

abbrev pub plan_code : Option Plan → Option String
plan_code none = none
plan_code (some plan) = some plan.code

pub record Overview : Type 0 where
  pub subscription : Option SubscriptionInfo
  pub entitlements : Capabilities
  pub bitpay : Bool
  pub zibal : Bool

-- `SubscriptionView.get`
unfoldable pub subscription_view : GatewaySettings → Organization → Db → Overview
subscription_view cfg organization db = record {
  subscription = elim (subscription_of organization.id db.subscriptions) [
    | none ↦ none
    | some sub ↦ some (record {
      status = sub.status;
      plan = plan_code (plan_by_pk sub.plan db.plans);
      current_period_end = sub.current_period_end;
    })
  ];
  entitlements = get_entitlements organization.id db;
  bitpay = cfg.bitpay_enabled && truthy cfg.bitpay_api_key;
  zibal = cfg.zibal_enabled && truthy cfg.zibal_merchant_id;
}
