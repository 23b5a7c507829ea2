-- ===== src/Billing/Payments/Rows.antt =====
-- The parts of billing/payments/service.py that read and write one payment row.
use govahee.Prelude.{
  ℕ, String, Bool, ◌&&◌, List, [], ◌∷◌, Option, none, some, is_some, str_eq, truthy, find,
  if◌then◌else◌,
}
use govahee.Prelude.Text.{decimal, prefix}
use govahee.Exec.{Exec, payment, does_not_exist, pure, raise, modify, or_raise, ◌>>=◌, ◌>>◌}
use govahee.Organizations.Models.{Organization, org_by_pk}
use govahee.Billing.Models.{
  Plan, PaymentTransaction, PaymentStatus, Gateway, bitpay, zibal, card, is_bitpay, is_zibal,
  is_paid,
}
use govahee.Billing.State.{Db, plan_by_pk, payment_by_pk, update_payment, log_action}
use govahee.Billing.Subscription.{apply_subscription_plan}

abbrev pub gateway_name : Gateway → String
gateway_name bitpay = "bitpay"
gateway_name zibal = "zibal"
gateway_name card = "card"

-- `_log_payment`
unfoldable pub log_payment : PaymentTransaction → String → Exec Db (Unit {0})
log_payment p action = log_action action "payment" p.id (some p.organization) (
    ("gateway", gateway_name p.gateway)
    ∷ ("amount", decimal p.amount)
    ∷ ("factor_id", p.factor_id)
    ∷ [])

-- `payment.save(update_fields=[...])`: `write object row` puts the listed columns into the row
unfoldable pub save :
    (PaymentTransaction → PaymentTransaction → PaymentTransaction)
    → PaymentTransaction
    → Exec Db (Unit {0})
save write p = modify λ db. record db { payments = update_payment p.id (write p) db.payments }

abbrev pub Write : Type 0
Write = PaymentTransaction → PaymentTransaction → PaymentTransaction

abbrev pub write_failure : Write
write_failure p row = record row { status = p.status; error_message = p.error_message }

-- `find_bitpay_transaction`; the table is in the order of creation, newest first
unfoldable pub find_bitpay_transaction :
    String → String → List PaymentTransaction → Option PaymentTransaction
find_bitpay_transaction id_get factor_id rows =
    let by_reference =
      find (λ (p : PaymentTransaction). is_bitpay p.gateway && str_eq p.gateway_reference id_get)
        rows in
    let by_factor =
      if truthy factor_id
      then find (λ (p : PaymentTransaction). is_bitpay p.gateway && str_eq p.factor_id factor_id)
          rows
      else none in
    if truthy id_get && is_some by_reference then by_reference else by_factor

-- `find_zibal_transaction`
unfoldable pub find_zibal_transaction :
    String → String → List PaymentTransaction → Option PaymentTransaction
find_zibal_transaction track_id order_id rows =
    let by_reference =
      find (λ (p : PaymentTransaction). is_zibal p.gateway && str_eq p.gateway_reference track_id)
        rows in
    let by_order =
      if truthy order_id
      then find (λ (p : PaymentTransaction). is_zibal p.gateway && str_eq p.factor_id order_id) rows
      else none in
    if truthy track_id && is_some by_reference then by_reference else by_order

-- `_mark_payment_failed`: `extra` writes the columns of `extra_fields`. Gives the object back.
unfoldable pub mark_payment_failed :
    PaymentTransaction → String → Write → Exec Db PaymentTransaction
mark_payment_failed p message extra =
    let q = record p { status = PaymentStatus.failed; error_message = prefix 500 message } in
    do save (λ o row. write_failure o (extra o row)) q; log_payment q "payment.failed"; pure q

-- the plan of a payment: its foreign key is null, or names a row
unfoldable pub plan_of : PaymentTransaction → Exec Db Plan
plan_of p = elim (p.plan) [
  | none ↦ raise (payment "The plan of the transaction was not found.")
  | some pk ↦ λ db. or_raise does_not_exist (plan_by_pk pk db.plans) db
]

unfoldable pub organization_of : PaymentTransaction → Exec Db Organization
organization_of p db = or_raise does_not_exist (org_by_pk p.organization db.organizations) db

-- `_apply_paid`
unfoldable pub apply_paid : PaymentTransaction → Exec Db (Unit {0})
unfolding plan_of organization_of
apply_paid p = do
  plan ← plan_of p
  organization ← organization_of p
  apply_subscription_plan organization plan
  log_payment p "payment.success"

-- `_already_applied`
unfoldable pub already_applied : PaymentTransaction → Bool
already_applied p = is_paid p.status && is_some p.applied_at

-- `payment.refresh_from_db()`, and `objects.get(pk=pk)`
unfoldable pub load_payment : ℕ → Exec Db PaymentTransaction
load_payment pk db = or_raise does_not_exist (payment_by_pk pk db.payments) db
