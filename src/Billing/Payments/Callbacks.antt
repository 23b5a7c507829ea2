-- ===== src/Billing/Payments/Callbacks.antt =====
-- The two callback views of billing/views.py, which anybody may call, and `_callback_param`.
use govahee.Prelude.{ℕ, String, List, [], ◌∷◌, Option, none, some, truthy, if◌then◌else◌}
use govahee.Prelude.Text.{get, member}
use govahee.Exec.{Exec, Result, ok, err, payment, pure, ◌>>◌}
use govahee.Billing.Models.{PaymentTransaction, PaymentStatus, is_paid}
use govahee.Billing.State.{Db}
use govahee.Billing.Gateway.BitPay.{GatewayResult, BitPayVerifyResult}
use govahee.Billing.Gateway.Zibal.{ZibalVerifyResult}
use govahee.Billing.Payments.Settings.{GatewaySettings, frontend_payment_url}
use govahee.Billing.Payments.Rows.{
  save, write_failure, find_bitpay_transaction, find_zibal_transaction,
}
use govahee.Billing.Payments.Verify.{
  verify_and_apply_bitpay_payment, verify_and_apply_zibal_payment,
}

-- the query string and the body of a request
pub record Params : Type 0 where
  pub query : List (String × String)
  pub body : List (String × String)

abbrev value_of : Option String → String
value_of none = ""
value_of (some v) = v

-- `_callback_param`
unfoldable pub callback_param : Params → List String → String
callback_param r [] = ""
callback_param r (key ∷ keys) =
    let later = callback_param r keys in
    if truthy (value_of (get key r.query))
    then value_of (get key r.query)
    else if truthy (value_of (get key r.body))
    then value_of (get key r.body)
    else later

pub data Response : Type 0 where
  not_found : Response
  redirect : String → Response

-- `except PaymentError`, and the redirect by the status of the payment
answer : String → ℕ → Result PaymentTransaction × Db → Result Response × Db
answer site pk (ok p, db) = (
  ok (
      redirect
        (frontend_payment_url site (if is_paid p.status then "success" else "failed") (some p.id))),
  db,
)
answer site pk (err (payment message), db) =
    (ok (redirect (frontend_payment_url site "failed" (some pk))), db)
answer site pk (err e, db) = (err e, db)

bitpay_found :
    GatewaySettings
    → String
    → (String → String → GatewayResult BitPayVerifyResult)
    → String
    → String
    → Option PaymentTransaction
    → Exec Db Response
unfolding answer
bitpay_found cfg site gateway trans_id id_get none db = (ok not_found, db)
bitpay_found cfg site gateway trans_id id_get (some p) db =
    answer site p.id (verify_and_apply_bitpay_payment cfg gateway p.id trans_id id_get db)

-- `BitPayCallbackView._handle`
unfoldable pub bitpay_callback :
    GatewaySettings
    → String
    → (String → String → GatewayResult BitPayVerifyResult)
    → Params
    → Exec Db Response
unfolding bitpay_found
bitpay_callback cfg site gateway r db =
    let id_get = callback_param r ("id_get" ∷ "id" ∷ "get_id" ∷ []) in
    let trans_id = callback_param r ("trans_id" ∷ "transId" ∷ "transaction_id" ∷ "transid" ∷ []) in
    let factor_id = callback_param r ("factorId" ∷ "factor_id" ∷ []) in
    bitpay_found cfg site gateway trans_id id_get
      (find_bitpay_transaction id_get factor_id db.payments) db

-- the branch on `success in {"0", "false", "False"}`
unfoldable pub cancel : PaymentTransaction → Exec Db (Unit {0})
cancel p =
    save write_failure (record p {
      status = PaymentStatus.canceled;
      error_message = "The user canceled the payment.";
    })

abbrev pub refusals : List String
refusals = "0" ∷ "false" ∷ "False" ∷ []

zibal_found :
    GatewaySettings
    → String
    → (String → Result (GatewayResult ZibalVerifyResult))
    → String
    → String
    → Option PaymentTransaction
    → Exec Db Response
unfolding answer
zibal_found cfg site gateway track_id success none db = (ok not_found, db)
zibal_found cfg site gateway track_id success (some p) db =
    if member success refusals
    then (do cancel p; pure (redirect (frontend_payment_url site "canceled" (some p.id)))) db
    else answer site p.id (verify_and_apply_zibal_payment cfg gateway p.id track_id db)

-- `ZibalCallbackView._handle`
unfoldable pub zibal_callback :
    GatewaySettings
    → String
    → (String → Result (GatewayResult ZibalVerifyResult))
    → Params
    → Exec Db Response
unfolding zibal_found
zibal_callback cfg site gateway r db =
    let track_id = callback_param r ("trackId" ∷ "track_id" ∷ []) in
    let order_id = callback_param r ("orderId" ∷ "order_id" ∷ []) in
    let success = callback_param r ("success" ∷ []) in
    zibal_found cfg site gateway track_id success
      (find_zibal_transaction track_id order_id db.payments) db
