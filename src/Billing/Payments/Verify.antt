-- ===== src/Billing/Payments/Verify.antt =====
-- `verify_and_apply_bitpay_payment` and `verify_and_apply_zibal_payment` of
-- billing/payments/service.py. Each has two parts, between which other requests may run: the
-- check, which ends with the gateway's answer, and the block under `transaction.atomic`. The
-- gateway's answer is an argument, as a function of what it is asked.
use govahee.Prelude.{String, Bool, true, not, Option, none, some, truthy, or_else, if◌then◌else◌, ℕ}
use govahee.Prelude.Text.{◌+++◌}
use govahee.Exec.{Exec, Result, ok, err, payment, pure, raise, raise_if, atomic, ◌>>=◌, ◌>>◌}
use govahee.Billing.Models.{PaymentTransaction, PaymentStatus}
use govahee.Billing.State.{Db}
use govahee.Billing.Gateway.Decimal.{Decimal, eq_natural}
use govahee.Billing.Gateway.Json.{json_str, int_text}
use govahee.Billing.Gateway.BitPay.{
  GatewayResult, done, gateway_error, BitPayVerifyResult, amount_matches_expected,
}
use govahee.Billing.Gateway.Zibal.{ZibalVerifyResult, toman_to_rial}
use govahee.Billing.Payments.Settings.{GatewaySettings}
use govahee.Billing.Payments.Rows.{
  Write, save, mark_payment_failed, apply_paid, already_applied, load_payment,
}

-- how the check of a payment ends: `return payment`, or the object that goes on to the atomic block
pub data Verdict : Type 0 where
  finished : PaymentTransaction → Verdict
  verified : PaymentTransaction → Verdict

-- the columns of `persisted`, for each gateway
unfoldable pub bitpay_persisted : Write
bitpay_persisted p row = record row {
  gateway_transaction_id = p.gateway_transaction_id;
  verify_response = p.verify_response;
  card_number = p.card_number;
}

unfoldable pub zibal_persisted : Write
zibal_persisted p row = record row {
  gateway_reference = p.gateway_reference;
  gateway_transaction_id = p.gateway_transaction_id;
  verify_response = p.verify_response;
  card_number = p.card_number;
}

-- `extra_fields=["gateway_transaction_id"]`, and `extra_fields=[]`
abbrev pub write_transaction_id : Write
write_transaction_id p row = record row { gateway_transaction_id = p.gateway_transaction_id }

abbrev pub write_nothing : Write
write_nothing p row = row

-- The tests on a verify result: whether the amount fits, whether the gateway reports success, the
-- two failure messages, and the columns that a failure saves.
unfoldable pub judge : PaymentTransaction → Bool → Bool → String → String → Write → Exec Db Verdict
judge p amount_fits success amount_message status_message persisted =
    if not amount_fits
    then (do q ← mark_payment_failed p amount_message persisted; pure (finished q))
    else if not success
    then (do q ← mark_payment_failed p status_message persisted; pure (finished q))
    else pure (verified p)

-- `result.amount is not None and not _amount_matches_expected(...)`, negated
unfoldable pub bitpay_amount_fits : Option Decimal → ℕ → Result Bool
bitpay_amount_fits none expected = ok true
bitpay_amount_fits (some amount) expected = amount_matches_expected amount expected

unfoldable pub bitpay_judge :
    PaymentTransaction → BitPayVerifyResult → Result Bool → Exec Db Verdict
bitpay_judge p result (err e) = raise e
bitpay_judge p result (ok fits) =
    judge p fits result.success "The amount paid to BitPay is not that of the transaction."
      ("The BitPay payment failed. Status: " +++ json_str result.status) bitpay_persisted

unfoldable pub bitpay_answered :
    PaymentTransaction → GatewayResult BitPayVerifyResult → Exec Db Verdict
bitpay_answered p (gateway_error message) = do
  mark_payment_failed p message write_transaction_id
  raise (payment message)
bitpay_answered p (done result) =
    bitpay_judge (record p { verify_response = result.raw; card_number = result.card_number })
      result (bitpay_amount_fits result.amount p.amount)

unfoldable pub bitpay_check_row :
    GatewaySettings
    → (String → String → GatewayResult BitPayVerifyResult)
    → String
    → String
    → PaymentTransaction
    → Exec Db Verdict
bitpay_check_row cfg gateway trans_id id_get p =
    let id = or_else id_get p.gateway_reference in
    if already_applied p then pure (finished p) else do
      raise_if (not (truthy cfg.bitpay_api_key)) (payment "The BitPay API key is not set.")
      raise_if (not (truthy trans_id)) (payment "BitPay sent no trans_id.")
      raise_if (not (truthy id)) (payment "BitPay sent no id_get.")
      bitpay_answered (record p { gateway_transaction_id = trans_id }) (gateway trans_id id)

unfoldable pub bitpay_check :
    GatewaySettings
    → (String → String → GatewayResult BitPayVerifyResult)
    → ℕ
    → String
    → String
    → Exec Db Verdict
bitpay_check cfg gateway pk trans_id id_get = do
  p ← load_payment pk
  bitpay_check_row cfg gateway trans_id id_get p

-- `result.amount_rials is not None and result.amount_rials != expected_rials`, negated
unfoldable pub zibal_amount_fits : Option Decimal → ℕ → Bool
zibal_amount_fits none expected = true
zibal_amount_fits (some amount) expected = eq_natural amount (toman_to_rial expected)

pub result_text : Option (Bool × ℕ) → String
result_text none = "None"
result_text (some (negative, n)) = int_text negative n

unfoldable pub zibal_answered :
    PaymentTransaction → String → Result (GatewayResult ZibalVerifyResult) → Exec Db Verdict
zibal_answered p track_id (err e) = raise e
zibal_answered p track_id (ok (gateway_error message)) = do
  mark_payment_failed p message write_nothing
  raise (payment message)
zibal_answered p track_id (ok (done result)) =
    judge
      (record p {
        gateway_reference = track_id;
        gateway_transaction_id = result.ref_number;
        verify_response = result.raw;
        card_number = result.card_number;
      })
      (zibal_amount_fits result.amount_rials p.amount) result.success
      "The amount paid to Zibal is not that of the transaction."
      ("The Zibal payment failed. Result: " +++ result_text result.result) zibal_persisted

unfoldable pub zibal_check_row :
    GatewaySettings
    → (String → Result (GatewayResult ZibalVerifyResult))
    → String
    → PaymentTransaction
    → Exec Db Verdict
zibal_check_row cfg gateway track_id p =
    let id = or_else track_id p.gateway_reference in
    if already_applied p then pure (finished p) else do
      raise_if (not (truthy cfg.zibal_merchant_id)) (payment "The Zibal merchant is not set.")
      raise_if (not (truthy id)) (payment "Zibal sent no trackId.")
      zibal_answered p id (gateway id)

unfoldable pub zibal_check :
    GatewaySettings
    → (String → Result (GatewayResult ZibalVerifyResult))
    → ℕ
    → String
    → Exec Db Verdict
zibal_check cfg gateway pk track_id = do p ← load_payment pk; zibal_check_row cfg gateway track_id p

-- `update_fields=[*persisted, "verified_at", "updated_at"]`
unfoldable pub write_verified : Write → Write
write_verified persisted p row = let r = persisted p row in record r { verified_at = p.verified_at }

-- `update_fields=["status", "applied_at", "error_message", "updated_at"]`
unfoldable pub write_paid : Write
write_paid p row = record row {
  status = p.status;
  applied_at = p.applied_at;
  error_message = p.error_message;
}

-- the object at the two saves
abbrev pub with_verified_at : ℕ → PaymentTransaction → PaymentTransaction
with_verified_at now p = record p { verified_at = some now }

abbrev pub with_paid : ℕ → PaymentTransaction → PaymentTransaction
with_paid now p = record p {
  status = PaymentStatus.paid;
  verified_at = some now;
  applied_at = some now;
  error_message = "";
}

-- the writes under the lock: the verification, the subscription, and the status
unfoldable pub settle_locked : Write → PaymentTransaction → Exec Db PaymentTransaction
settle_locked persisted p db =
    (do
      save (write_verified persisted) (with_verified_at db.now p)
      apply_paid (with_verified_at db.now p)
      save write_paid (with_paid db.now p)
      pure (with_paid db.now p))
      db

unfoldable pub settle_row :
    Write → PaymentTransaction → PaymentTransaction → Exec Db PaymentTransaction
settle_row persisted p locked =
    if already_applied locked then pure locked else settle_locked persisted p

-- the block under `transaction.atomic()`; `select_for_update` keeps it in one step
unfoldable pub settle : Write → PaymentTransaction → Exec Db PaymentTransaction
settle persisted p = atomic do locked ← load_payment p.id; settle_row persisted p locked

unfoldable pub conclude : Write → Verdict → Exec Db PaymentTransaction
conclude persisted (finished p) = pure p
conclude persisted (verified p) = settle persisted p

unfoldable pub verify_and_apply_bitpay_payment :
    GatewaySettings
    → (String → String → GatewayResult BitPayVerifyResult)
    → ℕ
    → String
    → String
    → Exec Db PaymentTransaction
verify_and_apply_bitpay_payment cfg gateway pk trans_id id_get = do
  verdict ← bitpay_check cfg gateway pk trans_id id_get
  conclude bitpay_persisted verdict

unfoldable pub verify_and_apply_zibal_payment :
    GatewaySettings
    → (String → Result (GatewayResult ZibalVerifyResult))
    → ℕ
    → String
    → Exec Db PaymentTransaction
verify_and_apply_zibal_payment cfg gateway pk track_id = do
  verdict ← zibal_check cfg gateway pk track_id
  conclude zibal_persisted verdict
