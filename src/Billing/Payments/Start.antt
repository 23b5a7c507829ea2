-- ===== src/Billing/Payments/Start.antt =====
-- `start_bitpay_payment` and `start_zibal_payment` of billing/payments/service.py. The gateway's
-- answer to the request is an argument; the source's Persian messages stand in English.
use govahee.Prelude.{ℕ, String, not, [], ◌∷◌, none, some, ◌==◌, leb, truthy, map, or_else}
use govahee.Prelude.Text.{decimal, prefix, ◌+++◌}
use govahee.Exec.{Exec, Result, ok, err, payment, pure, raise, raise_if, ◌>>=◌, ◌>>◌}
use govahee.Organizations.Models.{Organization}
use govahee.Billing.Models.{
  Plan, PaymentTransaction, PaymentStatus, Gateway, bitpay, zibal, Payload,
}
use govahee.Billing.State.{Db, next_pk}
use govahee.Billing.Gateway.BitPay.{GatewayResult, done, gateway_error, BitPayRequestResult}
use govahee.Billing.Gateway.Zibal.{ZibalRequestResult, toman_to_rial}
use govahee.Billing.Payments.Settings.{GatewaySettings, bitpay_callback_url, zibal_callback_url}
use govahee.Billing.Payments.Rows.{save, write_failure, log_payment}

-- `PaymentTransaction.objects.create(...)` and `factor_id = f"gvh-{payment.pk}"`
unfoldable pub new_payment : Gateway → Organization → Plan → ℕ → ℕ → PaymentTransaction
new_payment gateway organization plan amount pk = record {
  id = pk;
  organization = organization.id;
  plan = some plan.id;
  gateway = gateway;
  status = PaymentStatus.pending;
  amount = amount;
  factor_id = "";
  gateway_reference = "";
  gateway_transaction_id = "";
  request_payload = [];
  request_response = [];
  verify_response = [];
  card_number = "";
  error_message = "";
  verified_at = none;
  applied_at = none;
}

abbrev pub factor_of : ℕ → String
factor_of pk = "gvh-" +++ decimal pk

unfoldable pub create_payment : Gateway → Organization → Plan → ℕ → Exec Db PaymentTransaction
create_payment gateway organization plan amount db =
    let p = new_payment gateway organization plan amount (next_pk (map (λ q. q.id) db.payments)) in
    (ok p, record db { payments = p ∷ db.payments })

-- the plan's name in the description of the payment
description : Plan → String
description plan = "Subscription " +++ or_else plan.name_fa plan.name

-- `payment.save(update_fields=["factor_id", "request_payload", "updated_at"])`
unfoldable pub save_request : PaymentTransaction → Exec Db (Unit {0})
save_request =
    save λ p row. record row { factor_id = p.factor_id; request_payload = p.request_payload }

-- the `except` branch
unfoldable pub start_failed : PaymentTransaction → String → Exec Db (PaymentTransaction × String)
start_failed p message =
    let q = record p { status = PaymentStatus.failed; error_message = prefix 500 message } in
    do save write_failure q; log_payment q "payment.failed"; raise (payment message)

-- what follows the `try` statement
unfoldable pub start_done :
    PaymentTransaction → String → Payload → String → Exec Db (PaymentTransaction × String)
start_done p reference raw redirect_url =
    let q = record p { gateway_reference = reference; request_response = raw } in
    do
      save
          (λ o row. record row {
            gateway_reference = o.gateway_reference;
            request_response = o.request_response;
          })
          q
      log_payment q "payment.start"
      pure (q, redirect_url)

unfoldable pub bitpay_answered :
    PaymentTransaction → GatewayResult BitPayRequestResult → Exec Db (PaymentTransaction × String)
unfolding start_failed start_done
bitpay_answered p (gateway_error message) = start_failed p message
bitpay_answered p (done result) = start_done p result.id_get result.raw result.redirect_url

unfoldable pub start_bitpay_payment :
    GatewaySettings
    → String
    → GatewayResult BitPayRequestResult
    → Organization
    → Plan
    → ℕ
    → Exec Db (PaymentTransaction × String)
unfolding description save_request bitpay_answered
start_bitpay_payment cfg absolute answer organization plan amount = do
  raise_if (not cfg.bitpay_enabled) (payment "The BitPay gateway is disabled.")
  raise_if (not (truthy cfg.bitpay_api_key)) (payment "The BitPay API key is not set.")
  raise_if (amount == 0) (payment "The amount is not valid.")
  created ← create_payment bitpay organization plan amount
  let factor = factor_of created.id
  let p = record created {
    factor_id = factor;
    request_payload =
        ("redirect", bitpay_callback_url cfg absolute)
        ∷ ("amount", decimal (toman_to_rial amount))
        ∷ ("factorId", factor)
        ∷ ("name", organization.name)
        ∷ ("description", description plan)
        ∷ [];
  }
  save_request p
  bitpay_answered p answer

unfoldable pub zibal_answered :
    PaymentTransaction
    → Result (GatewayResult ZibalRequestResult)
    → Exec Db (PaymentTransaction × String)
unfolding start_failed start_done
zibal_answered p (err e) = raise e
zibal_answered p (ok (gateway_error message)) = start_failed p message
zibal_answered p (ok (done result)) = start_done p result.track_id result.raw result.redirect_url

unfoldable pub start_zibal_payment :
    GatewaySettings
    → String
    → Result (GatewayResult ZibalRequestResult)
    → Organization
    → Plan
    → ℕ
    → Exec Db (PaymentTransaction × String)
unfolding description save_request zibal_answered
start_zibal_payment cfg absolute answer organization plan amount = do
  raise_if (not cfg.zibal_enabled) (payment "The Zibal gateway is disabled.")
  raise_if (not (truthy cfg.zibal_merchant_id)) (payment "The Zibal merchant is not set.")
  raise_if (amount == 0) (payment "The amount is not valid.")
  raise_if (leb (toman_to_rial amount) 1000) (payment "A Zibal payment must exceed 1000 rials.")
  created ← create_payment zibal organization plan amount
  let factor = factor_of created.id
  let p = record created {
    factor_id = factor;
    request_payload =
        ("callbackUrl", zibal_callback_url cfg absolute)
        ∷ ("amount", decimal (toman_to_rial amount))
        ∷ ("orderId", factor)
        ∷ ("description", description plan)
        ∷ [];
  }
  save_request p
  zibal_answered p answer
