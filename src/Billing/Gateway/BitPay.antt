-- ===== src/Billing/Gateway/BitPay.antt =====
-- billing/payments/bitpay.py. The answer of the HTTP POST is an argument: the text of the body, or
-- the message with which `_post_form` raises BitPayError; a verify body comes with its JSON value.
-- The source's messages are Persian; here they stand in English.
use govahee.Prelude.{
  ℕ, ◌+◌, ◌*◌, ◌/◌, String, Bool, false, ◌&&◌, ◌||◌, not, [], ◌∷◌, Option, none, some, ◌==◌,
  if◌then◌else◌,
}
use govahee.Prelude.Text.{strip, lower, member, decimal, ◌+++◌}
use govahee.Exec.{Result, ok, err}
use govahee.Billing.Models.{Payload}
use govahee.Billing.Gateway.Decimal.{Decimal, finite, eq_natural, is_natural, quantize}
use govahee.Billing.Gateway.Json.{
  Json, null, bool, int, float, text, composite, Object, field, str_or_empty, decimal_or_none,
  parse_int,
}

-- A value, or the message of a BitPayError or a ZibalError.
pub data GatewayResult (A : Type 0) : Type 0 where
  done : A → GatewayResult A
  gateway_error : String → GatewayResult A

pub record BitPayRequestResult : Type 0 where
  pub id_get : String
  pub redirect_url : String
  pub raw : Payload

pub record BitPayVerifyResult : Type 0 where
  pub success : Bool
  pub status : Json
  pub amount : Option Decimal
  pub card_number : String
  pub factor_id : String
  pub raw : Payload

-- `_status_is_success`
unfoldable pub status_is_success : Json → Bool
status_is_success (bool b) = b
status_is_success (int negative n) = not negative && (n == 1 || n == 11)
status_is_success (float repr value) = eq_natural value 1 || eq_natural value 11
status_is_success (text s) =
    member (lower (strip s)) ("1" ∷ "11" ∷ "success" ∷ "successful" ∷ "paid" ∷ "ok" ∷ "true" ∷ [])
status_is_success null = false
status_is_success (composite repr) = false

-- `amount_toman_to_rial` at a whole amount
abbrev pub toman_to_rial : ℕ → ℕ
toman_to_rial amount = amount * 10

-- `amount_rial_to_toman` at a whole amount: a tenth, with a half rounded up
abbrev pub rial_to_toman : ℕ → ℕ
rial_to_toman amount = (amount + 5) / 10

-- the three comparisons, once both amounts are whole
unfoldable pub whole_amount_matches : Decimal → ℕ → Bool
whole_amount_matches (finite negative verified scale) expected =
    is_natural negative verified expected
    || (is_natural negative (rial_to_toman verified) expected
        || is_natural negative verified (toman_to_rial expected))
whole_amount_matches _ expected = false

-- `_amount_matches_expected`
unfoldable pub amount_matches_expected : Decimal → ℕ → Result Bool
amount_matches_expected verified expected = elim (quantize verified) [
  | ok whole ↦ ok (whole_amount_matches whole expected)
  | err e ↦ err e
]

accept_id : String → Option (Bool × ℕ) → GatewayResult BitPayRequestResult
accept_id body none = gateway_error ("BitPay: invalid answer: " +++ body)
accept_id body (some (negative, n)) =
    if negative || n == 0
    then gateway_error ("BitPay refused the payment request. Error code: " +++ body)
    else done (record {
      id_get = decimal n;
      redirect_url = "https://bitpay.ir/payment/gateway-" +++ decimal n +++ "-get";
      raw = ("id_get", decimal n) ∷ [];
    })

-- `request_payment`, from the answer to the POST on
unfoldable pub request_payment : GatewayResult String → GatewayResult BitPayRequestResult
unfolding accept_id
request_payment (gateway_error message) = gateway_error message
request_payment (done body) = accept_id body (parse_int body)

-- the body of a verify answer as `json.loads` reads it
pub data VerifyBody : Type 0 where
  malformed : String → VerifyBody
  object : Object → Payload → VerifyBody
  scalar : Json → Payload → VerifyBody

-- `verify_payment`, from the answer to the POST on
unfoldable pub verify_payment : GatewayResult VerifyBody → GatewayResult BitPayVerifyResult
verify_payment (gateway_error message) = gateway_error message
verify_payment (done (malformed body)) = gateway_error ("BitPay: invalid verify answer: " +++ body)
verify_payment (done (scalar value raw)) = done (record {
  success = status_is_success value;
  status = value;
  amount = none;
  card_number = "";
  factor_id = "";
  raw = raw;
})
verify_payment (done (object fields raw)) = done (record {
  success = status_is_success (field "status" fields);
  status = field "status" fields;
  amount = decimal_or_none (field "amount" fields);
  card_number = str_or_empty (field "cardNum" fields);
  factor_id = str_or_empty (field "factorId" fields);
  raw = raw;
})
