-- ===== src/Billing/Gateway/Zibal.antt =====
-- billing/payments/zibal.py. The answer of `_post_json` is an argument: a JSON object, or the
-- message with which it raises ZibalError.
-- The source's messages are Persian; here they stand in English.
use govahee.Prelude.{
  ℕ, ◌*◌, String, Bool, true, false, ◌&&◌, ◌||◌, not, Option, none, some, ◌==◌, truthy, str_eq,
  if◌then◌else◌,
}
use govahee.Prelude.Text.{strip, ◌+++◌}
use govahee.Exec.{Result, ok, err}
use govahee.Billing.Models.{Payload}
use govahee.Billing.Gateway.Decimal.{Decimal}
use govahee.Billing.Gateway.Json.{
  Json, Object, field, json_str, json_truth, str_or_empty, is_blank, decimal_or_none, int_or_none,
  parse_int,
}
use govahee.Billing.Gateway.BitPay.{GatewayResult, done, gateway_error}

pub record ZibalRequestResult : Type 0 where
  pub track_id : String
  pub redirect_url : String
  pub raw : Payload

pub record ZibalVerifyResult : Type 0 where
  pub success : Bool
  pub result : Option (Bool × ℕ)
  pub status : Json
  pub amount_rials : Option Decimal
  pub card_number : String
  pub ref_number : String
  pub order_id : String
  pub raw : Payload

-- the answer: the object with its stored form
pub data Answer : Type 0 where
  failed : String → Answer
  object : Object → Payload → Answer

-- `_status_is_paid`
unfoldable pub status_is_paid : Json → Bool
status_is_paid status = if is_blank status then true else str_eq (strip (json_str status)) "1"

-- `result in {100, 201}`
unfoldable pub is_success_code : Option (Bool × ℕ) → Bool
is_success_code none = false
is_success_code (some (negative, n)) = not negative && (n == 100 || n == 201)

-- `amount_toman_to_rial` at a whole amount
abbrev pub toman_to_rial : ℕ → ℕ
toman_to_rial amount = amount * 10

is_hundred : Option (Bool × ℕ) → Bool
is_hundred none = false
is_hundred (some (negative, n)) = not negative && n == 100

accept_request : Object → Payload → Option (Bool × ℕ) → GatewayResult ZibalRequestResult
unfolding is_hundred
accept_request fields raw result =
    let message = field "message" fields in
    let track_id = str_or_empty (field "trackId" fields) in
    if not (is_hundred result)
    then gateway_error (
        (if json_truth message
          then json_str message
          else "The payment request to Zibal was refused.")
        +++ " Result code: "
        +++ json_str (field "result" fields))
    else if not (truthy track_id)
    then gateway_error "Zibal returned no valid trackId."
    else done (record {
      track_id = track_id;
      redirect_url = "https://gateway.zibal.ir/start/" +++ track_id;
      raw = raw;
    })

-- `request_payment`, from the answer to the POST on; an error is the OverflowError of int()
unfoldable pub request_payment : Answer → Result (GatewayResult ZibalRequestResult)
unfolding accept_request
request_payment (failed message) = ok (gateway_error message)
request_payment (object fields raw) = elim (int_or_none (field "result" fields)) [
  | ok result ↦ ok (accept_request fields raw result)
  | err e ↦ err e
]

verify_result : Object → Payload → Option (Bool × ℕ) → ZibalVerifyResult
verify_result fields raw result = record {
  success = is_success_code result && status_is_paid (field "status" fields);
  result = result;
  status = field "status" fields;
  amount_rials = decimal_or_none (field "amount" fields);
  card_number = str_or_empty (field "cardNumber" fields);
  ref_number = str_or_empty (field "refNumber" fields);
  order_id = str_or_empty (field "orderId" fields);
  raw = raw;
}

-- `verify_payment`: the track id must be a number before anything is posted
unfoldable pub verify_payment : Answer → String → Result (GatewayResult ZibalVerifyResult)
unfolding verify_result
verify_payment answer track_id = elim (parse_int track_id) [
  | none ↦ ok (gateway_error "The Zibal trackId is not valid.")
  | some number ↦ elim answer [
    | failed message ↦ ok (gateway_error message)
    | object fields raw ↦ elim (int_or_none (field "result" fields)) [
      | ok result ↦ ok (done (verify_result fields raw result))
      | err e ↦ err e
    ]
  ]
]
