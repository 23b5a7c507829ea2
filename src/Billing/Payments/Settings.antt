-- ===== src/Billing/Payments/Settings.antt =====
-- billing/payments/settings.py: `effective_payment_settings`; the platform's row goes before the
-- environment. The helpers of billing/payments/service.py that make URLs stand here too.
use govahee.Prelude.{
  ℕ, String, Bool, ◌||◌, Option, none, some, truthy, or_else, ◌==◌, if◌then◌else◌,
}
use govahee.Prelude.Text.{strip, rstrip_slash, decimal, ◌+++◌}

-- the columns of `PlatformSettings`, or the names of the same meaning in the Django settings
pub record GatewaySettings : Type 0 where
  pub bitpay_enabled : Bool
  pub bitpay_api_key : String
  pub bitpay_callback_url : String
  pub zibal_enabled : Bool
  pub zibal_merchant_id : String
  pub zibal_callback_url : String

unfoldable pub effective_payment_settings : GatewaySettings → GatewaySettings → GatewaySettings
effective_payment_settings platform env = record {
  bitpay_enabled = platform.bitpay_enabled || env.bitpay_enabled;
  bitpay_api_key = strip (or_else platform.bitpay_api_key env.bitpay_api_key);
  bitpay_callback_url = strip (or_else platform.bitpay_callback_url env.bitpay_callback_url);
  zibal_enabled = platform.zibal_enabled || env.zibal_enabled;
  zibal_merchant_id = strip (or_else platform.zibal_merchant_id env.zibal_merchant_id);
  zibal_callback_url = strip (or_else platform.zibal_callback_url env.zibal_callback_url);
}

-- `bitpay_callback_url(request)`; `absolute` is `request.build_absolute_uri(reverse(...))`
unfoldable pub bitpay_callback_url : GatewaySettings → String → String
bitpay_callback_url cfg absolute =
    if truthy cfg.bitpay_callback_url then cfg.bitpay_callback_url else absolute

unfoldable pub zibal_callback_url : GatewaySettings → String → String
zibal_callback_url cfg absolute =
    if truthy cfg.zibal_callback_url then cfg.zibal_callback_url else absolute

query : String → Option ℕ → String
query status none = "payment=" +++ status
query status (some n) =
    if n == 0
    then "payment=" +++ status
    else "payment=" +++ status +++ "&transaction=" +++ decimal n

-- `frontend_payment_url`, at a status of plain letters, which `urlencode` leaves as it is
unfoldable pub frontend_payment_url : String → String → Option ℕ → String
unfolding query
frontend_payment_url site status transaction_id =
    let path = "/app/billing?" +++ query status transaction_id in
    let base = rstrip_slash site in if truthy base then base +++ path else path
