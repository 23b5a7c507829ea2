-- ===== src/Billing/Tests/Fixtures.antt =====
-- Rows and gateway answers for the runs of the billing app.
use govahee.Prelude.{String, true, false, [], ◌∷◌, none, some}
use govahee.Exec.{Result, ok}
use govahee.Organizations.Models.{Organization}
use govahee.Billing.Models.{
  Plan, monthly, Subscription, SubscriptionStatus, PaymentTransaction, PaymentStatus, zibal, flag,
  number,
}
use govahee.Billing.State.{Db}
use govahee.Billing.Gateway.Decimal.{whole}
use govahee.Billing.Gateway.Json.{int}
use govahee.Billing.Gateway.BitPay.{GatewayResult, done, BitPayVerifyResult}
use govahee.Billing.Gateway.Zibal.{ZibalVerifyResult}
use govahee.Billing.Payments.Settings.{GatewaySettings}
use govahee.Billing.Payments.Begin.{Outside}
use govahee.Billing.Gateway.BitPay.{gateway_error}

abbrev pub academy : Organization
academy = record {
  id = 7;
  name = "Academy";
  slug = "academy";
  contact_email = "";
  description = "";
  website = "";
  verification_status = "verified";
  certificate_number_prefix = "CERT-";
  is_suspended = false;
  issuance_enabled = true;
  api_enabled = false;
  verification_search_enabled = true;
  public_issuer_page_enabled = true;
  verification_indexable = false;
  onboarding_completed_at = none;
}

abbrev pub professional : Plan
professional = record {
  id = 3;
  code = "professional";
  name = "Professional";
  name_fa = "";
  interval = monthly;
  price_toman = 890000;
  is_active = true;
  sort_order = 2;
  capabilities = ("certificates_per_month", number 2000) ∷ ("api", flag true) ∷ [];
}

abbrev pub running : Subscription
running = record {
  organization = 7;
  plan = 3;
  status = SubscriptionStatus.active;
  started_at = 100;
  current_period_end = 5000;
  canceled_at = none;
}

abbrev pub open_payment : PaymentTransaction
open_payment = record {
  id = 1;
  organization = 7;
  plan = some 3;
  gateway = zibal;
  status = PaymentStatus.pending;
  amount = 890000;
  factor_id = "gvh-1";
  gateway_reference = "55";
  gateway_transaction_id = "";
  request_payload = [];
  request_response = [];
  verify_response = [];
  card_number = "";
  error_message = "";
  verified_at = none;
  applied_at = none;
}

abbrev pub paid_payment : PaymentTransaction
paid_payment = record open_payment {
  status = PaymentStatus.paid;
  verified_at = some 1000;
  applied_at = some 1000;
}

abbrev pub database : PaymentTransaction → Db
database p = record {
  now = 1000;
  period = "2026-01";
  trial_days = 14;
  organizations = academy ∷ [];
  plans = professional ∷ [];
  subscriptions = running ∷ [];
  payments = p ∷ [];
  usage = [];
  audit = [];
}

abbrev pub settings : GatewaySettings
settings = record {
  bitpay_enabled = true;
  bitpay_api_key = "key";
  bitpay_callback_url = "";
  zibal_enabled = true;
  zibal_merchant_id = "merchant";
  zibal_callback_url = "";
}

abbrev pub zibal_answer : ZibalVerifyResult
zibal_answer = record {
  success = true;
  result = some (false, 201);
  status = int false 1;
  amount_rials = some (whole 8900000);
  card_number = "";
  ref_number = "9";
  order_id = "gvh-1";
  raw = [];
}

abbrev pub zibal_says : String → Result (GatewayResult ZibalVerifyResult)
zibal_says track_id = ok (done zibal_answer)

abbrev pub bitpay_says : String → String → GatewayResult BitPayVerifyResult
bitpay_says trans_id id_get = done (record {
  success = true;
  status = int false 1;
  amount = some (whole 8900000);
  card_number = "";
  factor_id = "";
  raw = [];
})

abbrev pub starter : Plan
starter = record professional {
  id = 2;
  code = "starter";
  name = "Starter";
  capabilities = ("certificates_per_month", number 200) ∷ [];
}

abbrev pub unsubscribed : Db
unsubscribed = record (database open_payment) { subscriptions = [] }

-- two certificates were issued and one mail was sent this month
abbrev pub used : Db
used = record (database open_payment) {
  usage =
      record { organization = 7; period = "2026-01"; key = "emails_sent"; value = 1 }
      ∷ record { organization = 7; period = "2026-01"; key = "certificates_issued"; value = 2 }
      ∷ [];
}

-- both gateways are out of reach
abbrev pub offline : Outside
offline = record {
  absolute = "https://example.org/callback";
  bitpay_answer = gateway_error "offline";
  zibal_answer = ok (gateway_error "offline");
}
