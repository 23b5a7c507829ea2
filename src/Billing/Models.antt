-- ===== src/Billing/Models.antt =====
-- billing/models.py, audit/models.py: the tables of the billing app and the audit log. A foreign
-- key is the row's number, a time is a number of seconds. `created_at` and `updated_at` are not
-- kept: where the code orders by `created_at`, the table is in the order of creation, newest first.
use govahee.Prelude.{ℕ, String, Bool, true, false, List, Option, none, some, ◌==◌, if◌then◌else◌}
use govahee.Prelude.Text.{get}

-- the values of `Plan.capabilities`, a JSON object
pub data Value : Type 0 where
  null : Value
  flag : Bool → Value
  number : ℕ → Value

abbrev pub Capabilities : Type 0
Capabilities = List (String × Value)

-- Python's truth of such a value
abbrev pub value_truth : Value → Bool
value_truth null = false
value_truth (flag b) = b
value_truth (number n) = if n == 0 then false else true

pub data Interval : Type 0 where
  monthly yearly : Interval

abbrev pub is_yearly : Interval → Bool
is_yearly yearly = true
is_yearly monthly = false

pub record Plan : Type 0 where
  pub id : ℕ
  pub code : String
  pub name : String
  pub name_fa : String
  pub interval : Interval
  pub price_toman : ℕ
  pub is_active : Bool
  pub sort_order : ℕ
  pub capabilities : Capabilities

-- `Plan.allows`
unfoldable pub allows : Plan → String → Bool
allows plan feature = elim (get feature plan.capabilities) [ none ↦ false | some v ↦ value_truth v ]

pub data SubscriptionStatus : Type 0 where
  trial active past_due canceled expired : SubscriptionStatus

pub record Subscription : Type 0 where
  pub organization : ℕ
  pub plan : ℕ
  pub status : SubscriptionStatus
  pub started_at : ℕ
  pub current_period_end : ℕ
  pub canceled_at : Option ℕ

pub data Gateway : Type 0 where
  bitpay zibal card : Gateway

abbrev pub is_bitpay : Gateway → Bool
is_bitpay bitpay = true
is_bitpay _ = false

abbrev pub is_zibal : Gateway → Bool
is_zibal zibal = true
is_zibal _ = false

pub data PaymentStatus : Type 0 where
  pending paid failed canceled : PaymentStatus

abbrev pub is_paid : PaymentStatus → Bool
is_paid PaymentStatus.paid = true
is_paid _ = false

-- a JSON object that the code only stores, with its values as text
abbrev pub Payload : Type 0
Payload = List (String × String)

pub record PaymentTransaction : Type 0 where
  pub id : ℕ
  pub organization : ℕ
  pub plan : Option ℕ
  pub gateway : Gateway
  pub status : PaymentStatus
  pub amount : ℕ
  pub factor_id : String
  pub gateway_reference : String
  pub gateway_transaction_id : String
  pub request_payload : Payload
  pub request_response : Payload
  pub verify_response : Payload
  pub card_number : String
  pub error_message : String
  pub verified_at : Option ℕ
  pub applied_at : Option ℕ

pub record UsageCounter : Type 0 where
  pub organization : ℕ
  pub period : String
  pub key : String
  pub value : ℕ

-- audit/models.py; `metadata` as a JSON object of texts
pub record AuditLog : Type 0 where
  pub organization : Option ℕ
  pub actor : Option ℕ
  pub actor_label : String
  pub action : String
  pub entity : String
  pub entity_id : String
  pub metadata : Payload
