-- ===== src/Certificates/Batch/Rows.antt =====
-- The rows of a batch in certificates/models.py, and the arguments with which process_issuance_batch
-- of certificates/tasks.py issues an item.
use govahee.Prelude.{
  ℕ, String, Bool, List, [], ◌∷◌, Option, none, some, if◌then◌else◌, keep, truthy, not, true, false,
}
use govahee.Prelude.Text.{member}
use govahee.Billing.Models.{Payload}
use govahee.Certificates.Orders.{Order, Actor, Template, CertificateType}
use govahee.Organizations.Models.{Organization}
use govahee.Certificates.Dates.Iso.{DateInput, missing, written}
use govahee.Certificates.Bulk.{value_at, recipient_name}

-- `IssuanceItem.Status`
pub data ItemStatus : Type 0 where
  pending valid invalid issued failed : ItemStatus

pub record IssuanceItem : Type 0 where
  pub id : ℕ
  pub batch : ℕ
  pub row_number : ℕ
  pub payload : Payload
  pub errors : List String
  pub status : ItemStatus
  pub certificate : Option ℕ

-- `IssuanceBatch.Status`
pub data BatchStatus : Type 0 where
  draft validating processing completed failed partial : BatchStatus

pub record IssuanceBatch : Type 0 where
  pub id : ℕ
  pub organization : Organization
  pub created_by : Actor
  pub template : Template
  pub certificate_type : Option CertificateType
  pub source_filename : String
  pub column_mapping : Payload
  pub total_rows : ℕ
  pub send_email : Bool
  pub status : BatchStatus
  pub processed_rows : ℕ
  pub success_count : ℕ
  pub error_count : ℕ
  pub error_report : List (ℕ × List String)
  pub started_at : Option ℕ
  pub finished_at : Option ℕ

abbrev pub is_issued : ItemStatus → Bool
is_issued ItemStatus.issued = true
is_issued _ = false

abbrev own_fields : List String
own_fields =
    "recipient_name" ∷ "name" ∷ "email" ∷ "phone" ∷ "recipient_id" ∷ "title" ∷ "course_name"
    ∷ "course_code" ∷ "score" ∷ "grade" ∷ "issue_date" ∷ "duration" ∷ "instructor_name"
    ∷ "issuer_name" ∷ []

abbrev date_input : String → DateInput
date_input s = if truthy s then written s else missing

-- what is drawn for the certificate of an item, and the hash of its payload
pub record Drawn : Type 0 where
  pub token : String
  pub uuid : String
  pub digest : Payload → String

-- the arguments of `issue_certificate` for a mapped row
unfoldable pub order_of : IssuanceBatch → Drawn → Payload → Order
order_of batch drawn mapped = record {
  organization = batch.organization;
  actor = batch.created_by;
  recipient_data = record {
    email = value_at "email" mapped;
    full_name = recipient_name mapped;
    first_name = "";
    last_name = "";
    phone = value_at "phone" mapped;
    external_id = value_at "recipient_id" mapped;
    metadata = [];
  };
  fields = record {
    title = value_at "title" mapped;
    course_name = value_at "course_name" mapped;
    course_code = value_at "course_code" mapped;
    duration = value_at "duration" mapped;
    score = value_at "score" mapped;
    grade = value_at "grade" mapped;
    instructor_name = value_at "instructor_name" mapped;
    issuer_name = value_at "issuer_name" mapped;
    issuer_title = "";
    description = "";
    skills = [];
    custom_fields = keep (λ (f : String × String). not (member f.0 own_fields)) mapped;
    issue_date = date_input (value_at "issue_date" mapped);
    expiry_mode = "";
    expiry_value = none;
    expiry_date = missing;
  };
  template = batch.template;
  certificate_type = batch.certificate_type;
  batch = some batch.id;
  idempotency_key = "";
  token = drawn.token;
  uuid = drawn.uuid;
  digest = drawn.digest;
}
