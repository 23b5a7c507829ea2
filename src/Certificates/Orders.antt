-- ===== src/Certificates/Orders.antt =====
-- What `issue_certificate` of certificates/services.py is called with, and the rows that it makes.
-- The verification token and the UUID, which are drawn, and the SHA-256 of the canonical payload
-- (certificates/variables.py) are arguments. `actor` is the user that also stands in the request.
use govahee.Prelude.{
  Bool, false, not, ℕ, String, ◌&&◌, List, [], ◌∷◌, ◌++◌, Option, none, some, ◌==◌, str_eq, truthy,
  or_else, find, map, update, if◌then◌else◌,
}
use govahee.Prelude.Text.{strip, lower, is_space, lstrip, zero_padded, ◌+++◌}
use govahee.Prelude.Int.{ℤ}
use govahee.Exec.{validation, err, Exec, Result, ok}
use govahee.Organizations.Models.{Organization}
use govahee.Billing.Models.{Payload}
use govahee.Billing.State.{next_pk}
use govahee.Certificates.Dates.Iso.{DateInput, missing, given, written, fromisoformat}
use govahee.Certificates.Dates.{expires, Date, compute_expiry_date}
use govahee.Certificates.Models.{Certificate, Status, Recipient, State}

-- `template` and its `current_version`
pub record Template : Type 0 where
  pub id : ℕ
  pub name : String
  pub current_version : Option ℕ

pub record CertificateType : Type 0 where
  pub id : ℕ
  pub name : String

-- the acting user: its key, `none` for the platform's admin and for an API key, and its name
pub record Actor : Type 0 where
  pub pk : Option ℕ
  pub label : String

-- `recipient_data`; a missing text is the empty one
pub record RecipientData : Type 0 where
  pub email : String
  pub full_name : String
  pub first_name : String
  pub last_name : String
  pub phone : String
  pub external_id : String
  pub metadata : Payload

-- `fields`; a missing text is the empty one
pub record Fields : Type 0 where
  pub title : String
  pub course_name : String
  pub course_code : String
  pub duration : String
  pub score : String
  pub grade : String
  pub instructor_name : String
  pub issuer_name : String
  pub issuer_title : String
  pub description : String
  pub skills : List String
  pub custom_fields : Payload
  pub issue_date : DateInput
  pub expiry_mode : String
  pub expiry_value : Option ℤ
  pub expiry_date : DateInput

pub record Order : Type 0 where
  pub organization : Organization
  pub actor : Actor
  pub recipient_data : RecipientData
  pub fields : Fields
  pub template : Template
  pub certificate_type : Option CertificateType
  pub batch : Option ℕ
  pub idempotency_key : String
  pub token : String
  pub uuid : String
  pub digest : Payload → String

first_word : String → String
unfolding is_space
first_word String.[] = String.[]
first_word (String.◌∷◌ c s) =
    let rest = first_word s in if is_space c then String.[] else String.◌∷◌ c rest

rest_words : String → String
unfolding is_space
rest_words String.[] = String.[]
rest_words (String.◌∷◌ c s) = let rest = rest_words s in if is_space c then lstrip s else rest

-- `_split_name`
unfoldable pub split_name : String → String × String
unfolding first_word rest_words
split_name full_name = let name = strip full_name in (first_word name, rest_words name)

abbrev pub address : RecipientData → String
address data_ = lower (strip data_.email)

-- `Recipient.objects.filter(organization=organization, email=email).first()`, if there is an email
abbrev pub known_recipient : ℕ → String → List Recipient → Option Recipient
known_recipient org email rows =
    if truthy email
    then find (λ (r : Recipient). r.organization == org && str_eq r.email email) rows
    else none

new_recipient : ℕ → RecipientData → ℕ → Recipient
new_recipient org data_ pk =
    let full_name = strip data_.full_name in
    let names = split_name full_name in
    record {
      id = pk;
      organization = org;
      email = address data_;
      full_name = full_name;
      first_name = or_else data_.first_name names.0;
      last_name = or_else data_.last_name names.1;
      phone = data_.phone;
      external_id = data_.external_id;
      metadata = data_.metadata;
    }

-- the recipient is created, or takes the new name
unfoldable pub store_recipient : ℕ → RecipientData → Option Recipient → Exec State Recipient
unfolding new_recipient
store_recipient org data_ none s =
    let r = new_recipient org data_ (next_pk (map (λ q. q.id) s.recipients)) in
    (ok r, record s { recipients = s.recipients ++ (r ∷ []) })
store_recipient org data_ (some r) s =
    let full_name = or_else (strip data_.full_name) r.full_name in
    (
      ok (record r { full_name = full_name }),
      record s {
        recipients =
            update (λ q. q.id == r.id) (λ q. record q { full_name = full_name }) s.recipients;
      },
    )

abbrev type_name : Option CertificateType → String
type_name none = ""
type_name (some t) = t.name

abbrev type_id : Option CertificateType → Option ℕ
type_id none = none
type_id (some t) = some t.id

-- `fields.get("expiry_mode") or "none"`
abbrev pub expiry_mode : Fields → String
expiry_mode f = or_else f.expiry_mode "none"

-- the issue date: today if it is missing or empty
unfoldable pub issue_date_of : DateInput → Date → Result Date
issue_date_of missing today = ok today
issue_date_of (given d) today = ok d
issue_date_of (written s) today = if truthy s then fromisoformat s else ok today

-- a date that is written is read, whatever the mode is
unfoldable pub expiry_input : DateInput → Result (Option Date)
expiry_input missing = ok none
expiry_input (given d) = ok (some d)
expiry_input (written s) = if truthy s then expires (fromisoformat s) else ok none

-- the empty text, which no date column takes
abbrev pub is_empty : DateInput → Bool
is_empty (written s) = not (truthy s)
is_empty _ = false

unfoldable pub expiry_by_mode : Fields → Date → Result (Option Date) → Result (Option Date)
expiry_by_mode f issue_date (err e) = err e
expiry_by_mode f issue_date (ok read) =
    if str_eq (expiry_mode f) "date"
    then (if is_empty f.expiry_date then err (validation "The date is not valid.") else ok read)
    else compute_expiry_date issue_date (expiry_mode f) f.expiry_value

unfoldable pub expiry_of : Fields → Date → Result (Option Date)
expiry_of f issue_date = expiry_by_mode f issue_date (expiry_input f.expiry_date)

-- the object of `Certificate.objects.create(...)`, before its hash is known
unfoldable pub new_certificate :
    Order → ℕ → Recipient → Date → Option Date → String → ℕ → ℕ → Certificate
new_certificate o version recipient issue_date expiry_date number now pk = record {
  id = pk;
  organization = o.organization.id;
  certificate_number = number;
  verification_token = o.token;
  status = Status.issued;
  certificate_type = type_id o.certificate_type;
  template = o.template.id;
  template_version = version;
  recipient = recipient.id;
  title = or_else o.fields.title (or_else (type_name o.certificate_type) o.template.name);
  course_name = o.fields.course_name;
  course_code = o.fields.course_code;
  duration = o.fields.duration;
  score = o.fields.score;
  grade = o.fields.grade;
  instructor_name = o.fields.instructor_name;
  issuer_name = or_else o.fields.issuer_name o.organization.name;
  issuer_title = o.fields.issuer_title;
  description = o.fields.description;
  skills = o.fields.skills;
  custom_fields = o.fields.custom_fields;
  issue_date = issue_date;
  expiry_mode = expiry_mode o.fields;
  expiry_value = o.fields.expiry_value;
  expiry_date = expiry_date;
  issued_at = some now;
  revoked_at = none;
  revoke_reason = "";
  batch = o.batch;
  integrity_hash = "";
  issued_by = o.actor.pk;
  idempotency_key = o.idempotency_key;
  download_count = 0;
  view_count = 0;
  verification_count = 0;
}

-- `d.isoformat()`, and "" for no date
abbrev pub isoformat : Date → String
isoformat d = zero_padded 4 d.year +++ "-" +++ zero_padded 2 d.month +++ "-" +++ zero_padded 2 d.day

abbrev pub isoformat_or_empty : Option Date → String
isoformat_or_empty none = ""
isoformat_or_empty (some d) = isoformat d

-- `canonical_payload`
unfoldable pub canonical_payload : String → Organization → Recipient → Certificate → Payload
canonical_payload uuid organization recipient c =
    ("certificate_id", uuid)
    ∷ ("recipient", recipient.full_name)
    ∷ ("course", c.course_name)
    ∷ ("issuer", or_else c.issuer_name organization.name)
    ∷ ("issue_date", isoformat c.issue_date)
    ∷ ("expiry_date", isoformat_or_empty c.expiry_date)
    ∷ ("certificate_number", c.certificate_number)
    ∷ []
