-- ===== src/Certificates/Models.antt =====
-- certificates/models.py: the rows of certificates, recipients, number sequences and events, and
-- `public_status`. A foreign key is the row's number. The share counter, which no code writes, is left out.
use govahee.Prelude.{
  ℕ, String, Bool, ◌&&◌, List, Option, none, some, ◌==◌, str_eq, find, if◌then◌else◌,
}
use govahee.Billing.Models.{Payload}
use govahee.Billing.State.{Db}
use govahee.Prelude.Int.{ℤ}
use govahee.Certificates.Dates.{Date, before}

-- `Certificate.Status`
pub data Status : Type 0 where
  draft issued expired revoked void : Status

pub record Certificate : Type 0 where
  pub id : ℕ
  pub organization : ℕ
  pub certificate_number : String
  pub verification_token : String
  pub status : Status
  pub certificate_type : Option ℕ
  pub template : ℕ
  pub template_version : ℕ
  pub recipient : ℕ
  pub title : String
  pub course_name : String
  pub course_code : String
  pub duration : String
  pub score : String
  pub grade : String
  pub instructor_name : String
  pub issuer_name : String
  pub issuer_title : String
  pub description : String
  pub skills : List String
  pub custom_fields : Payload
  pub issue_date : Date
  pub expiry_mode : String
  pub expiry_value : Option ℤ
  pub expiry_date : Option Date
  pub issued_at : Option ℕ
  pub revoked_at : Option ℕ
  pub revoke_reason : String
  pub batch : Option ℕ
  pub integrity_hash : String
  pub issued_by : Option ℕ
  pub idempotency_key : String
  pub download_count : ℕ
  pub view_count : ℕ
  pub verification_count : ℕ

pub record Recipient : Type 0 where
  pub id : ℕ
  pub organization : ℕ
  pub email : String
  pub full_name : String
  pub first_name : String
  pub last_name : String
  pub phone : String
  pub external_id : String
  pub metadata : Payload

pub record CertificateNumberSequence : Type 0 where
  pub organization : ℕ
  pub year : ℕ
  pub last_value : ℕ

-- the kinds of `CertificateEvent` that the code modelled here writes
pub data EventKind : Type 0 where
  issued revoked sent downloaded verified : EventKind

pub record CertificateEvent : Type 0 where
  pub certificate : ℕ
  pub kind : EventKind
  pub actor : Option ℕ
  pub metadata : Payload

-- an event that `dispatch_certificate_event` sends once the transaction is committed
pub record Dispatch : Type 0 where
  pub organization : ℕ
  pub event : String
  pub payload : Payload

-- The database of the certificates app over that of billing, and `timezone.localdate()`.
-- Certificates and events are in the order of creation, newest first, and recipients in the order of
-- their keys.
pub record State : Type 0 where
  pub billing : Db
  pub today : Date
  pub sequences : List CertificateNumberSequence
  pub recipients : List Recipient
  pub certificates : List Certificate
  pub events : List CertificateEvent
  pub outbox : List Dispatch

-- what the public page says of a certificate: the status, or "active"
pub data PublicStatus : Type 0 where
  status : Status → PublicStatus
  active : PublicStatus

-- `self.expiry_date and self.expiry_date < timezone.localdate()`
abbrev pub is_past : Option Date → Date → Bool
is_past none today = Bool.false
is_past (some d) today = before d today

unfoldable pub public_of : Status → Bool → PublicStatus
public_of Status.revoked past = status Status.revoked
public_of void past = status Status.void
public_of draft past = status Status.draft
public_of Status.issued past = if past then status Status.expired else active
public_of expired past = status Status.expired

-- `public_status`
unfoldable pub public_status : Certificate → Date → PublicStatus
unfolding public_of
public_status c today = public_of c.status (is_past c.expiry_date today)

abbrev pub is_revoked : Status → Bool
is_revoked Status.revoked = Bool.true
is_revoked _ = Bool.false

abbrev pub is_draft : Status → Bool
is_draft draft = Bool.true
is_draft _ = Bool.false

-- the certificate of an organization with this idempotency key
abbrev pub by_key : ℕ → String → List Certificate → Option Certificate
by_key org key = find (λ (c : Certificate). c.organization == org && str_eq c.idempotency_key key)

abbrev pub certificate_by_pk : ℕ → List Certificate → Option Certificate
certificate_by_pk pk = find (λ c. c.id == pk)
