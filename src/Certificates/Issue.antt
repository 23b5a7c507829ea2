-- ===== src/Certificates/Issue.antt =====
-- `issue_certificate` of certificates/services.py, which runs under `transaction.atomic`.
use govahee.Prelude.{
  ℕ, String, Bool, true, false, ◌&&◌, ◌||◌, not, List, [], ◌∷◌, Option, none, some, ◌==◌, str_eq,
  truthy, any, map, if◌then◌else◌,
}
use govahee.Prelude.Text.{strip, decimal}
use govahee.Prelude.Int.{ℤ, is_negative}
use govahee.Exec.{
  Exec, Result, ok, err, validation, integrity_error, pure, raise_if, modify, atomic, ◌>>=◌, ◌>>◌,
}
use govahee.Billing.Models.{Payload}
use govahee.Billing.State.{Db, next_pk}
use govahee.Billing.Entitlements.{assert_can_issue, increment_usage}
use govahee.Certificates.Dates.{Date}
use govahee.Certificates.Models.{Certificate, Recipient, EventKind, State, by_key}
use govahee.Certificates.Numbering.{next_certificate_number}
use govahee.Certificates.Orders.{
  Actor, Order, address, known_recipient, store_recipient, expiry_of, issue_date_of,
  new_certificate, canonical_payload,
}

-- code of the billing app, run on its part of the database
abbrev pub in_billing : {A : Type 0} → Exec Db A → Exec State A
in_billing m s = let r = m s.billing in (r.0, record s { billing = r.1 })

-- a step that reads no row: a value or an exception
abbrev pub from_result : {A : Type 0} → Result A → Exec State A
from_result r s = (r, s)

-- `log_action` for a certificate
unfoldable pub log_certificate : Actor → String → ℕ → ℕ → Payload → Exec State (Unit {0})
log_certificate actor action pk organization metadata = in_billing (
    modify λ db. record db {
      audit =
          record {
            organization = some organization;
            actor = actor.pk;
            actor_label = actor.label;
            action = action;
            entity = "certificate";
            entity_id = decimal pk;
            metadata = metadata;
          }
          ∷ db.audit;
    })

-- `CertificateEvent.objects.create(...)`
unfoldable pub add_event : ℕ → EventKind → Option ℕ → Payload → Exec State (Unit {0})
add_event pk kind actor metadata = modify λ s. record s {
  events = record { certificate = pk; kind = kind; actor = actor; metadata = metadata } ∷ s.events;
}

-- `dispatch_certificate_event`: the event waits for the commit
unfoldable pub dispatch : ℕ → String → Payload → Exec State (Unit {0})
dispatch organization event payload = modify λ s. record s {
  outbox = record { organization = organization; event = event; payload = payload } ∷ s.outbox;
}

-- the unique constraints on the number, in an organization, and on the token
unfoldable pub is_taken : Certificate → List Certificate → Bool
is_taken c rows =
    any
      (λ (d : Certificate).
        d.organization == c.organization && str_eq d.certificate_number c.certificate_number
        || str_eq d.verification_token c.verification_token)
      rows

-- the object with its `integrity_hash`
abbrev pub sealed : (Certificate → String) → Certificate → Certificate
sealed hash c = record c { integrity_hash = hash c }

-- the check of the column of `expiry_value`, a `PositiveIntegerField`
abbrev pub has_negative : Option ℤ → Bool
has_negative none = false
has_negative (some n) = is_negative n

-- a row that breaks a constraint is refused
unfoldable pub insert : Bool → Certificate → Exec State Certificate
insert true c s = (err integrity_error, s)
insert false c s = (ok c, record s { certificates = c ∷ s.certificates })

-- `Certificate.objects.create(...)`, the hash, and its save
unfoldable pub store_certificate :
    (ℕ → Certificate) → (Certificate → String) → Exec State Certificate
store_certificate make hash s =
    let c = sealed hash (make (next_pk (map (λ c. c.id) s.certificates))) in
    insert (is_taken c s.certificates || has_negative c.expiry_value) c s

-- what follows the creation of the certificate
unfoldable pub announce : Order → Recipient → Certificate → Exec State Certificate
announce o recipient c = do
  add_event c.id EventKind.issued o.actor.pk []
  in_billing (increment_usage o.organization.id "certificates_issued" 1)
  log_certificate o.actor "certificate.issued" c.id o.organization.id
      (("number", c.certificate_number) ∷ [])
  dispatch o.organization.id "certificate.issued" (
      ("id", decimal c.id)
      ∷ ("certificate_number", c.certificate_number)
      ∷ ("recipient_name", recipient.full_name)
      ∷ ("course_name", c.course_name)
      ∷ ("status", "issued")
      ∷ [])
  pure c

-- once the number is known: the row, and what follows it
unfoldable pub issue_numbered :
    Order → Recipient → ℕ → Date → Option Date → String → Exec State Certificate
issue_numbered o recipient version issue_date expiry_date number s =
    (store_certificate
          (new_certificate o version recipient issue_date expiry_date number s.billing.now)
          (λ c. o.digest (canonical_payload o.uuid o.organization recipient c))
        >>= announce o recipient)
      s

-- once the date of expiry is known
unfoldable pub issue_dated : Order → Recipient → ℕ → Date → Option Date → Exec State Certificate
issue_dated o recipient version issue_date expiry_date =
    next_certificate_number o.organization issue_date
    >>= issue_numbered o recipient version issue_date expiry_date

-- once the date of issue is known
unfoldable pub issue_on : Order → Recipient → ℕ → Date → Exec State Certificate
issue_on o recipient version issue_date =
    from_result (expiry_of o.fields issue_date) >>= issue_dated o recipient version issue_date

-- the certificate of a known version of the template
unfoldable pub issue_version : Order → Recipient → Option ℕ → Exec State Certificate
issue_version o recipient none s = (err (validation "The template has no active version."), s)
issue_version o recipient (some version) s =
    (from_result (issue_date_of o.fields.issue_date s.today) >>= issue_on o recipient version) s

-- once the recipient is stored
abbrev pub issue_to : Order → Recipient → Exec State Certificate
issue_to o recipient = issue_version o recipient o.template.current_version

-- once the quota is known to be open
unfoldable pub issue_open : Order → Exec State Certificate
issue_open o s =
    (raise_if (not (truthy (strip o.recipient_data.full_name)))
          (validation "The name of the recipient is required.")
        >> (store_recipient o.organization.id o.recipient_data
              (known_recipient o.organization.id (address o.recipient_data) s.recipients)
            >>= issue_to o))
      s

-- the steps for a request that was not served before
unfoldable pub issue_new : Order → Exec State Certificate
issue_new o = in_billing (assert_can_issue o.organization.id) >> issue_open o

unfoldable pub issue_unless : Order → Option Certificate → Exec State Certificate
issue_unless o none = issue_new o
issue_unless o (some existing) = pure existing

-- the certificate that was issued for the request's idempotency key, if it has one
abbrev pub issued_before : Order → List Certificate → Option Certificate
issued_before o rows =
    if truthy o.idempotency_key then by_key o.organization.id o.idempotency_key rows else none

unfoldable pub issue_steps : Order → Exec State Certificate
issue_steps o s =
    (do
      raise_if (not o.organization.issuance_enabled)
          (validation "Issuing is disabled for this organization.")
      raise_if o.organization.is_suspended (validation "The organization is suspended.")
      issue_unless o (issued_before o s.certificates))
      s

-- `issue_certificate`
unfoldable pub issue_certificate : Order → Exec State Certificate
issue_certificate o = atomic (issue_steps o)
