-- ===== src/Certificates/Issued.antt =====
-- What `issue_certificate` of certificates/services.py promises when it returns a certificate.
use govahee.Prelude.{
  ℕ, ◌+◌, ◌<◌, String, ◌≡◌, refl, sym, ap, ◌∙◌, ◌⊎◌, Bool, true, false, ◌&&◌, not, map, ◌∷◌, Option,
  none, some, arith, leb, ◌==◌,
}
use govahee.Exec.{Exec, Result, Error, raise_if, ok, err, continue, continue-inv, guard-inv, ◌>>=◌}
use govahee.Billing.State.{Db, next_pk}
use govahee.Billing.Entitlements.{
  assert_can_issue, current_usage, limit_of, get_entitlements, increment_usage,
}
use govahee.Billing.Usage.{increment_usage_self}
use govahee.Certificates.Models.{Certificate, Status, Recipient, State}
use govahee.Certificates.Orders.{
  Order, known_recipient, store_recipient, new_certificate, address, canonical_payload, expiry_of,
  issue_date_of,
}
use govahee.Certificates.Dates.{Date}
use govahee.Certificates.Numbering.{next_certificate_number}
use govahee.Certificates.Issue.{
  in_billing, is_taken, sealed, insert, add_event, log_certificate, dispatch, store_certificate,
  announce, issue_numbered, issue_dated, issue_on, issue_version, issue_to, issue_open, issue_new,
}

-- the organization may issue one more certificate this month
pub Open : ℕ → Db → Type 0
Open org db =
    (limit_of "certificates_per_month" (get_entitlements org db) ≡ 0)
    ⊎ (current_usage org "certificates_issued" db
        < limit_of "certificates_per_month" (get_entitlements org db))

-- a guard of the billing app in front of code that has returned
billing_guard-inv :
    (test : Bool) (e : Error) (f : Unit {0} → Exec State Certificate) (s : State) (c : Certificate)
    (s' : State)
    → continue (in_billing (raise_if test e) s) f ≡ (ok c, s')
    → (test ≡ false) × (f tt s ≡ (ok c, s'))
billing_guard-inv true e f s c s' h = absurd (ground arith)
billing_guard-inv false e f s c s' h = (refl, h)

open_of :
    (limit used : ℕ) → not (limit == 0) && leb limit used ≡ false → (limit ≡ 0) ⊎ (used < limit)
open_of limit used h = ground arith

quota-inv :
    (org : ℕ) (f : Unit {0} → Exec State Certificate) (s : State) (c : Certificate) (s' : State)
    → continue (in_billing (assert_can_issue org) s) f ≡ (ok c, s')
    → Open org s.billing × (f tt s ≡ (ok c, s'))
unfolding assert_can_issue Open
quota-inv org f s c s' h = let r = billing_guard-inv _ _ f s c s' h in (open_of _ _ r.0, r.1)

-- what issuing a new certificate has changed
pub record Fresh (o : Order) (s : State) (c : Certificate) (s' : State) : Type 0 where
  pub free : is_taken c s.certificates ≡ false
  pub stored : s'.certificates ≡ c ∷ s.certificates
  pub status : c.status ≡ Status.issued
  pub organization : c.organization ≡ o.organization.id
  pub key : c.idempotency_key ≡ o.idempotency_key
  pub counted :
      current_usage o.organization.id "certificates_issued" s'.billing
      ≡ current_usage o.organization.id "certificates_issued" s.billing + 1

-- the parts of the state that storing a recipient and taking a number leave alone
record Same (s t : State) : Type 0 where
  certificates : t.certificates ≡ s.certificates
  billing : t.billing ≡ s.billing

store_recipient-Same :
    (o : Order) (found : Option Recipient) (s : State)
    → Same s (store_recipient o.organization.id o.recipient_data found s).1
unfolding store_recipient
store_recipient-Same o none s = record { certificates = refl; billing = refl }
store_recipient-Same o (some r) s = record { certificates = refl; billing = refl }

insert-inv :
    (test : Bool) (d : Certificate) (f : Certificate → Exec State Certificate) (s : State)
    (c : Certificate) (s' : State)
    → continue (insert test d s) f ≡ (ok c, s')
    → (test ≡ false) × (f d (record s { certificates = d ∷ s.certificates }) ≡ (ok c, s'))
unfolding insert
insert-inv true d f s c s' h = absurd (ground arith)
insert-inv false d f s c s' h = (refl, h)

store_certificate-inv :
    (make : ℕ → Certificate) (hash : Certificate → String)
    (f : Certificate → Exec State Certificate) (s : State) (c : Certificate) (s' : State)
    → continue (store_certificate make hash s) f ≡ (ok c, s')
    → (pk : ℕ) × (is_taken (sealed hash (make pk)) s.certificates ≡ false)
      × (f
            (sealed hash (make pk))
            (record s { certificates = sealed hash (make pk) ∷ s.certificates })
          ≡ (ok c, s'))
unfolding store_certificate
store_certificate-inv make hash f s c s' h =
    let pk = next_pk (map (λ (d : Certificate). d.id) s.certificates) in
    let r = insert-inv _ (sealed hash (make pk)) f s c s' h in (pk, ground (arith, r.0), r.1)

-- the certificate of a result, or the given one
unfoldable pub certificate_or : (d : Certificate) → Result Certificate → Certificate
certificate_or d (ok c) = c
certificate_or d (err e) = d

announce-Fresh :
    (o : Order) (recipient : Recipient) (d c : Certificate) (s s' : State)
    → announce o recipient d s ≡ (ok c, s')
    → (c ≡ d)
      × (s'.certificates ≡ s.certificates)
      × (current_usage o.organization.id "certificates_issued" s'.billing
          ≡ current_usage o.organization.id "certificates_issued" s.billing + 1)
unfolding announce add_event log_certificate dispatch increment_usage current_usage certificate_or
announce-Fresh o recipient d c s s' h = (
  ap (λ (r : Result Certificate × State). certificate_or d r.0) (sym h),
  ap (λ (r : Result Certificate × State). r.1.certificates) (sym h),
  ap
        (λ (r : Result Certificate × State).
          current_usage o.organization.id "certificates_issued" r.1.billing)
        (sym h)
      ∙ increment_usage_self o.organization.id "certificates_issued" 1 s.billing,
)

-- a certificate of the order, stored and announced in `t`, whose tables are those of `s`
stored-Fresh :
    (o : Order) (recipient : Recipient) (s t : State) (d c : Certificate) (s' : State)
    → Same s t
    → d.status ≡ Status.issued
    → d.organization ≡ o.organization.id
    → d.idempotency_key ≡ o.idempotency_key
    → is_taken d t.certificates ≡ false
    → announce o recipient d (record t { certificates = d ∷ t.certificates }) ≡ (ok c, s')
    → Fresh o s c s'
stored-Fresh o recipient s t d c s' same st org key free h =
    let (e, rows, counted) = announce-Fresh o recipient d c _ s' h in
    record {
      free =
          ap (λ x. is_taken x s.certificates) e
          ∙ ap (λ x. is_taken d x) (sym same.certificates)
          ∙ free;
      stored = rows ∙ ap (λ x. d ∷ x) same.certificates ∙ ap (λ x. x ∷ s.certificates) (sym e);
      status = ap (λ (x : Certificate). x.status) e ∙ st;
      organization = ap (λ (x : Certificate). x.organization) e ∙ org;
      key = ap (λ (x : Certificate). x.idempotency_key) e ∙ key;
      counted =
          counted
          ∙ ap (λ x. current_usage o.organization.id "certificates_issued" x + 1) same.billing;
    }

issue_numbered-Fresh :
    (o : Order) (recipient : Recipient) (version : ℕ) (date : Date) (expiry : Option Date)
    (number : String) (s t : State) (c : Certificate) (s' : State)
    → Same s t
    → issue_numbered o recipient version date expiry number t ≡ (ok c, s')
    → Fresh o s c s'
unfolding issue_numbered new_certificate
issue_numbered-Fresh o recipient version date expiry number s t c s' same h =
    let make = new_certificate o version recipient date expiry number t.billing.now in
    let hash =
      λ (d : Certificate). o.digest (canonical_payload o.uuid o.organization recipient d) in
    let (pk, free, h1) = store_certificate-inv make hash (announce o recipient) t c s' h in
    stored-Fresh o recipient s t (sealed hash (make pk)) c s' same refl refl refl free h1

issue_dated-Fresh :
    (o : Order) (recipient : Recipient) (version : ℕ) (date : Date) (expiry : Option Date)
    (s t : State) (c : Certificate) (s' : State)
    → Same s t
    → issue_dated o recipient version date expiry t ≡ (ok c, s')
    → Fresh o s c s'
unfolding issue_dated next_certificate_number
issue_dated-Fresh o recipient version date expiry s t c s' same h =
    let r = next_certificate_number o.organization date t in
    issue_numbered-Fresh o recipient version date expiry _ s r.1 c s'
      (record { certificates = same.certificates; billing = same.billing }) h

issue_version-Fresh :
    (o : Order) (recipient : Recipient) (version : Option ℕ) (s t : State) (c : Certificate)
    (s' : State)
    → Same s t
    → issue_version o recipient version t ≡ (ok c, s')
    → Fresh o s c s'
unfolding issue_version issue_on
issue_version-Fresh o recipient none s t c s' same h = absurd (ground arith)
issue_version-Fresh o recipient (some version) s t c s' same h =
    let (date, _, h1) =
      continue-inv (issue_date_of o.fields.issue_date t.today, t) (issue_on o recipient version) c
        s' h in
    let (expiry, _, h2) =
      continue-inv (expiry_of o.fields date, t) (issue_dated o recipient version date) c s' h1 in
    issue_dated-Fresh o recipient version date expiry s t c s' same h2

issue_open-Fresh :
    (o : Order) (s : State) (c : Certificate) (s' : State)
    → issue_open o s ≡ (ok c, s')
    → Fresh o s c s'
unfolding issue_open
issue_open-Fresh o s c s' h =
    let found = known_recipient o.organization.id (address o.recipient_data) s.recipients in
    let store = store_recipient o.organization.id o.recipient_data found in
    let (_, h1) = guard-inv _ _ (store >>= issue_to o) s c s' h in
    let (recipient, _, h2) = continue-inv (store s) (issue_to o) c s' h1 in
    issue_version-Fresh o recipient o.template.current_version s (store s).1 c s'
      (store_recipient-Same o found s) h2

pub issue_new-Fresh :
    (o : Order) (s : State) (c : Certificate) (s' : State)
    → issue_new o s ≡ (ok c, s')
    → Open o.organization.id s.billing × Fresh o s c s'
unfolding issue_new
issue_new-Fresh o s c s' h =
    let (may, h1) = quota-inv o.organization.id (λ u. issue_open o) s c s' h in
    (may, issue_open-Fresh o s c s' h1)
