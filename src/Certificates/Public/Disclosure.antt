-- ===== src/Certificates/Public/Disclosure.antt =====
-- What the public page of a certificate discloses, and what a visit writes (`PublicVerifyView` of
-- certificates/views.py).
use mathlib.Core.Path.{subst}
use govahee.Prelude.{
  ℕ, ◌≡◌, refl, String, List, [], ◌∷◌, none, some, arith, find, keep, any, is_some, str_eq,
  str_eq_iff, Bool-cases, inl, inr, if◌then◌else◌,
}
use govahee.Prelude.Text.{get}
use govahee.Prelude.Keyed.{find-update_self}
use govahee.Exec.{ok}
use govahee.Billing.Models.{Payload}
use govahee.Billing.Entitlements.{increment_usage}
use govahee.Organizations.Models.{Organization}
use govahee.Certificates.Models.{Certificate, Recipient, public_status, certificate_by_pk}
use govahee.Certificates.Issue.{add_event, dispatch}
use govahee.Certificates.Public.{
  CustomField, Site, Visit, VerificationEvent, has_token, log_visit, counted, save_counts,
  is_public_key, public_fields, Page, page_of, not_found, page, count_visit, organization_row,
  recipient_row, show, verify_found, verify, result_of, visit_of, in_certs,
}

-- A key is read from the fields that are shown if it is public.
get-public_fields :
    (org : ℕ) (fields : List CustomField) (custom : Payload) (k : String)
    → get k (public_fields org fields custom)
      ≡ (if any (is_public_key org k) fields then get k custom else none)
unfolding public_fields
get-public_fields org fields [] k = ground arith
get-public_fields org fields ((j, v) ∷ custom) k = elim (Bool-cases (str_eq k j)) [
  | inl same ↦
      let e : k ≡ j = (str_eq_iff k j).0 same in
      let ih = get-public_fields org fields custom k in
      subst
        (λ i.
          get k
            (keep (λ (kv : String × String). any (is_public_key org kv.0) fields) ((i, v) ∷ custom))
          ≡ (if any (is_public_key org k) fields then get k ((i, v) ∷ custom) else none))
        e (ground (arith, ih, str_eq_iff k k))
  | inr other ↦ ground (arith, other, get-public_fields org fields custom k)
]

-- the tables after a visit
abbrev after : Visit → Certificate → Site → Site
after visit c s =
    (in_certs (count_visit c)
      (record s { visits = visit_of visit (some c) s.certs.today ∷ s.visits })).1

-- Whoever has the token of a certificate sees its page: the status of the day, the custom fields
-- of the certificate whose keys its organization has marked public and no other, and the further
-- fields only if the organization has a public page. The visit is logged with the status, and it
-- raises the two counters of the stored certificate by one each.
pub verify_discloses :
    (visit : Visit) (s : Site) (c : Certificate) (org : Organization) (recipient : Recipient)
    → find (has_token visit.token) s.certs.certificates ≡ some c
    → certificate_by_pk c.id s.certs.certificates ≡ some c
    → organization_row c.organization s ≡ some org
    → recipient_row c.recipient s ≡ some recipient
    → (p : Page) × (t : Site) × (verify visit s ≡ (ok (page p), t))
      × (p.status_ ≡ public_status c s.certs.today)
      × (p.certificate_number ≡ c.certificate_number)
      × ((k : String)
          → get k p.custom_fields ≡ (
              if any (is_public_key org.id k) s.custom_fields then get k c.custom_fields else none))
      × (is_some p.extras ≡ org.public_issuer_page_enabled)
      × (certificate_by_pk c.id t.certs.certificates ≡ some (counted c))
      × ((e : VerificationEvent) × (t.visits ≡ e ∷ s.visits)
          × (e.certificate ≡ some c.id)
          × (e.result ≡ result_of (some c) s.certs.today))
unfolding verify log_visit verify_found count_visit save_counts add_event increment_usage dispatch
    show page_of
verify_discloses visit s c org recipient found stored owner holder = (
  page_of c org recipient s,
  after visit c s,
  rw (found, owner, holder) refl,
  refl,
  refl,
  λ k. get-public_fields org.id s.custom_fields c.custom_fields k,
  ground arith,
  find-update_self (λ d. d.id) counted (λ d. refl) c.id s.certs.certificates c stored,
  (visit_of visit (some c) s.certs.today, refl, refl, refl),
)

-- A token of no certificate is logged as not found, and nothing else is written.
pub verify_unknown :
    (visit : Visit) (s : Site)
    → find (has_token visit.token) s.certs.certificates ≡ none
    → (e : VerificationEvent) × (verify visit s
        ≡ (ok not_found, record s { visits = e ∷ s.visits }))
      × (e.certificate ≡ none)
      × (e.result ≡ "not_found")
unfolding verify log_visit verify_found
verify_unknown visit s absent = (visit_of visit none s.certs.today, rw (absent) refl, refl, refl)
