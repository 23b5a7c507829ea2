-- ===== src/Certificates/Public.antt =====
-- The public views of certificates/views.py: `PublicVerifyView`, `PublicVerifySearchView` and
-- `PublicIssuerView`. The throttles and the fixed texts of the responses are left out. The outbox
-- of an event is that of Certificates.Issue.
pub mod Disclosure
use govahee.Prelude.{
  ℕ, ◌+◌, String, Bool, true, false, ◌&&◌, not, List, [], ◌∷◌, Option, none, some, ◌==◌, str_eq,
  find, keep, any, count, update, truthy, or_else, if◌then◌else◌,
}
use govahee.Prelude.Text.{strip, rstrip_slash, prefix, decimal, ◌+++◌}
use govahee.Exec.{Exec, ok, err, does_not_exist, pure, modify, or_raise, gets, ◌>>=◌, ◌>>◌}
use govahee.Billing.Models.{Payload}
use govahee.Billing.Entitlements.{increment_usage}
use govahee.Organizations.Models.{Organization}
use govahee.Certificates.Dates.{Date}
use govahee.Certificates.Models.{
  Certificate, Status, Recipient, EventKind, State, PublicStatus, status, active, public_status,
  is_draft,
}
use govahee.Certificates.Issue.{in_billing, add_event, dispatch}

-- the columns of organizations.CustomField that this code reads
pub record CustomField : Type 0 where
  pub organization : ℕ
  pub key : String
  pub is_public : Bool

-- the columns of `VerificationEvent` that this code writes
pub record VerificationEvent : Type 0 where
  pub certificate : Option ℕ
  pub organization : Option ℕ
  pub token_prefix : String
  pub result : String
  pub browser : String
  pub referrer : String

-- organizations.PublicIssuerProfile
pub record PublicIssuerProfile : Type 0 where
  pub organization : ℕ
  pub headline : String
  pub about : String
  pub show_certificate_count : Bool

-- the database over that of the certificates app; `site_url` is the setting FRONTEND_SITE_URL
pub record Site : Type 0 where
  pub certs : State
  pub custom_fields : List CustomField
  pub profiles : List PublicIssuerProfile
  pub visits : List VerificationEvent
  pub site_url : String

-- the texts of `public_status`
unfoldable pub status_text : PublicStatus → String
status_text active = "active"
status_text (status Status.draft) = "draft"
status_text (status Status.issued) = "issued"
status_text (status Status.expired) = "expired"
status_text (status Status.revoked) = "revoked"
status_text (status Status.void) = "void"

-- `verification_url_for` of certificates/services.py
unfoldable pub verification_url_for : String → String → String
verification_url_for site_url token = rstrip_slash site_url +++ "/verify/" +++ token

abbrev pub has_token : String → Certificate → Bool
has_token token c = str_eq c.verification_token token

-- the request: `HTTP_USER_AGENT` and `HTTP_REFERER`, "" where they are missing
pub record Visit : Type 0 where
  pub token : String
  pub user_agent : String
  pub referer : String

abbrev pub result_of : Option Certificate → Date → String
result_of none today = "not_found"
result_of (some c) today = status_text (public_status c today)

abbrev pub pk_of : Option Certificate → Option ℕ
pk_of none = none
pk_of (some c) = some c.id

abbrev pub organization_of : Option Certificate → Option ℕ
organization_of none = none
organization_of (some c) = some c.organization

abbrev pub visit_of : Visit → Option Certificate → Date → VerificationEvent
visit_of visit found today = record {
  certificate = pk_of found;
  organization = organization_of found;
  token_prefix = prefix 8 visit.token;
  result = result_of found today;
  browser = prefix 40 (prefix 200 visit.user_agent);
  referrer = prefix 300 visit.referer;
}

-- `VerificationEvent.objects.create(...)`
unfoldable pub log_visit : Visit → Option Certificate → Exec Site (Unit {0})
log_visit visit found =
    modify λ s. record s { visits = visit_of visit found s.certs.today ∷ s.visits }

-- code of the certificates app, run on its part of the database
abbrev pub in_certs : {A : Type 0} → Exec State A → Exec Site A
in_certs m s = let r = m s.certs in (r.0, record s { certs = r.1 })

abbrev pub counted : Certificate → Certificate
counted c = record c {
  verification_count = c.verification_count + 1;
  view_count = c.view_count + 1;
}

-- the save of the two counters
unfoldable pub save_counts : ℕ → Exec State (Unit {0})
save_counts pk =
    modify λ s. record s { certificates = update (λ d. d.id == pk) counted s.certificates }

-- `values_list("key")` of the organization's public fields
abbrev pub is_public_key : ℕ → String → CustomField → Bool
is_public_key org key f = f.organization == org && f.is_public && str_eq f.key key

unfoldable pub public_fields : ℕ → List CustomField → Payload → Payload
public_fields org fields custom =
    keep (λ (kv : String × String). any (is_public_key org kv.0) fields) custom

-- the fields that an organization with a public page shows
pub record Extras : Type 0 where
  pub duration : String
  pub score : String
  pub grade : String
  pub instructor_name : String
  pub skills : List String
  pub description : String

-- the response; its fixed disclaimer is left out
pub record Page : Type 0 where
  pub status_ : PublicStatus
  pub verified_at : ℕ
  pub indexable : Bool
  pub recipient_name : String
  pub title : String
  pub course_name : String
  pub issuer_name : String
  pub issue_date : Date
  pub expiry_date : Option Date
  pub certificate_number : String
  pub organization_name : String
  pub organization_slug : String
  pub verification_status : String
  pub extras : Option Extras
  pub custom_fields : Payload
  pub verification_url : String

abbrev pub extras_of : Certificate → Extras
extras_of c = record {
  duration = c.duration;
  score = c.score;
  grade = c.grade;
  instructor_name = c.instructor_name;
  skills = c.skills;
  description = c.description;
}

unfoldable pub page_of : Certificate → Organization → Recipient → Site → Page
page_of c org recipient s = record {
  status_ = public_status c s.certs.today;
  verified_at = s.certs.billing.now;
  indexable = org.verification_indexable;
  recipient_name = recipient.full_name;
  title = c.title;
  course_name = c.course_name;
  issuer_name = or_else c.issuer_name org.name;
  issue_date = c.issue_date;
  expiry_date = c.expiry_date;
  certificate_number = c.certificate_number;
  organization_name = org.name;
  organization_slug = org.slug;
  verification_status = org.verification_status;
  extras = if org.public_issuer_page_enabled then some (extras_of c) else none;
  custom_fields = public_fields org.id s.custom_fields c.custom_fields;
  verification_url = verification_url_for s.site_url c.verification_token;
}

pub data Answer : Type 0 where
  not_found : Answer
  page : Page → Answer

-- the counters, the event, the usage and the webhook
unfoldable pub count_visit : Certificate → Exec State (Unit {0})
count_visit c = do
  save_counts c.id
  add_event c.id EventKind.verified none []
  in_billing (increment_usage c.organization "verification_views" 1)
  dispatch c.organization "certificate.verified"
      (("id", decimal c.id) ∷ ("certificate_number", c.certificate_number) ∷ [])

-- the organization and the recipient of a row, which its foreign keys name
abbrev pub organization_row : ℕ → Site → Option Organization
organization_row pk s = find (λ (o : Organization). o.id == pk) s.certs.billing.organizations

abbrev pub recipient_row : ℕ → Site → Option Recipient
recipient_row pk s = find (λ (r : Recipient). r.id == pk) s.certs.recipients

unfoldable pub show : Certificate → Exec Site Answer
show c s =
    (do
      org ← or_raise does_not_exist (organization_row c.organization s)
      recipient ← or_raise does_not_exist (recipient_row c.recipient s)
      pure (page (page_of c org recipient s)))
      s

unfoldable pub verify_found : Option Certificate → Exec Site Answer
verify_found none s = (ok not_found, s)
verify_found (some c) s = (in_certs (count_visit c) >> show c) s

-- `PublicVerifyView.get`
unfoldable pub verify : Visit → Exec Site Answer
verify visit s =
    let found = find (has_token visit.token) s.certs.certificates in
    (log_visit visit found >> verify_found found) s

-- the response of a search: a status, a detail, or the status with the token to go to
pub data Found : Type 0 where
  missing_number : Found
  nothing : Found
  redirect : PublicStatus → String → Found

-- the certificates with this number, of any organization or of the one with this slug
abbrev pub has_slug : String → Option Organization → Bool
has_slug slug none = false
has_slug slug (some o) = str_eq o.slug slug

abbrev pub matches : String → String → Site → Certificate → Bool
matches number slug s c =
    str_eq c.certificate_number number
    && (if truthy slug then has_slug slug (organization_row c.organization s) else true)

abbrev pub searchable : Option Organization → Bool
searchable none = false
searchable (some o) = o.verification_search_enabled

unfoldable pub found_of : Option Certificate → Site → Found
found_of none s = nothing
found_of (some c) s =
    if searchable (organization_row c.organization s)
    then redirect (public_status c s.certs.today) c.verification_token
    else nothing

-- `PublicVerifySearchView.post`, which writes nothing
unfoldable pub search_number : String → String → Site → Found
search_number number slug s =
    if truthy (strip number)
    then found_of (find (matches (strip number) (strip slug) s) s.certs.certificates) s
    else missing_number

-- the response of `PublicIssuerView`, its fixed disclaimer left out
pub record Issuer : Type 0 where
  pub name : String
  pub slug : String
  pub description : String
  pub website : String
  pub verification_status : String
  pub headline : String
  pub about : String
  pub certificates_issued : Option ℕ

abbrev pub is_issued_by : ℕ → Certificate → Bool
is_issued_by org c = c.organization == org && not (is_draft c.status)

unfoldable pub issuer_of : Organization → Option PublicIssuerProfile → ℕ → Issuer
issuer_of o profile issued = record {
  name = o.name;
  slug = o.slug;
  description = o.description;
  website = o.website;
  verification_status = o.verification_status;
  headline = elim profile [ none ↦ "" | some p ↦ p.headline ];
  about = elim profile [ none ↦ "" | some p ↦ p.about ];
  certificates_issued = elim profile [
    | none ↦ some issued
    | some p ↦ if p.show_certificate_count then some issued else none
  ];
}

abbrev pub has_page : String → Organization → Bool
has_page slug o = str_eq o.slug slug && o.public_issuer_page_enabled

-- `PublicIssuerView.get`; none is the answer 404
unfoldable pub issuer : String → Site → Option Issuer
issuer slug s = elim (find (has_page slug) s.certs.billing.organizations) [
  | none ↦ none
  | some o ↦ some (
      issuer_of o (find (λ (p : PublicIssuerProfile). p.organization == o.id) s.profiles)
        (count (is_issued_by o.id) s.certs.certificates))
]
