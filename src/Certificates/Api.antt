-- ===== src/Certificates/Api.antt =====
-- The views that issue, send and revoke certificates: `CertificateViewSet` of certificates/views.py
-- and certificates/api_v1.py. Permissions that `HasOrgPermission` checks first are in Access; the
-- fields of a request have passed `IssueCertificateSerializer`. Responses stand for the objects
-- that are serialized; the PDF and the HTML of a preview are left out.
pub mod Rows
pub mod Tenants
use govahee.Prelude.{
  first, ℕ, ◌+◌, String, Bool, true, false, ◌&&◌, ◌||◌, not, List, [], ◌∷◌, ◌++◌, Option, none,
  some, ◌==◌, length, find, keep, count, any, update, map, truthy, or_else, str_eq, is_some,
  if◌then◌else◌,
}
use govahee.Exec.{
  Exec, Result, ok, err, Error, does_not_exist, pure, modify, gets, or_raise, ◌>>=◌, ◌>>◌,
}
use govahee.Organizations.Models.{Organization}
use govahee.Access.Rbac.{role_has_permission}
use govahee.Access.Principal.{Principal, platform_admin_attribute}
use govahee.Certificates.Models.{Certificate, Status, Recipient, EventKind, State}
use govahee.Certificates.Orders.{Actor, Order, RecipientData, Fields, Template, CertificateType}
use govahee.Certificates.Issue.{issue_certificate, add_event}
use govahee.Certificates.Revoke.{revoke_certificate}
use govahee.Certificates.Templates.{CertificateTemplate, is_template}
use govahee.Certificates.BulkIssue.{template_of}
use govahee.Billing.Models.{Payload}

-- the columns of certificates.CertificateType that issuing reads
pub record TypeRow : Type 0 where
  pub id : ℕ
  pub organization : ℕ
  pub name : String

-- the tables, and the certificates that `send_certificate_email.delay` was called for
pub record Office : Type 0 where
  pub certs : State
  pub templates : List CertificateTemplate
  pub types : List TypeRow
  pub mailed : List ℕ

-- the request: its organization, its user, its role, and the validated data
pub record IssueRequest : Type 0 where
  pub organization : Organization
  pub user : Principal
  pub actor : Actor
  pub org_role : String
  pub template_id : ℕ
  pub certificate_type_id : Option ℕ
  pub recipient : RecipientData
  pub fields : Fields
  pub header_key : String
  pub idempotency_key : String
  pub send_email : Bool
  pub token : String
  pub uuid : String
  pub digest : Payload → String

-- what a view answers, but for a raise: an object, a detail with its status, or a count
pub data Reply : Type 0 where
  certificate : Certificate → Reply
  forbidden : Reply
  missing : Reply
  invalid : Reply
  no_address : Reply
  accepted : Reply
  counted : ℕ → Reply
  exported : List Certificate → Reply

abbrev pub in_certs : {A : Type 0} → Exec State A → Exec Office A
in_certs m s = let r = m s.certs in (r.0, record s { certs = r.1 })

-- `for_org(organization)`, and a row of it
abbrev pub of_org : ℕ → Certificate → Bool
of_org org c = c.organization == org

abbrev pub is_certificate : ℕ → ℕ → Certificate → Bool
is_certificate org pk c = c.organization == org && c.id == pk

abbrev pub is_type : ℕ → ℕ → TypeRow → Bool
is_type org pk t = t.organization == org && t.id == pk

abbrev pub type_of : TypeRow → CertificateType
type_of t = record { id = t.id; name = t.name }

-- the arguments of `issue_certificate`
unfoldable pub order_of : IssueRequest → CertificateTemplate → Option CertificateType → Order
order_of r t type = record {
  organization = r.organization;
  actor = r.actor;
  recipient_data = r.recipient;
  fields = r.fields;
  template = template_of t;
  certificate_type = type;
  batch = none;
  idempotency_key = or_else r.header_key r.idempotency_key;
  token = r.token;
  uuid = r.uuid;
  digest = r.digest;
}

-- `CertificateTemplate.objects.for_org(organization).get(pk=template_id)`
abbrev pub template_in : IssueRequest → Office → Option CertificateTemplate
template_in r s = find (is_template r.organization.id r.template_id) s.templates

-- the type that the data names, if they name one, or DoesNotExist
unfoldable pub type_in : IssueRequest → Office → Result (Option CertificateType)
type_in r s = elim r.certificate_type_id [
  | none ↦ ok none
  | some pk ↦ if pk == 0 then ok none else elim (find (is_type r.organization.id pk) s.types) [
    | none ↦ err does_not_exist
    | some t ↦ ok (some (type_of t))
  ]
]

-- `cert.recipient.email`
abbrev pub has_address : Certificate → State → Bool
has_address c s = any (λ (r : Recipient). r.id == c.recipient && truthy r.email) s.recipients

-- `send_certificate_email.delay(cert.pk)`
abbrev pub delay : ℕ → Exec Office (Unit {0})
delay pk = modify λ s. record s { mailed = pk ∷ s.mailed }

unfoldable pub send_if : Bool → Certificate → Exec Office (Unit {0})
send_if wanted c s = if wanted && has_address c s.certs then delay c.id s else (ok tt, s)

-- once the type is known
unfoldable pub issue_typed :
    IssueRequest → CertificateTemplate → Result (Option CertificateType) → Exec Office Certificate
issue_typed r t (err e) s = (err e, s)
issue_typed r t (ok type) s = in_certs (issue_certificate (order_of r t type)) s

-- the template of the organization, and what follows
unfoldable pub with_template :
    IssueRequest → (CertificateTemplate → Exec Office Certificate) → Exec Office Certificate
with_template r step s = (or_raise does_not_exist (template_in r s) >>= step) s

-- `CertificateViewSet.issue`
unfoldable pub issue : IssueRequest → Exec Office Reply
issue r s =
    if role_has_permission r.org_role "certificates.issue" || platform_admin_attribute r.user
    then (with_template r (λ t. issue_typed r t (type_in r s)) >>= λ c.
          send_if r.send_email c >> pure (certificate c))
        s
    else (ok forbidden, s)

-- `V1CertificatesView.post`, which takes no type and sends no mail
unfoldable pub v1_issue : IssueRequest → Exec Office Reply
v1_issue r s = (with_template r (λ t. issue_typed r t (ok none)) >>= λ c. pure (certificate c)) s

-- a certificate of the organization, and what follows; `get_object` and `.first()` answer 404
unfoldable pub with_certificate : ℕ → ℕ → (Certificate → Exec Office Reply) → Exec Office Reply
with_certificate org pk step s = elim (find (is_certificate org pk) s.certs.certificates) [
  | none ↦ (ok missing, s)
  | some c ↦ step c s
]

unfoldable pub revoke_found : Actor → String → Certificate → Exec Office Reply
revoke_found actor reason c =
    in_certs (revoke_certificate c actor reason) >>= λ d. pure (certificate d)

-- `CertificateViewSet.revoke` and `V1CertificateRevokeView.post`
unfoldable pub revoke : ℕ → Actor → ℕ → String → Exec Office Reply
revoke org actor pk reason = with_certificate org pk (revoke_found actor reason)

-- `V1CertificateDetailView.get`
unfoldable pub detail : ℕ → ℕ → Exec Office Reply
detail org pk = with_certificate org pk (λ c. pure (certificate c))

-- `CertificateViewSet.send`
unfoldable pub send : ℕ → ℕ → Exec Office Reply
send org pk =
    with_certificate org pk
      λ c s. if has_address c s.certs then (delay c.id >> pure accepted) s else (ok no_address, s)

abbrev pub downloaded : Certificate → Certificate
downloaded c = record c { download_count = c.download_count + 1 }

-- what `CertificateViewSet.pdf` writes; `user` is `database_user_or_none(request.user)`
unfoldable pub download : ℕ → Option ℕ → ℕ → Exec Office Reply
download org user pk = with_certificate org pk λ c.
    in_certs (
      modify λ s. record s {
        certificates = update (λ (d : Certificate). d.id == c.id) downloaded s.certificates;
      })
    >> in_certs (add_event c.id EventKind.downloaded user [])
    >> pure (certificate (downloaded c))

-- `self.get_queryset().filter(pk__in=ids)`
abbrev pub is_chosen : ℕ → List ℕ → Certificate → Bool
is_chosen org ids c = c.organization == org && any (λ n. n == c.id) ids

-- `revoke_certificate` for each, up to the first that raises
unfoldable pub revoke_each : Actor → List Certificate → Exec Office (Unit {0})
revoke_each actor [] = pure tt
revoke_each actor (c ∷ cs) = in_certs (revoke_certificate c actor "") >>= λ d. revoke_each actor cs

-- the mails of those that have an address, and how many they are
unfoldable pub resend_each : List Certificate → Office → Office × ℕ
resend_each [] s = (s, 0)
resend_each (c ∷ cs) s =
    let rest = resend_each cs (send_if true c s).1 in
    (rest.0, if has_address c s.certs then rest.1 + 1 else rest.1)

-- `CertificateViewSet.bulk_actions`
unfoldable pub bulk_actions : ℕ → Actor → List ℕ → String → Exec Office Reply
bulk_actions org actor ids action s =
    let chosen = keep (is_chosen org ids) s.certs.certificates in
    if str_eq action "revoke"
    then (revoke_each actor chosen
          >> gets (λ t. counted (count (is_chosen org ids) t.certs.certificates)))
        s
    else if str_eq action "resend"
    then (let r = resend_each chosen s in (ok (counted r.1), r.0))
    else if str_eq action "export"
    then (ok (exported chosen), s)
    else (ok invalid, s)

-- the column `status`, as a text
abbrev pub column_text : Certificate → String
column_text c = elim c.status [
  | Status.draft ↦ "draft"
  | Status.issued ↦ "issued"
  | Status.expired ↦ "expired"
  | Status.revoked ↦ "revoked"
  | Status.void ↦ "void"
]

-- `V1CertificatesView.get`: the first hundred, newest first; `icontains` is that of the database
unfoldable pub v1_list : (String → String → Bool) → ℕ → String → String → Office → List Certificate
v1_list icontains org status search s =
    let name_of =
      λ (c : Certificate) (r : Recipient). r.id == c.recipient && icontains search r.full_name in
    let shown = λ (c : Certificate).
      of_org org c
      && ((not (truthy status) || str_eq (column_text c) status)
          && (not (truthy search)
              || (icontains search c.certificate_number || any (name_of c) s.certs.recipients))) in
    first 100 (keep shown s.certs.certificates)
