-- ===== src/Certificates/Variables.antt =====
-- certificates/variables.py: the variables of a certificate, and their substitution in texts and
-- canvases; and how `send_certificate_email` of certificates/tasks.py makes its mail of them.
pub mod Filled
use govahee.Prelude.{
  ℕ, zero, suc, ◌-◌, ◌+◌, String, Bool, true, false, ◌&&◌, List, [], ◌∷◌, Option, none, some, ◌==◌,
  truthy, or_else, map, find, str_eq, if◌then◌else◌,
}
use Prim.Native.Char.{Char, code}
use Prim.Native.String.{count}
use govahee.Prelude.Text.{get, put, ◌+++◌}
use govahee.Exec.{Exec, ok, err, does_not_exist, or_raise, pure, modify, ◌>>=◌, ◌>>◌}
use govahee.Billing.Models.{Payload}
use govahee.Billing.Entitlements.{increment_usage}
use govahee.Prelude.Text.{decimal}
use govahee.Organizations.Models.{Organization}
use govahee.Certificates.Models.{Certificate, Recipient, EventKind, State, certificate_by_pk}
use govahee.Certificates.Orders.{isoformat, isoformat_or_empty}
use govahee.Certificates.Issue.{in_billing, add_event, dispatch}
use govahee.Certificates.Public.{verification_url_for}

-- `values`, before the custom fields
unfoldable pub own_variables : Certificate → Organization → Recipient → String → Payload
own_variables c org recipient url =
    ("recipient_name", recipient.full_name)
    ∷ ("recipient_first_name", recipient.first_name)
    ∷ ("recipient_last_name", recipient.last_name)
    ∷ ("certificate_number", c.certificate_number)
    ∷ ("course_name", c.course_name)
    ∷ ("course_code", c.course_code)
    ∷ ("issue_date", isoformat c.issue_date)
    ∷ ("expiry_date", isoformat_or_empty c.expiry_date)
    ∷ ("duration", c.duration)
    ∷ ("score", c.score)
    ∷ ("grade", c.grade)
    ∷ ("issuer_name", or_else c.issuer_name org.name)
    ∷ ("issuer_title", c.issuer_title)
    ∷ ("organization_name", org.name)
    ∷ ("verification_url", url)
    ∷ ("verification_code", c.verification_token)
    ∷ ("recipient_id", recipient.external_id)
    ∷ []

-- `values[str(key)] = str(val)` for each custom field
unfoldable pub put_all : Payload → Payload → Payload
put_all [] values = values
put_all ((k, v) ∷ custom) values = put_all custom (put k v values)

-- `render_variables`
unfoldable pub render_variables : Certificate → Organization → Recipient → String → Payload
render_variables c org recipient url = put_all c.custom_fields (own_variables c org recipient url)

-- `s.startswith(old)`
unfoldable pub starts_with : String → String → Bool
starts_with String.[] s = true
starts_with (String.◌∷◌ c old) String.[] = false
starts_with (String.◌∷◌ c old) (String.◌∷◌ d s) = code c == code d && starts_with old s

-- `replace`, with the number of characters of an occurrence that are still to be left out
unfoldable pub replace_from : String → String → String → ℕ → String
replace_from old new String.[] skip = String.[]
replace_from old new (String.◌∷◌ c s) (suc skip) = replace_from old new s skip
replace_from old new (String.◌∷◌ c s) zero =
    let hit = new +++ replace_from old new s (count old - 1) in
    let miss = String.◌∷◌ c (replace_from old new s 0) in
    if starts_with old (String.◌∷◌ c s) then hit else miss

-- `s.replace(old, new)`, for an `old` that is not empty
unfoldable pub replace : String → String → String → String
replace old new s = replace_from old new s 0

-- `"{{" + key + "}}"`
abbrev pub placeholder : String → String
placeholder key = "{{" +++ key +++ "}}"

-- `substitute`, which for an empty text returns it
unfoldable pub substitute : String → Payload → String
substitute text [] = text
substitute text ((key, val) ∷ variables) = substitute (replace (placeholder key) val text) variables

-- a value of a canvas: a text, or another value, whose JSON the code does not look into
pub data Value : Type 0 where
  text : String → Value
  other : String → Value

abbrev pub Element : Type 0
Element = List (String × Value)

-- a canvas, its elements apart from its other keys
pub record Canvas : Type 0 where
  pub elements : List Element
  pub rest : List (String × Value)

-- `if "content" in element and isinstance(element["content"], str)`
unfoldable pub substitute_element : Payload → Element → Element
substitute_element variables element = elim (get "content" element) [
  | none ↦ element
  | some (other json) ↦ element
  | some (text s) ↦ put "content" (text (substitute s variables)) element
]

-- `put` writes the value in the place of the old one
unfoldable pub substitute_canvas : Canvas → Payload → Canvas
substitute_canvas canvas variables = record canvas {
  elements = map (substitute_element variables) canvas.elements;
}

-- the columns of an active organizations.EmailTemplate of the kind "certificate_issued"
pub record EmailTemplate : Type 0 where
  pub organization : ℕ
  pub subject : String
  pub body : String

pub record Mail : Type 0 where
  pub to : String
  pub subject : String
  pub body : String

-- the texts where the organization has no template
pub record DefaultTexts : Type 0 where
  pub subject : String
  pub body : String

abbrev pub subject_of : Option EmailTemplate → DefaultTexts → String
subject_of none d = d.subject
subject_of (some t) d = t.subject

abbrev pub body_of : Option EmailTemplate → DefaultTexts → String
body_of none d = d.body
body_of (some t) d = t.body

-- the two chains of `replace`
unfoldable pub mail_of :
    Option EmailTemplate → DefaultTexts → String → Certificate → Recipient → Mail
mail_of t d url c recipient = record {
  to = recipient.email;
  subject =
      replace "{{course_name}}" c.course_name
        (replace "{{recipient_name}}" recipient.full_name (subject_of t d));
  body = replace "{{certificate_number}}" c.certificate_number (
      replace "{{verification_url}}" url (
        replace "{{course_name}}" c.course_name
          (replace "{{recipient_name}}" recipient.full_name (body_of t d))));
}

-- what follows the mail
unfoldable pub record_sent : Certificate → Exec State (Unit {0})
record_sent c = do
  add_event c.id EventKind.sent none []
  in_billing (increment_usage c.organization "emails_sent" 1)
  dispatch c.organization "certificate.sent"
      (("id", decimal c.id) ∷ ("certificate_number", c.certificate_number) ∷ [])

abbrev pub template_for : ℕ → List EmailTemplate → Option EmailTemplate
template_for org = find (λ (t : EmailTemplate). t.organization == org)

abbrev pub sent_with : Option Mail → Exec State (Unit {0}) → Exec State (Option Mail)
sent_with mail m = m >>= λ _. pure mail

unfoldable pub send_to :
    List EmailTemplate → DefaultTexts → String → Certificate → Recipient → Exec State (Option Mail)
send_to templates d site_url c recipient s =
    if truthy recipient.email
    then sent_with
        (some (
          mail_of (template_for c.organization templates) d
            (verification_url_for site_url c.verification_token) c recipient))
        (record_sent c) s
    else (ok none, s)

-- `send_certificate_email`: the mail that the provider was given, none where there is no address;
-- an error of the provider, which ends the task before anything is written, is left out
unfoldable pub send_certificate_email :
    List EmailTemplate → DefaultTexts → String → ℕ → Exec State (Option Mail)
send_certificate_email templates d site_url pk s =
    (do
      c ← or_raise does_not_exist (certificate_by_pk pk s.certificates)
      recipient ←
          or_raise does_not_exist (find (λ (r : Recipient). r.id == c.recipient) s.recipients)
      send_to templates d site_url c recipient)
      s
