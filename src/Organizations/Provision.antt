-- ===== src/Organizations/Provision.antt =====
-- `provision_organization` of organizations/services.py with the templates and types that it seeds
-- (certificates/default_templates.py). Slugs are Django's, and a parameter; so are the canvases,
-- which are JSON. The steps are not in one transaction. The Persian names stand in English.
pub mod Types
use govahee.Prelude.{
  ℕ, ◌+◌, String, Bool, true, false, ◌&&◌, List, [], ◌∷◌, Option, none, some, ◌==◌, any, find, keep,
  map, str_eq, if◌then◌else◌,
}
use govahee.Prelude.Text.{decimal}
use govahee.Exec.{Exec, ok, err, integrity_error, modify, pure, or_raise, ◌>>=◌, ◌>>◌}
use govahee.Organizations.Models.{Organization, OrganizationMembership}
use govahee.Organizations.Slugs.{unique_slug}
use govahee.Billing.State.{Db, next_pk}
use govahee.Billing.Models.{Subscription}
use govahee.Billing.Plans.{ensure_trial_subscription}
use govahee.Certificates.Templates.{
  CertificateTemplate, Library, TemplateData, add_template, create_version, save_template,
  with_current,
}

-- a row of certificates.CertificateType
pub record SeededType : Type 0 where
  pub id : ℕ
  pub organization : ℕ
  pub slug : String
  pub name : String
  pub default_template : Option ℕ

-- the database over that of billing; of a branding, a profile and a mail template only the
-- organization counts here, and the name of the sender
pub record Registry : Type 0 where
  pub billing : Db
  pub memberships : List OrganizationMembership
  pub brandings : List (ℕ × String)
  pub profiles : List ℕ
  pub mail_templates : List ℕ
  pub library : Library
  pub types : List SeededType

-- the owner: the key of the user, and `display_name()`
pub record Owner : Type 0 where
  pub pk : ℕ
  pub label : String

abbrev pub in_billing : {A : Type 0} → Exec Db A → Exec Registry A
in_billing m s = let r = m s.billing in (r.0, record s { billing = r.1 })

abbrev pub in_library : {A : Type 0} → Exec Library A → Exec Registry A
in_library m s = let r = m s.library in (r.0, record s { library = r.1 })

-- the columns that a new organization has
unfoldable pub new_organization : ℕ → String → String → Organization
new_organization pk name slug = record {
  id = pk;
  name = name;
  slug = slug;
  contact_email = "";
  description = "";
  website = "";
  verification_status = "pending";
  certificate_number_prefix = "CERT-";
  is_suspended = false;
  issuance_enabled = true;
  api_enabled = false;
  verification_search_enabled = true;
  public_issuer_page_enabled = true;
  verification_indexable = false;
  onboarding_completed_at = none;
}

-- `Organization.objects.create(name=name, slug=unique_slug(name))`, where a slug is always found
unfoldable pub create_organization : (String → String) → String → Exec Registry Organization
create_organization slugify name s =
    let rows = s.billing.organizations in
    let pk = next_pk (map (λ (o : Organization). o.id) rows) in
    (or_raise integrity_error (unique_slug slugify name (map (λ (o : Organization). o.slug) rows))
        >>= λ slug.
            let org = new_organization pk name slug in
            modify (λ (t : Registry). record t {
              billing = record t.billing { organizations = org ∷ t.billing.organizations };
            })
            >> pure org)
      s

-- the owner's membership, the branding, the public profile and the mail template
unfoldable pub create_parts : Organization → Owner → Exec Registry (Unit {0})
create_parts org owner s = (
  ok tt,
  record s {
    memberships =
        record {
          id = next_pk (map (λ (m : OrganizationMembership). m.id) s.memberships);
          organization = org.id;
          user = owner.pk;
          role = "owner";
          is_active = true;
        }
        ∷ s.memberships;
    brandings = (org.id, org.name) ∷ s.brandings;
    profiles = org.id ∷ s.profiles;
    mail_templates = org.id ∷ s.mail_templates;
  },
)

-- an item of `builtin_templates()`, but for its canvas
pub record Sheet : Type 0 where
  pub name : String
  pub locale : String

abbrev pub builtin_sheets : List Sheet
builtin_sheets =
    record { name = "Classic Academic"; locale = "fa" }
    ∷ record { name = "Classic Academic EN"; locale = "en" }
    ∷ record { name = "Modern Minimal"; locale = "fa" }
    ∷ record { name = "Corporate"; locale = "en" }
    ∷ record { name = "Language Certificate"; locale = "fa" }
    ∷ record { name = "Course Completion"; locale = "en" }
    ∷ record { name = "Workshop"; locale = "fa" }
    ∷ record { name = "Attendance"; locale = "en" }
    ∷ []

abbrev pub seeded_variables : List String
seeded_variables =
    "recipient_name" ∷ "course_name" ∷ "organization_name" ∷ "issue_date" ∷ "issuer_name"
    ∷ "certificate_number" ∷ "verification_url" ∷ []

-- every sheet is a landscape A4
abbrev pub sheet_data : Sheet → TemplateData
sheet_data sheet = record {
  name = sheet.name;
  description = "";
  format = "a4_landscape";
  width_mm = 297;
  height_mm = 210;
  locale = sheet.locale;
  is_system = true;
  is_active = true;
}

-- `canvas` gives the canvas of a sheet, by its name
module _ (canvas : String → String) (org : ℕ) (actor : Option ℕ) where
  unfoldable pub seed_sheet : Sheet → Exec Library CertificateTemplate
  seed_sheet sheet = do
    t ← add_template org (sheet_data sheet)
    v ← create_version t.id 1 (canvas sheet.name) seeded_variables actor
    save_template (with_current v t)

  unfoldable pub seed_sheets : List Sheet → Exec Library (Unit {0})
  seed_sheets [] = pure tt
  seed_sheets (sheet ∷ sheets) = seed_sheet sheet >>= λ t. seed_sheets sheets

  -- `seed_org_templates`
  unfoldable pub seed_org_templates : Exec Library (Unit {0})
  seed_org_templates s =
      if any (λ (t : CertificateTemplate). t.organization == org) s.templates
      then (ok tt, s)
      else seed_sheets builtin_sheets s

abbrev pub default_types : List (String × String)
default_types =
    ("completion", "Certificate of completion")
    ∷ ("attendance", "Certificate of attendance")
    ∷ ("workshop", "Certificate of a workshop")
    ∷ ("achievement", "Certificate of achievement")
    ∷ ("language", "Certificate of a language")
    ∷ []

-- the row of an organization and a slug, which are unique together
abbrev pub is_slug : ℕ → String → SeededType → Bool
is_slug org slug t = t.organization == org && str_eq t.slug slug

-- `get_or_create`: a row that is there stays as it is
unfoldable pub get_or_create_type :
    ℕ → String × String → Option ℕ → List SeededType → List SeededType
get_or_create_type org (slug, name) template types =
    if any (is_slug org slug) types
    then types
    else record {
      id = next_pk (map (λ (t : SeededType). t.id) types);
      organization = org;
      slug = slug;
      name = name;
      default_template = template;
    }
      ∷ types

-- `templates[i] if i < len(templates) else None`, one after the other
abbrev pub head_of : List ℕ → Option ℕ
head_of [] = none
head_of (t ∷ ts) = some t

abbrev pub tail_of : List ℕ → List ℕ
tail_of [] = []
tail_of (t ∷ ts) = ts

unfoldable pub seed_types : ℕ → List (String × String) → List ℕ → List SeededType → List SeededType
seed_types org [] templates types = types
seed_types org (d ∷ ds) templates types =
    seed_types org ds (tail_of templates) (get_or_create_type org d (head_of templates) types)

-- `seed_org_types`; the query has no order, so the rows come in an order of the database's,
-- which `order` stands for
unfoldable pub seed_org_types : (List ℕ → List ℕ) → ℕ → Exec Registry (Unit {0})
seed_org_types order org s =
    let rows = keep (λ (t : CertificateTemplate). t.organization == org) s.library.templates in
    let templates = order (map (λ (t : CertificateTemplate). t.id) rows) in
    (ok tt, record s { types = seed_types org default_types templates s.types })

unfoldable pub log_created : Organization → Owner → Exec Registry (Unit {0})
log_created org owner = modify λ s. record s {
  billing = record s.billing {
    audit =
        record {
          organization = some org.id;
          actor = some owner.pk;
          actor_label = owner.label;
          action = "organization.created";
          entity = "organization";
          entity_id = decimal org.id;
          metadata = [];
        }
        ∷ s.billing.audit;
  };
}

-- `provision_organization`
unfoldable pub provision_organization :
    (String → String)
    → (String → String)
    → (List ℕ → List ℕ)
    → Owner
    → String
    → Exec Registry Organization
provision_organization slugify canvas order owner name = do
  org ← create_organization slugify name
  create_parts org owner
  in_billing (ensure_trial_subscription org.id)
  in_library (seed_org_templates canvas org.id (some owner.pk))
  seed_org_types order org.id
  log_created org owner
  pure org
