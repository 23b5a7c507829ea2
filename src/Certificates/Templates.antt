-- ===== src/Certificates/Templates.antt =====
-- `TemplateViewSet` of certificates/views.py over the rows of certificates/models.py. A canvas is
-- JSON that the code does not look into: a text here. Numbers of versions come in one transaction
-- with no row lock; two saves at once meet the unique constraint.
pub mod Versions
use govahee.Prelude.{
  ℕ, ◌+◌, String, Bool, true, false, ◌&&◌, not, List, [], ◌∷◌, Option, none, some, ◌==◌, leb, any,
  keep, map, update, if◌then◌else◌,
}
use govahee.Exec.{
  Exec, Result, ok, err, validation, integrity_error, protected_error, pure, modify, ◌>>=◌, ◌>>◌,
}
use govahee.Billing.State.{next_pk}
use govahee.Certificates.Models.{Certificate}

pub record CertificateTemplate : Type 0 where
  pub id : ℕ
  pub organization : ℕ
  pub name : String
  pub description : String
  pub format : String
  pub width_mm : ℕ
  pub height_mm : ℕ
  pub locale : String
  pub is_system : Bool
  pub is_active : Bool
  pub current_version : Option ℕ

pub record TemplateVersion : Type 0 where
  pub id : ℕ
  pub template : ℕ
  pub version : ℕ
  pub canvas : String
  pub variables : List String
  pub created_by : Option ℕ

-- the tables; of a batch only its template counts here
pub record Library : Type 0 where
  pub templates : List CertificateTemplate
  pub versions : List TemplateVersion
  pub certificates : List Certificate
  pub batch_templates : List ℕ

-- `self.get_object()`: the row of the organization with this key
abbrev pub is_template : ℕ → ℕ → CertificateTemplate → Bool
is_template org pk t = t.organization == org && t.id == pk

-- the versions of a template with this number, which are unique together
abbrev pub is_version : ℕ → ℕ → TemplateVersion → Bool
is_version template version v = v.template == template && v.version == version

-- the number of `template.versions.order_by("-version").first()`, 0 where there is none
unfoldable pub last_version : ℕ → List TemplateVersion → ℕ
last_version template [] = 0
last_version template (v ∷ vs) =
    let rest = last_version template vs in
    if v.template == template && leb rest v.version then v.version else rest

-- `TemplateVersion.objects.create(...)`: a row that breaks the constraint is refused
unfoldable pub create_version :
    ℕ → ℕ → String → List String → Option ℕ → Exec Library TemplateVersion
create_version template version canvas variables user s =
    let v : TemplateVersion = record {
      id = next_pk (map (λ (v : TemplateVersion). v.id) s.versions);
      template = template;
      version = version;
      canvas = canvas;
      variables = variables;
      created_by = user;
    } in
    if any (is_version template version) s.versions
    then (err integrity_error, s)
    else (ok v, record s { versions = v ∷ s.versions })

-- `template.save()`: the row gets the columns of the object
unfoldable pub save_template : CertificateTemplate → Exec Library CertificateTemplate
save_template t s = (
  ok t,
  record s { templates = update (λ (u : CertificateTemplate). u.id == t.id) (λ _. t) s.templates },
)

abbrev pub with_current : TemplateVersion → CertificateTemplate → CertificateTemplate
with_current v t = record t { current_version = some v.id }

-- the validated data of `CertificateTemplateSerializer`
pub record TemplateData : Type 0 where
  pub name : String
  pub description : String
  pub format : String
  pub width_mm : ℕ
  pub height_mm : ℕ
  pub locale : String
  pub is_system : Bool
  pub is_active : Bool

-- `serializer.save(organization=...)`
unfoldable pub add_template : ℕ → TemplateData → Exec Library CertificateTemplate
add_template org d s =
    let t : CertificateTemplate = record {
      id = next_pk (map (λ (t : CertificateTemplate). t.id) s.templates);
      organization = org;
      name = d.name;
      description = d.description;
      format = d.format;
      width_mm = d.width_mm;
      height_mm = d.height_mm;
      locale = d.locale;
      is_system = d.is_system;
      is_active = d.is_active;
      current_version = none;
    } in
    (ok t, record s { templates = t ∷ s.templates })

-- `perform_create`; `blank` is the text of an empty canvas of this width and height
unfoldable pub perform_create :
    (ℕ → ℕ → String) → ℕ → Option ℕ → TemplateData → Exec Library CertificateTemplate
perform_create blank org user d = do
  t ← add_template org d
  v ← create_version t.id 1 (blank t.width_mm t.height_mm) [] user
  save_template (with_current v t)

-- `instance.delete()`: versions go with the template, and a batch protects it
unfoldable pub delete_template : CertificateTemplate → Exec Library (Unit {0})
delete_template t s = if any (λ b. b == t.id) s.batch_templates then (err protected_error, s) else (
  ok tt,
  record s {
    templates = keep (λ (u : CertificateTemplate). not (u.id == t.id)) s.templates;
    versions = keep (λ (v : TemplateVersion). not (v.template == t.id)) s.versions;
  },
)

-- `perform_destroy`
unfoldable pub perform_destroy : CertificateTemplate → Exec Library (Unit {0})
perform_destroy t s =
    if any (λ (c : Certificate). c.template == t.id) s.certificates
    then (err (validation "Certificates were issued with this template."), s)
    else delete_template t s

-- the validated data of `TemplateSaveSerializer`
pub record SaveData : Type 0 where
  pub name : Option String
  pub description : Option String
  pub format : Option String
  pub width_mm : Option ℕ
  pub height_mm : Option ℕ
  pub locale : Option String
  pub canvas : String
  pub variables : Option (List String)

-- `if field in data: setattr(template, field, data[field])`
abbrev pub given_or {ℓ} : {A : Type ℓ} → Option A → A → A
given_or none old = old
given_or (some new) old = new

unfoldable pub with_fields : SaveData → CertificateTemplate → CertificateTemplate
with_fields d t = record t {
  name = given_or d.name t.name;
  description = given_or d.description t.description;
  format = given_or d.format t.format;
  width_mm = given_or d.width_mm t.width_mm;
  height_mm = given_or d.height_mm t.height_mm;
  locale = given_or d.locale t.locale;
}

-- `save_version`, once `get_object` has found the template
unfoldable pub save_version :
    CertificateTemplate → SaveData → Option ℕ → Exec Library CertificateTemplate
save_version t d user s =
    (do
      v ←
          create_version t.id (last_version t.id s.versions + 1) d.canvas (given_or d.variables [])
            user
      save_template (with_current v (with_fields d t)))
      s
