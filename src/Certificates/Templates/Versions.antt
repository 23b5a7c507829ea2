-- ===== src/Certificates/Templates/Versions.antt =====
-- The versions of a template: what `save_version` and `perform_create` of certificates/views.py
-- leave in the tables.
use mathlib.Core.Path.{subst}
use govahee.Prelude.{
  ℕ, ◌+◌, ◌≤◌, ◌<◌, ◌≡◌, refl, sym, inl, inr, Bool, false, List, [], ◌∷◌, Option, some, arith, ◌==◌,
  ==_refl, any, find, find-update, update, count, map, Bool-cases,
}
use govahee.Exec.{ok}
use govahee.Billing.State.{next_pk}
use govahee.Certificates.Templates.{
  CertificateTemplate, TemplateVersion, Library, SaveData, is_version, last_version, create_version,
  save_template, with_current, given_or, with_fields, save_version,
}

-- no row has the number after the last
is_version_last :
    (template n : ℕ) (vs : List TemplateVersion)
    → last_version template vs < n
    → any (is_version template n) vs ≡ false
unfolding last_version
is_version_last template n [] h = refl
is_version_last template n (v ∷ vs) h = ground (arith, is_version_last template n vs)

count-any :
    (template n : ℕ) (vs : List TemplateVersion)
    → any (is_version template n) vs ≡ false
    → count (is_version template n) vs ≡ 0
count-any template n [] h = refl
count-any template n (v ∷ vs) h = ground (arith, count-any template n vs)

-- The constraint that the versions of a template have different numbers.
abbrev pub IsNumbered : ℕ → List TemplateVersion → Type 0
IsNumbered template vs = (n : ℕ) → count (is_version template n) vs ≤ 1

IsNumbered-cons :
    (v : TemplateVersion) (vs : List TemplateVersion)
    → any (is_version v.template v.version) vs ≡ false
    → IsNumbered v.template vs
    → IsNumbered v.template (v ∷ vs)
IsNumbered-cons v vs free numbered n = elim (Bool-cases (v.version == n)) [
  | inl same ↦
      let e : v.version ≡ n = ground (arith, same) in
      let none_yet =
        subst (λ k. count (is_version v.template k) vs ≡ 0) e
          (count-any v.template v.version vs free) in
      ground (arith, none_yet)
  | inr other ↦ let old = numbered n in ground (arith, old, other)
]

abbrev by_pk : ℕ → CertificateTemplate → Bool
by_pk pk t = t.id == pk

-- The stored row of a template names its newest version, which the table holds.
abbrev pub IsCurrent : ℕ → TemplateVersion → Library → Type 0
IsCurrent template v s =
    (t : CertificateTemplate) × (find (λ (u : CertificateTemplate). u.id == template) s.templates
      ≡ some t)
    × (t.current_version ≡ some v.id)
    × (v.template ≡ template)
    × (v.version ≡ last_version template s.versions)
    × (find (λ (w : TemplateVersion). w.id == v.id) s.versions ≡ some v)

abbrev drawn : CertificateTemplate → SaveData → Option ℕ → Library → TemplateVersion
drawn t d user s = record {
  id = next_pk (map (λ (v : TemplateVersion). v.id) s.versions);
  template = t.id;
  version = last_version t.id s.versions + 1;
  canvas = d.canvas;
  variables = given_or d.variables [];
  created_by = user;
}

last_version-cons :
    (template : ℕ) (v : TemplateVersion) (vs : List TemplateVersion)
    → v.template ≡ template
    → last_version template vs ≤ v.version
    → last_version template (v ∷ vs) ≡ v.version
unfolding last_version
last_version-cons template v vs same h = ground (arith, same, h)

-- the template with the columns that a request gives and its version
abbrev pub saved_template : CertificateTemplate → SaveData → TemplateVersion → CertificateTemplate
saved_template t d v = record {
  id = t.id;
  organization = t.organization;
  name = given_or d.name t.name;
  description = given_or d.description t.description;
  format = given_or d.format t.format;
  width_mm = given_or d.width_mm t.width_mm;
  height_mm = given_or d.height_mm t.height_mm;
  locale = given_or d.locale t.locale;
  is_system = t.is_system;
  is_active = t.is_active;
  current_version = some v.id;
}

-- Saving a version of a stored template always succeeds: it adds one row with the number after
-- the last, so the unique constraint is not met, keeps every older version, and both the object that
-- is returned and the template's row have the columns that are given, keep those that are not, and
-- name the new version, which is the newest; numbers stay unique.
pub save_version-IsCurrent :
    (t : CertificateTemplate) (d : SaveData) (user : Option ℕ) (s : Library)
    → find (λ (u : CertificateTemplate). u.id == t.id) s.templates ≡ some t
    → IsNumbered t.id s.versions
    → (v : TemplateVersion) × (s' : Library) × (save_version t d user s
        ≡ (ok (saved_template t d v), s'))
      × (find (λ (u : CertificateTemplate). u.id == t.id) s'.templates
          ≡ some (saved_template t d v))
      × (s'.versions ≡ v ∷ s.versions)
      × (v.version ≡ last_version t.id s.versions + 1)
      × (v.canvas ≡ d.canvas)
      × IsCurrent t.id v s'
      × IsNumbered t.id s'.versions
unfolding save_version create_version save_template with_fields
save_version-IsCurrent t d user s stored numbered =
    let v = drawn t d user s in
    let free = is_version_last t.id v.version s.versions (omega arith) in
    let t' = with_current v (with_fields d t) in
    let s' : Library = record s {
      versions = v ∷ s.versions;
      templates = update (by_pk t.id) (λ _. t') s.templates;
    } in
    (
      v,
      s',
      rw (free),
      find-update (by_pk t.id) (λ _. t') s.templates {x = t} stored (==_refl t.id),
      refl,
      refl,
      refl,
      (
        t',
        find-update (by_pk t.id) (λ _. t') s.templates {x = t} stored (==_refl t.id),
        refl,
        refl,
        sym (last_version-cons t.id v s.versions refl (omega arith)),
        rw (==_refl v.id),
      ),
      IsNumbered-cons v s.versions free numbered,
    )
