-- ===== src/Certificates/Tests/Templates.antt =====
-- A template for the runs of the certificates app, and the theorem about its versions at it.
use govahee.Prelude.{find, ◌==◌, ◌+◌, ◌≡◌, refl, true, false, [], ◌∷◌, none, some, arith}
use govahee.Exec.{ok}
use govahee.Certificates.Templates.{
  CertificateTemplate, TemplateVersion, Library, SaveData, last_version, save_version,
}
use govahee.Certificates.Templates.Versions.{
  saved_template, IsNumbered, IsCurrent, save_version-IsCurrent,
}

abbrev pub completion : CertificateTemplate
completion = record {
  id = 5;
  organization = 7;
  name = "Completion";
  description = "";
  format = "a4_landscape";
  width_mm = 297;
  height_mm = 210;
  locale = "fa";
  is_system = false;
  is_active = true;
  current_version = some 9;
}

abbrev version_one : TemplateVersion
version_one = record {
  id = 9;
  template = 5;
  version = 1;
  canvas = "{}";
  variables = [];
  created_by = none;
}

abbrev library : Library
library = record {
  templates = completion ∷ [];
  versions = version_one ∷ [];
  certificates = [];
  batch_templates = [];
}

abbrev save_data : SaveData
save_data = record {
  name = some "Diploma";
  description = none;
  format = none;
  width_mm = none;
  height_mm = none;
  locale = none;
  canvas = "{}";
  variables = none;
}

library-IsNumbered : IsNumbered 5 (version_one ∷ [])
library-IsNumbered n = ground arith

save_version-IsCurrent_example :
    (v : TemplateVersion) × (s' : Library) × (save_version completion save_data (some 4) library
      ≡ (ok (saved_template completion save_data v), s'))
    × (find (λ (u : CertificateTemplate). u.id == 5) s'.templates
        ≡ some (saved_template completion save_data v))
    × (s'.versions ≡ v ∷ version_one ∷ [])
    × (v.version ≡ last_version 5 (version_one ∷ []) + 1)
    × (v.canvas ≡ save_data.canvas)
    × IsCurrent 5 v s'
    × IsNumbered 5 s'.versions
save_version-IsCurrent_example =
    save_version-IsCurrent completion save_data (some 4) library refl library-IsNumbered
