-- ===== src/Certificates/Cells.antt =====
-- The cells of an export (certificates/export.py, certificates/bulk.py): no spreadsheet reads one as
-- a formula.
use govahee.Prelude.{String, ◌≡◌, refl, Bool, false, Bool-cases, inl, inr, if◌then◌else◌}
use govahee.Certificates.Bulk.{is_trigger, sanitize_csv_cell}

-- whether a text begins with a character that starts a formula
pub starts_trigger : String → Bool
starts_trigger String.[] = false
starts_trigger (String.◌∷◌ c s) = is_trigger c

-- A cell that `sanitize_csv_cell` gives never begins with =, +, -, @, a tab or a carriage return,
-- and it is the text itself, or the text behind one apostrophe where the text begins so.
pub sanitize_csv_cell_safe :
    (s : String)
    → (starts_trigger (sanitize_csv_cell s) ≡ false)
      × (sanitize_csv_cell s ≡ (if starts_trigger s then String.◌∷◌ "'" s else s))
unfolding starts_trigger sanitize_csv_cell
sanitize_csv_cell_safe String.[] = (refl, refl)
sanitize_csv_cell_safe (String.◌∷◌ c s) = elim (Bool-cases (is_trigger c)) [
  | inl t ↦ rw (t) (refl, refl)
  | inr f ↦ rw (f) (f, refl)
]
