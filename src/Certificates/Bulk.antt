-- ===== src/Certificates/Bulk.antt =====
-- certificates/bulk.py and certificates/export.py: the columns of an uploaded table mapped to
-- fields, the checks of a row, and the cells of an export. The Persian column names of `suggested_mapping` and the messages stand
-- in English. A payload holds texts.
use govahee.Prelude.{
  ℕ, String, Bool, true, false, ◌&&◌, not, List, [], ◌∷◌, ◌++◌, Option, none, some, ◌==◌, truthy,
  or_else, if◌then◌else◌, is_some,
}
use govahee.Prelude.Text.{strip, prefix, decimal, get, put, ◌+++◌}
use Prim.Native.Char.{Char, code}
use govahee.Billing.Models.{Payload}
use govahee.Certificates.Dates.Iso.{iso_date}

-- `d.get(key) or ""`
abbrev pub text_of : Option String → String
text_of none = ""
text_of (some v) = v

abbrev pub value_at : String → Payload → String
value_at key d = text_of (get key d)

map_columns : Payload → Payload → Payload → Payload
map_columns payload [] mapped = mapped
map_columns payload ((column, field) ∷ mapping) mapped =
    map_columns payload mapping
      (if truthy field then put field (strip (value_at column payload)) mapped else mapped)

-- `apply_mapping`
unfoldable pub apply_mapping : Payload → Payload → Payload
unfolding map_columns
apply_mapping payload mapping = map_columns payload mapping []

-- `c in s`
unfoldable pub has_char : ℕ → String → Bool
has_char n String.[] = false
has_char n (String.◌∷◌ c s) = let rest = has_char n s in if code c == n then true else rest

-- `s.replace("/", "-")`
unfoldable pub slashes_to_dashes : String → String
slashes_to_dashes String.[] = String.[]
slashes_to_dashes (String.◌∷◌ c s) =
    String.◌∷◌ (if code c == 47 then "-" else c) (slashes_to_dashes s)

abbrev error_if : Bool → String → List String
error_if true message = message ∷ []
error_if false message = []

abbrev pub recipient_name : Payload → String
recipient_name mapped = or_else (value_at "recipient_name" mapped) (value_at "name" mapped)

-- `validate_mapped_row`
unfoldable pub validate_mapped_row : Payload → ℕ → List String
validate_mapped_row mapped row_number =
    let row = "Row " +++ decimal row_number in
    let email = value_at "email" mapped in
    let issue_date = value_at "issue_date" mapped in
    error_if (not (truthy (recipient_name mapped)))
      (row +++ ": The name of the recipient is required.")
    ++ error_if (truthy email && not (has_char 64 email)) (row +++ ": Email is invalid")
    ++ error_if
        (truthy issue_date && not (is_some (iso_date (prefix 10 (slashes_to_dashes issue_date)))))
        (row +++ ": The date of issue is not valid.")

-- `value[0] in ("=", "+", "-", "@")`
abbrev pub is_formula : Char → Bool
is_formula c =
    if code c == 61
    then true
    else if code c == 43
    then true
    else if code c == 45
    then true
    else code c == 64

-- `sanitize_csv_value`
unfoldable pub sanitize_csv_value : String → String
sanitize_csv_value String.[] = String.[]
sanitize_csv_value (String.◌∷◌ c s) =
    if is_formula c then String.◌∷◌ "'" (String.◌∷◌ c s) else String.◌∷◌ c s

-- `text[:1] in {"=", "+", "-", "@", "\t", "\r"}`
abbrev pub is_trigger : Char → Bool
is_trigger c = if is_formula c then true else if code c == 9 then true else code c == 13

-- `sanitize_csv_cell` of certificates/export.py, at a text
unfoldable pub sanitize_csv_cell : String → String
sanitize_csv_cell String.[] = String.[]
sanitize_csv_cell (String.◌∷◌ c s) =
    if is_trigger c then String.◌∷◌ "'" (String.◌∷◌ c s) else String.◌∷◌ c s
