-- ===== src/Certificates/Uploads.antt =====
-- certificates/bulk.py: reading an uploaded table, and the mapping that its columns suggest. What
-- `csv.reader` and openpyxl read from the file are arguments: rows of cells. The steps of
-- `csv.DictReader` on these rows are written out.
pub mod Limit
use govahee.Prelude.{
  ℕ, suc, ◌+◌, String, Bool, true, false, ◌||◌, not, List, [], ◌∷◌, Option, none, some, ltb, str_eq,
  map, keep, any, truthy, if◌then◌else◌,
}
use govahee.Prelude.Text.{strip, lower, get, put, member}
use govahee.Exec.{Error, Result, ok, err, validation}
use govahee.Billing.Models.{Payload}

-- a row of the upload: `row["row_number"]` and `row["data"]`
pub record UploadRow : Type 0 where
  pub row_number : ℕ
  pub data_ : Payload

abbrev pub max_rows : ℕ
max_rows = 10000

-- `s.endswith(suffix)`
unfoldable pub ends_with : String → String → Bool
ends_with suffix String.[] = str_eq suffix String.[]
ends_with suffix (String.◌∷◌ c s) = str_eq suffix (String.◌∷◌ c s) || ends_with suffix s

-- `result.append(row)` before the rest of the loop
abbrev pub add_row : UploadRow → Result (List UploadRow) → Result (List UploadRow)
add_row row (ok rows) = ok (row ∷ rows)
add_row row (err e) = err e

abbrev pub too_many : Error
too_many = validation "There are more rows than allowed."

-- the dict of a row of `csv.DictReader`: a cell that is missing is None, one too many has the key None
unfoldable pub csv_dict : List String → List String → Payload → Payload
csv_dict [] cells d = d
csv_dict (h ∷ hs) [] d = csv_dict hs [] (put h "" d)
csv_dict (h ∷ hs) (c ∷ cs) d = csv_dict hs cs (put h c d)

-- `{k.strip(): (v or "").strip() for k, v in row.items() if k}`
unfoldable pub clean : Payload → Payload → Payload
clean [] d = d
clean ((k, v) ∷ row) d = clean row (if truthy k then put (strip k) (strip v) d else d)

abbrev pub csv_row : List String → ℕ → List String → UploadRow
csv_row fieldnames i cells = record {
  row_number = i;
  data_ = clean (csv_dict fieldnames cells []) [];
}

abbrev pub is_filled : List String → Bool
is_filled [] = false
is_filled (c ∷ cs) = true

-- the loop of `_parse_csv`: `i` is the number of the row, `n` that of the rows so far
unfoldable pub csv_rows : List String → ℕ → ℕ → List (List String) → Result (List UploadRow)
csv_rows fieldnames i n [] = ok []
csv_rows fieldnames i n (cells ∷ rows) =
    let rest = csv_rows fieldnames (i + 1) (n + 1) rows in
    if ltb max_rows (n + 1) then err too_many else add_row (csv_row fieldnames i cells) rest

abbrev pub Table : Type 0
Table = List String × List UploadRow

abbrev pub with_headers : List String → Result (List UploadRow) → Result Table
with_headers headers (ok rows) = ok (headers, rows)
with_headers headers (err e) = err e

-- `_parse_csv`; `DictReader` leaves out the empty rows
unfoldable pub parse_csv : List (List String) → Result Table
parse_csv [] = ok ([], [])
parse_csv (fieldnames ∷ rows) =
    with_headers (map strip fieldnames) (csv_rows fieldnames 2 0 (keep is_filled rows))

-- a cell of openpyxl: None, a date with its `isoformat()` and `str()`, or another value's `str()`
pub data Cell : Type 0 where
  empty : Cell
  date : String → String → Cell
  value : String → Cell

abbrev pub header_text : Cell → String
header_text empty = ""
header_text (date iso s) = strip s
header_text (value s) = strip s

abbrev pub cell_text : Cell → String
cell_text empty = ""
cell_text (date iso s) = iso
cell_text (value s) = strip s

-- the loop over the headers, which leaves out the columns that have none
unfoldable pub xlsx_dict : List String → List Cell → Payload → Payload
xlsx_dict [] cells d = d
xlsx_dict (h ∷ hs) [] d = xlsx_dict hs [] (if truthy h then put h "" d else d)
xlsx_dict (h ∷ hs) (c ∷ cs) d = xlsx_dict hs cs (if truthy h then put h (cell_text c) d else d)

-- `if value: empty = False`, for a column with a header
unfoldable pub has_value : List String → List Cell → Bool
has_value [] cells = false
has_value (h ∷ hs) [] = false
has_value (h ∷ hs) (c ∷ cs) = (if truthy h then truthy (cell_text c) else false) || has_value hs cs

abbrev pub xlsx_row : List String → ℕ → List Cell → UploadRow
xlsx_row headers i cells = record { row_number = i; data_ = xlsx_dict headers cells [] }

-- the loop of `_parse_xlsx`, which numbers the rows that it leaves out, too
unfoldable pub xlsx_rows : List String → ℕ → ℕ → List (List Cell) → Result (List UploadRow)
xlsx_rows headers i n [] = ok []
xlsx_rows headers i n (cells ∷ rows) =
    let n' = if has_value headers cells then n + 1 else n in
    let rest = xlsx_rows headers (i + 1) n' rows in
    if not (has_value headers cells)
    then rest
    else if ltb max_rows n'
    then err too_many
    else add_row (xlsx_row headers i cells) rest

-- `if not header_row: return [], []`, and what follows
unfoldable pub xlsx_table : List Cell → List (List Cell) → Result Table
xlsx_table [] rows = ok ([], [])
xlsx_table (c ∷ cs) rows =
    let headers = map header_text (c ∷ cs) in
    with_headers (keep truthy headers) (xlsx_rows headers 2 0 rows)

-- `_parse_xlsx`, at the rows of the active sheet or what `load_workbook` raises
unfoldable pub parse_xlsx : Result (List (List Cell)) → Result Table
parse_xlsx (err e) = err e
parse_xlsx (ok []) = ok ([], [])
parse_xlsx (ok (header ∷ rows)) = xlsx_table header rows

-- the file: its size, its name, and its rows as the two libraries read them
pub record Upload : Type 0 where
  pub size : ℕ
  pub name : String
  pub csv : List (List String)
  pub workbook : Result (List (List Cell))

-- `parse_tabular`
unfoldable pub parse_tabular : Upload → Result Table
parse_tabular file =
    let name = lower file.name in
    if ends_with ".csv" name
    then parse_csv file.csv
    else if ends_with ".xlsx" name || ends_with ".xls" name
    then parse_xlsx file.workbook
    else err (validation "Only CSV or Excel files are allowed.")

-- BUILT_IN_VARIABLES of certificates/variables.py
abbrev pub built_in_variables : List String
built_in_variables =
    "recipient_name" ∷ "recipient_first_name" ∷ "recipient_last_name" ∷ "certificate_number"
    ∷ "course_name" ∷ "course_code" ∷ "issue_date" ∷ "expiry_date" ∷ "duration" ∷ "score" ∷ "grade"
    ∷ "issuer_name" ∷ "issuer_title" ∷ "organization_name" ∷ "verification_url"
    ∷ "verification_code" ∷ "recipient_id" ∷ []

-- the table of the function, its Persian names (name, email, course, score, date) by their code points
abbrev pub aliases : Payload
aliases =
    ("name", "recipient_name")
    ∷ ("full_name", "recipient_name")
    ∷ ("recipient", "recipient_name")
    ∷ ("\u{646}\u{627}\u{645}", "recipient_name")
    ∷ ("email", "email")
    ∷ ("\u{627}\u{6cc}\u{645}\u{6cc}\u{644}", "email")
    ∷ ("course", "course_name")
    ∷ ("course_name", "course_name")
    ∷ ("\u{62f}\u{648}\u{631}\u{647}", "course_name")
    ∷ ("score", "score")
    ∷ ("\u{646}\u{645}\u{631}\u{647}", "score")
    ∷ ("date", "issue_date")
    ∷ ("issue_date", "issue_date")
    ∷ ("\u{62a}\u{627}\u{631}\u{6cc}\u{62e}", "issue_date")
    ∷ []

-- the body of the loop of `suggested_mapping`
unfoldable pub suggest : String → Payload → Payload
suggest header mapping = elim (get (lower (strip header)) aliases) [
  | some field ↦ put header field mapping
  | none ↦ if member header built_in_variables then put header header mapping else mapping
]

suggest_all : List String → Payload → Payload
suggest_all [] mapping = mapping
suggest_all (h ∷ hs) mapping = suggest_all hs (suggest h mapping)

-- `suggested_mapping`
unfoldable pub suggested_mapping : List String → Payload
unfolding suggest_all
suggested_mapping headers = suggest_all headers []
