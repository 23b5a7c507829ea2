-- ===== src/Certificates/Uploads/Limit.antt =====
-- The rows that `parse_tabular` of certificates/bulk.py returns: how many, and how numbered.
use mathlib.Core.Path.{subst}
use govahee.Prelude.Text.{strip, lower}
use govahee.Prelude.{
  ◌||◌, ℕ, ◌+◌, ◌≤◌, ◌≡◌, refl, inl, inr, String, List, [], ◌∷◌, arith, ltb, length, map, keep,
  truthy, Bool-cases,
}
use govahee.Exec.{Result, ok, err}
use govahee.Certificates.Uploads.{
  header_text, UploadRow, max_rows, add_row, csv_row, csv_rows, Cell, has_value, xlsx_row,
  xlsx_rows, with_headers, is_filled, parse_csv, xlsx_table, parse_xlsx, Upload, parse_tabular,
  Table, ends_with,
}

-- the rows are numbered upwards, from `i` on
abbrev pub IsNumbered : ℕ → List UploadRow → Type 0
IsNumbered i [] = Unit {0}
IsNumbered i (r ∷ rs) = (i ≤ r.row_number) × IsNumbered (r.row_number + 1) rs

IsNumbered-weaken : (i j : ℕ) (rs : List UploadRow) → i ≤ j → IsNumbered j rs → IsNumbered i rs
IsNumbered-weaken i j [] h k = tt
IsNumbered-weaken i j (r ∷ rs) h k = (omega (arith, k.0), k.1)

-- at most as many rows as are left of the limit, numbered upwards
abbrev pub IsWithin : ℕ → ℕ → Result (List UploadRow) → Type 0
IsWithin i n (ok rows) = (length rows + n ≤ max_rows) × IsNumbered i rows
IsWithin i n (err e) = Unit {0}

IsWithin-add_row :
    (i n : ℕ) (row : UploadRow) (r : Result (List UploadRow))
    → row.row_number ≡ i
    → IsWithin (i + 1) (n + 1) r
    → IsWithin i n (add_row row r)
IsWithin-add_row i n row (ok rows) same h = (omega (arith, h.0), (omega (arith, same), rw same h.1))
IsWithin-add_row i n row (err e) same h = tt

csv_rows-IsWithin :
    (fieldnames : List String) (i n : ℕ) (rows : List (List String))
    → n ≤ max_rows
    → IsWithin i n (csv_rows fieldnames i n rows)
unfolding csv_rows
csv_rows-IsWithin fs i n [] h = (omega arith, tt)
csv_rows-IsWithin fs i n (cells ∷ rows) h = elim (Bool-cases (ltb max_rows (n + 1))) [
  | inl over ↦ rw (over) tt
  | inr fits ↦ rw (fits) (
      IsWithin-add_row i n (csv_row fs i cells) (csv_rows fs (i + 1) (n + 1) rows) refl
        (csv_rows-IsWithin fs (i + 1) (n + 1) rows (ground (arith, fits))))
]

xlsx_rows-IsWithin :
    (headers : List String) (i n : ℕ) (rows : List (List Cell))
    → n ≤ max_rows
    → IsWithin i n (xlsx_rows headers i n rows)
unfolding xlsx_rows
xlsx_rows-IsWithin hs i n [] h = (omega arith, tt)
xlsx_rows-IsWithin hs i n (cells ∷ rows) h = elim (Bool-cases (has_value hs cells)) [
  | inl filled ↦ rw (filled) (elim (Bool-cases (ltb max_rows (n + 1))) [
    | inl over ↦ rw (over) tt
    | inr fits ↦ rw (fits) (
        IsWithin-add_row i n (xlsx_row hs i cells) (xlsx_rows hs (i + 1) (n + 1) rows) refl
          (xlsx_rows-IsWithin hs (i + 1) (n + 1) rows (ground (arith, fits))))
  ])
  | inr blank ↦
      rw (blank)
        (skipped i n (xlsx_rows hs (i + 1) n rows) (xlsx_rows-IsWithin hs (i + 1) n rows h))
]
  where
    skipped : (i n : ℕ) (r : Result (List UploadRow)) → IsWithin (i + 1) n r → IsWithin i n r
    skipped i n (ok rs) k = (k.0, IsNumbered-weaken i (i + 1) rs (omega arith) k.1)
    skipped i n (err e) k = tt

-- the same of a table
abbrev IsLimited : Result Table → Type 0
IsLimited (ok (headers, rows)) = (length rows ≤ max_rows) × IsNumbered 2 rows
IsLimited (err e) = Unit {0}

with_headers-IsLimited :
    (headers : List String) (r : Result (List UploadRow))
    → IsWithin 2 0 r
    → IsLimited (with_headers headers r)
with_headers-IsLimited headers (ok rows) h = (omega (arith, h.0), h.1)
with_headers-IsLimited headers (err e) h = tt

parse_csv-IsLimited : (rows : List (List String)) → IsLimited (parse_csv rows)
unfolding parse_csv
parse_csv-IsLimited [] = (omega arith, tt)
parse_csv-IsLimited (fs ∷ rows) =
    with_headers-IsLimited (map strip fs) (csv_rows fs 2 0 (keep is_filled rows))
      (csv_rows-IsWithin fs 2 0 (keep is_filled rows) (omega arith))

parse_xlsx-IsLimited : (sheet : Result (List (List Cell))) → IsLimited (parse_xlsx sheet)
unfolding parse_xlsx xlsx_table
parse_xlsx-IsLimited (err e) = tt
parse_xlsx-IsLimited (ok []) = (omega arith, tt)
parse_xlsx-IsLimited (ok ([] ∷ rows)) = (omega arith, tt)
parse_xlsx-IsLimited (ok ((c ∷ cs) ∷ rows)) =
    let headers = map header_text (c ∷ cs) in
    with_headers-IsLimited (keep truthy headers) (xlsx_rows headers 2 0 rows)
      (xlsx_rows-IsWithin headers 2 0 rows (omega arith))

parse_tabular-IsLimited : (file : Upload) → IsLimited (parse_tabular file)
unfolding parse_tabular
parse_tabular-IsLimited file = elim (Bool-cases (ends_with ".csv" (lower file.name))) [
  | inl csv ↦ rw (csv) (parse_csv-IsLimited file.csv)
  | inr other ↦
      elim (Bool-cases
        (ends_with ".xlsx" (lower file.name) || ends_with ".xls" (lower file.name))) [
          | inl sheet ↦ rw (other, sheet) (parse_xlsx-IsLimited file.workbook)
          | inr neither ↦ rw (other, neither) tt
        ]
]

-- An upload that is read, whatever the file holds, has at most 10000 rows, and the row numbers
-- that the messages of errors name start from 2 and rise from row to row.
pub parse_tabular_limit :
    (file : Upload) (headers : List String) (rows : List UploadRow)
    → parse_tabular file ≡ ok (headers, rows)
    → (length rows ≤ max_rows) × IsNumbered 2 rows
parse_tabular_limit file headers rows h = subst IsLimited h (parse_tabular-IsLimited file)
