-- ===== src/Certificates/Numbering.antt =====
-- certificates/numbering.py: the numbers of certificates, one sequence for an organization and a
-- year. The row lock makes the block one step.
use govahee.Prelude.{
  ℕ, ◌+◌, String, Bool, ◌&&◌, List, ◌∷◌, Option, none, some, ◌==◌, find, update, or_else,
}
use govahee.Prelude.Text.{strip, decimal, zero_padded, ◌+++◌}
use govahee.Exec.{Exec, ok}
use govahee.Organizations.Models.{Organization}
use govahee.Certificates.Dates.{Date}
use govahee.Certificates.Models.{CertificateNumberSequence, State}

-- the row of an organization and a year, which are unique together
abbrev pub is_sequence : ℕ → ℕ → CertificateNumberSequence → Bool
is_sequence org year row = row.organization == org && row.year == year

abbrev pub value_of : Option CertificateNumberSequence → ℕ
value_of none = 0
value_of (some row) = row.last_value

-- the last number that was given out
unfoldable pub last_value : ℕ → ℕ → List CertificateNumberSequence → ℕ
last_value org year rows = value_of (find (is_sequence org year) rows)

abbrev pub increment : CertificateNumberSequence → CertificateNumberSequence
increment row = record row { last_value = row.last_value + 1 }

unfoldable pub advance_row :
    ℕ
    → ℕ
    → Option CertificateNumberSequence
    → List CertificateNumberSequence
    → List CertificateNumberSequence
advance_row org year none rows = record { organization = org; year = year; last_value = 1 } ∷ rows
advance_row org year (some row) rows = update (is_sequence org year) increment rows

-- `get_or_create`, `seq.last_value += 1` and its save
unfoldable pub advance : ℕ → ℕ → List CertificateNumberSequence → List CertificateNumberSequence
unfolding advance_row
advance org year rows = advance_row org year (find (is_sequence org year) rows) rows

-- `(organization.certificate_number_prefix or "CERT-").strip() or "CERT-"`
abbrev pub number_prefix : Organization → String
number_prefix org = or_else (strip (or_else org.certificate_number_prefix "CERT-")) "CERT-"

-- `f"{prefix}{year}-{seq.last_value:06d}"`
abbrev pub format_number : String → ℕ → ℕ → String
format_number prefix year value = prefix +++ decimal year +++ "-" +++ zero_padded 6 value

-- `next_certificate_number`
unfoldable pub next_certificate_number : Organization → Date → Exec State String
next_certificate_number org issued_on s =
    let year = issued_on.year in
    let rows = advance org.id year s.sequences in
    (
      ok (format_number (number_prefix org) year (last_value org.id year rows)),
      record s { sequences = rows },
    )
