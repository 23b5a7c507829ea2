-- ===== src/Certificates/Unique.antt =====
-- The texts of certificate numbers (certificates/numbering.py): a new number is none of those that
-- were given out before.
use text.Mathlib.TextLemmas.{append_cancel_left, append_assoc}
use govahee.Prelude.{ℕ, ◌+◌, ◌≤◌, ◌≡◌, refl, sym, ap, ◌∙◌, ◌≢◌, ◌⊎◌, inl, inr, String, arith}
use govahee.Prelude.Text.{decimal, zero_padded, ◌+++◌}
use govahee.Prelude.Text.Decimal.{
  cut_last, decimal_injective, read, read-zero_padded, has_dash-zero_padded,
}
use govahee.Exec.{ok}
use govahee.Organizations.Models.{Organization}
use govahee.Certificates.Dates.{Date}
use govahee.Certificates.Models.{State}
use govahee.Certificates.Numbering.{
  last_value, advance, number_prefix, format_number, next_certificate_number,
}
use govahee.Certificates.Sequence.{advance-last_value}

dashed :
    (prefix : String) (year value : ℕ)
    → format_number prefix year value ≡ (prefix +++ decimal year) +++ ("-" +++ zero_padded 6 value)
dashed prefix year value = sym (append_assoc prefix (decimal year) ("-" +++ zero_padded 6 value))

-- Equal texts have equal values, whatever their prefixes and years, and with equal prefixes they
-- have equal years.
format_number_injective :
    (p q : String) (y z v w : ℕ)
    → format_number p y v ≡ format_number q z w
    → (v ≡ w) × (p +++ decimal y ≡ q +++ decimal z)
format_number_injective p q y z v w h =
    let parts =
      cut_last (p +++ decimal y) (q +++ decimal z) (zero_padded 6 v) (zero_padded 6 w)
        (has_dash-zero_padded 6 v) (has_dash-zero_padded 6 w)
        (sym (dashed p y v) ∙ h ∙ dashed q z w) in
    (sym (read-zero_padded 6 v) ∙ ap (read 0) parts.1 ∙ read-zero_padded 6 w, parts.0)

-- A number that was given out before, with the prefix of that time: one of the same year, up to
-- the last value of its sequence, or one of another year with the prefix of today.
abbrev pub WasGiven : Organization → ℕ → State → String → ℕ → ℕ → Type 0
WasGiven org year s prefix y v =
    ((y ≡ year) × (v ≤ last_value org.id year s.sequences))
    ⊎ ((y ≢ year) × (prefix ≡ number_prefix org))

-- Taking a number always succeeds, and its text differs from that of every number which the
-- organization gave out before: from those of the same year even where the prefix was another one
-- then, and from those of other years with the same prefix.
pub next_certificate_number_fresh :
    (org : Organization) (d : Date) (s : State) (prefix : String) (y v : ℕ)
    → WasGiven org d.year s prefix y v
    → (number : String) × (s' : State) × (next_certificate_number org d s ≡ (ok number, s'))
      × (number ≢ format_number prefix y v)
unfolding next_certificate_number
next_certificate_number_fresh org d s prefix y v given =
    let rows = advance org.id d.year s.sequences in
    let value = last_value org.id d.year rows in
    (
      format_number (number_prefix org) d.year value,
      record s { sequences = rows },
      refl,
      λ same.
          apart given (format_number_injective (number_prefix org) prefix d.year y value v same)
            (advance-last_value org.id d.year s.sequences (org.id + 1) d.year
              (λ e. absurd (omega (arith, e)))).0,
    )
  where
    apart :
        WasGiven org d.year s prefix y v
        → (last_value org.id d.year (advance org.id d.year s.sequences) ≡ v)
          × (number_prefix org +++ decimal d.year ≡ prefix +++ decimal y)
        → last_value org.id d.year (advance org.id d.year s.sequences)
          ≡ last_value org.id d.year s.sequences + 1
        → ⊥
    apart (inl (_, old)) parts next = omega (arith, old, parts.0, next)
    apart (inr (other, current)) parts next = other (
        sym (
          decimal_injective d.year y (
            append_cancel_left prefix (decimal d.year) (decimal y)
              (ap (λ p. p +++ decimal d.year) current ∙ parts.1))))
