-- ===== src/Certificates/Sequence.antt =====
-- The sequences of certificates/numbering.py: no number is given out twice.
use govahee.Prelude.{
  ℕ, ◌+◌, ◌≡◌, refl, ap, inl, inr, false, ◌&&◌, List, Option, none, some, arith, ==_refl, find,
  find_sound, find-update, find-update_other, Option-cases,
}
use govahee.Certificates.Models.{CertificateNumberSequence}
use govahee.Certificates.Numbering.{
  is_sequence, value_of, last_value, increment, advance_row, advance,
}

increment_keeps :
    (o y : ℕ) (row : CertificateNumberSequence)
    → is_sequence o y (increment row) ≡ is_sequence o y row
increment_keeps o y row = refl

module _ (o y : ℕ) where
  advance_row_self :
      (found : Option CertificateNumberSequence) (rows : List CertificateNumberSequence)
      → find (is_sequence o y) rows ≡ found
      → value_of (find (is_sequence o y) (advance_row o y found rows)) ≡ value_of found + 1
  unfolding advance_row
  advance_row_self none rows h = rw (==_refl o, ==_refl y) refl
  advance_row_self (some row) rows h =
      let kept = find_sound (is_sequence o y) rows {x = row} h in
      ap value_of (find-update (is_sequence o y) increment rows {x = row} h kept)

  module _ (o' y' : ℕ) (ne : o' ≡ o → ¬ (y' ≡ y)) where
    apart :
        (row : CertificateNumberSequence) → (is_sequence o y row && is_sequence o' y' row) ≡ false
    apart row = ground (arith, ne)

    advance_row_other :
        (found : Option CertificateNumberSequence) (rows : List CertificateNumberSequence)
        → find (is_sequence o' y') (advance_row o y found rows) ≡ find (is_sequence o' y') rows
    unfolding advance_row
    advance_row_other none rows = ground (arith, ne)
    advance_row_other (some row) rows =
        let frame =
          find-update_other (is_sequence o y) (is_sequence o' y') increment (increment_keeps o' y')
            apart rows in
        elim (Option-cases (find (is_sequence o' y') rows)) [
          | inl h ↦ rw (h, frame.1 h) refl
          | inr (r, h) ↦ rw (h, frame.0 r h) refl
        ]

-- Taking a number raises the last value of the organization's year by exactly one, whether the
-- year had numbers or not, and moves no other organization's and no other year's sequence.
pub advance-last_value :
    (o y : ℕ) (rows : List CertificateNumberSequence) (o' y' : ℕ)
    → (o' ≡ o → ¬ (y' ≡ y))
    → (last_value o y (advance o y rows) ≡ last_value o y rows + 1)
      × (last_value o' y' (advance o y rows) ≡ last_value o' y' rows)
unfolding last_value advance
advance-last_value o y rows o' y' ne = (
  advance_row_self o y (find (is_sequence o y) rows) rows refl,
  ap value_of (advance_row_other o y o' y' ne (find (is_sequence o y) rows) rows),
)
