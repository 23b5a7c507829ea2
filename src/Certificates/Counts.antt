-- ===== src/Certificates/Counts.antt =====
-- What the counters, the report and the status of a batch say after `process_issuance_batch` of
-- certificates/tasks.py.
use govahee.Prelude.{
  ℕ, ◌+◌, ◌≤◌, ◌≡◌, refl, sym, ap, ◌∙◌, ◌⊎◌, inl, inr, ◌↔◌, String, Bool, true, false, not, List,
  [], ◌∷◌, arith, length, count, truthy, Bool-cases, if◌then◌else◌,
}
use govahee.Exec.{Error, Result, ok, err}
use govahee.Certificates.Models.{Certificate, State}
use govahee.Certificates.Orders.{Order}
use govahee.Certificates.Bulk.{apply_mapping, validate_mapped_row}
use govahee.Certificates.Issue.{issue_certificate}
use govahee.Certificates.Issuing.{Served, issue_certificate_sound, rolled_back}
use govahee.Certificates.Batch.{
  IssuanceItem, IssuanceBatch, completed, Drawn, order_of, Counters, no_counters, is_issued, Row,
  count_item, has_email, mailed_item, issued_item, checked_item, process_item, process_items,
  items_of, final_status, error_report, save_counters, process_issuance_batch,
}

-- the items that were issued, and the others
pub successes : List IssuanceItem → ℕ
successes = count (λ (i : IssuanceItem). is_issued i.status)

pub failures : List IssuanceItem → ℕ
failures = count (λ (i : IssuanceItem). not (is_issued i.status))

-- what a row adds up to: an error for an item that is not issued, and a success for each new
-- certificate, also for one whose mail was refused
record Counted (send : Bool) (s : State) (r : Row) : Type 0 where
  error : r.errors ≡ (if is_issued r.item.status then 0 else 1)
  least : (if is_issued r.item.status then 1 else 0) ≤ r.success
  quiet : (send ≡ true) ⊎ (r.success ≡ (if is_issued r.item.status then 1 else 0))
  grown : length r.state.certificates ≡ length s.certificates + r.success

-- a request without a key adds a certificate, or is refused and adds none
Added : State → Result Certificate × State → Type 0
Added s (ok c, t) = length t.certificates ≡ length s.certificates + 1
Added s (err e, t) = length t.certificates ≡ length s.certificates

issue_certificate-Added :
    (o : Order) (s : State) (r : Result Certificate × State)
    → truthy o.idempotency_key ≡ false
    → issue_certificate o s ≡ r
    → Added s r
unfolding Added Served
issue_certificate-Added o s (ok c, t) keyless h = elim (issue_certificate_sound o s c t h).1 [
  | inl (known, _) ↦ absurd (ground (arith, rw (keyless) at known))
  | inr (_, _, fresh) ↦ ap length fresh.stored ∙ omega arith
]
issue_certificate-Added o s (err e, t) keyless h =
    ap (λ (r : Result Certificate × State). length r.1.certificates)
      (sym h ∙ rolled_back o s e (ap (λ (r : Result Certificate × State). r.0) h))

module _ (describe : Error → String) (delay : ℕ → Result (Unit {0})) (batch : IssuanceBatch)
    (drawn : IssuanceItem → Drawn) where
  mailed_item-Counted :
      (item : IssuanceItem) (s t : State) (pk : ℕ) (sent : Result (Unit {0}))
      → is_issued item.status ≡ true
      → length t.certificates ≡ length s.certificates + 1
      → Counted true s (mailed_item describe delay item t pk sent)
  unfolding mailed_item
  mailed_item-Counted item s t pk (ok u) done more = record {
    error = rw (done) refl;
    least = rw (done) (omega arith);
    quiet = inl refl;
    grown = more;
  }
  mailed_item-Counted item s t pk (err e) done more = record {
    error = refl;
    least = omega arith;
    quiet = inl refl;
    grown = more;
  }

  issued_item-Counted :
      (send : Bool) (item : IssuanceItem) (s : State) (r : Result Certificate × State)
      → Added s r
      → Counted send s (issued_item describe delay send item r)
  unfolding issued_item Added
  issued_item-Counted true item s (ok c, t) more = elim (Bool-cases (has_email c t)) [
    | inl mail ↦ rw (mail) (mailed_item-Counted _ s t c.id (delay c.id) refl more)
    | inr none_ ↦
        rw (none_) (record { error = refl; least = omega arith; quiet = inl refl; grown = more })
  ]
  issued_item-Counted false item s (ok c, t) more = record {
    error = refl;
    least = omega arith;
    quiet = inr refl;
    grown = more;
  }
  issued_item-Counted send item s (err e, t) same = record {
    error = refl;
    least = omega arith;
    quiet = inr refl;
    grown = same ∙ omega arith;
  }

  checked_item-Counted :
      (item : IssuanceItem) (o : Order) (errors : List String) (s : State)
      → truthy o.idempotency_key ≡ false
      → Counted batch.send_email s (checked_item describe delay batch.send_email item o errors s)
  unfolding checked_item
  checked_item-Counted item o [] s keyless =
      issued_item-Counted batch.send_email item s (issue_certificate o s)
        (issue_certificate-Added o s (issue_certificate o s) keyless refl)
  checked_item-Counted item o (e ∷ es) s keyless = record {
    error = refl;
    least = omega arith;
    quiet = inr refl;
    grown = omega arith;
  }

  process_item-Counted :
      (item : IssuanceItem) (s : State)
      → Counted batch.send_email s (process_item describe delay batch drawn item s)
  unfolding process_item order_of
  process_item-Counted item s =
      let mapped = apply_mapping item.payload batch.column_mapping in
      checked_item-Counted item (order_of batch (drawn item) mapped)
        (validate_mapped_row mapped item.row_number) s refl

  process_items_counts :
      (items : List IssuanceItem) (n : Counters) (s : State)
      → let r = process_items describe delay batch drawn items n s in
        (length (items_of r.0) ≡ length items)
        × (r.1.0.processed_rows ≡ n.processed_rows + length items)
        × (length r.1.1.certificates + n.success_count
            ≡ length s.certificates + r.1.0.success_count)
        × (r.1.0.error_count ≡ n.error_count + failures (items_of r.0))
        × (n.success_count + successes (items_of r.0) ≤ r.1.0.success_count)
        × ((batch.send_email ≡ true)
            ⊎ (r.1.0.success_count ≡ n.success_count + successes (items_of r.0)))
  unfolding process_items count_item items_of successes failures
  process_items_counts [] n s =
      (refl, omega arith, omega arith, omega arith, omega arith, inr (omega arith))
  process_items_counts (item ∷ items) n s =
      let row = process_item describe delay batch drawn item s in
      let one = process_item-Counted item s in
      let (a, b, c, d, e, f) = process_items_counts items (count_item row n) row.state in
      (
        omega (arith, a),
        omega (arith, b),
        omega (arith, c, one.grown),
        ground (arith, d, one.error),
        ground (arith, e, one.least),
        elim one.quiet [
          | inl sends ↦ inl sends
          | inr exact ↦ elim f [
            | inl sends ↦ inl sends
            | inr rest ↦ inr (ground (arith, rest, exact))
          ]
        ],
      )

error_report-length : (items : List IssuanceItem) → length (error_report items) ≡ failures items
unfolding error_report failures
error_report-length [] = refl
error_report-length (i ∷ items) = ground (arith, error_report-length items)

final_status_iff : (success errors : ℕ) → (final_status success errors ≡ completed) ↔ (errors ≡ 0)
unfolding final_status
final_status_iff success errors = ground arith

-- A batch with items is processed to its end, whatever its rows hold, whichever of them are
-- refused, and whatever the broker answers: every item is kept; the saved counters are the number of
-- items, the number of certificates that were added, and the number of items that are not issued at
-- the end; the items that are issued are not more than the certificates, and just as many if no mail
-- was asked for; the report has one line for each item that is not issued, and the status is
-- completed just when there is none.
pub process_issuance_batch_counts :
    (describe : Error → String) (delay : ℕ → Result (Unit {0})) (drawn : IssuanceItem → Drawn)
    (batch : IssuanceBatch) (item : IssuanceItem) (items : List IssuanceItem) (s : State)
    → let f = process_issuance_batch describe delay drawn batch (item ∷ items) s in
      (length f.items ≡ length (item ∷ items))
      × (f.batch.processed_rows ≡ length f.items)
      × (length f.state.certificates ≡ length s.certificates + f.batch.success_count)
      × (f.batch.error_count ≡ failures f.items)
      × (successes f.items ≤ f.batch.success_count)
      × ((batch.send_email ≡ true) ⊎ (f.batch.success_count ≡ successes f.items))
      × (length f.batch.error_report ≡ f.batch.error_count)
      × ((f.batch.status ≡ completed) ↔ (failures f.items ≡ 0))
unfolding process_issuance_batch save_counters
process_issuance_batch_counts describe delay drawn batch item items s =
    let r = process_items describe delay batch drawn (item ∷ items) no_counters s in
    let (kept, processed, added, errors, least, quiet) =
      process_items_counts describe delay batch drawn (item ∷ items) no_counters s in
    let report = error_report-length (items_of r.0) in
    let status = final_status_iff r.1.0.success_count r.1.0.error_count in
    (
      kept,
      omega (arith, processed, kept),
      omega (arith, added),
      omega (arith, errors),
      omega (arith, least),
      elim quiet [ inl q ↦ inl q | inr q ↦ inr (omega (arith, q)) ],
      omega (arith, report, errors),
      (λ h. omega (arith, status.0 h, errors), λ h. status.1 (omega (arith, h, errors))),
    )
