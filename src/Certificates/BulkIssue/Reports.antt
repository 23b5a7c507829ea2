-- ===== src/Certificates/BulkIssue/Reports.antt =====
-- What the validation of a batch says: its report and counts, and what `process_issuance_batch` of
-- certificates/tasks.py makes of the items afterwards.
use govahee.Prelude.{
  ℕ, ◌+◌, ◌≡◌, refl, ap, String, Bool, false, ◌&&◌, not, Bool-cases, inl, inr, List, [], ◌∷◌, arith,
  length, count, keep, map, if◌then◌else◌,
}
use govahee.Exec.{Error, Result, ok, err}
use govahee.Billing.Models.{Payload}
use govahee.Certificates.Models.{Certificate, State}
use govahee.Certificates.Bulk.{apply_mapping, validate_mapped_row}
use govahee.Certificates.Orders.{Order}
use govahee.Certificates.Issue.{issue_certificate}
use govahee.Certificates.Batch.{
  IssuanceItem, IssuanceBatch, ItemStatus, Drawn, order_of, has_email, mailed_item, issued_item,
  checked_item, process_item,
}
use govahee.Certificates.BulkIssue.{
  status_of, validate_item, has_errors, reported, validate_batch_items, is_status_valid,
  is_status_invalid,
}

has_errors-status :
    (errors : List String) (item : IssuanceItem)
    → is_status_invalid (status_of errors) ≡ has_errors (record item { errors = errors })
has_errors-status [] item = refl
has_errors-status (e ∷ es) item = refl

valid_or_invalid :
    (errors : List String)
    → is_status_invalid (status_of errors) ≡ not (is_status_valid (status_of errors))
valid_or_invalid [] = refl
valid_or_invalid (e ∷ es) = refl

-- the counts of valid and of invalid items
abbrev pub valid_count : List IssuanceItem → ℕ
valid_count items = count (λ (i : IssuanceItem). is_status_valid i.status) items

abbrev pub invalid_count : List IssuanceItem → ℕ
invalid_count items = count (λ (i : IssuanceItem). is_status_invalid i.status) items

-- Validation gives every item of a batch one of two states and reports exactly the items that it
-- calls invalid: the counts of valid and invalid items add up to the number of items, and the
-- report has one entry for each invalid one.
pub validate_batch_items_counts :
    (mapping : Payload) (items : List IssuanceItem)
    → let r = validate_batch_items mapping items in
      (length r.0 ≡ length items)
      × (valid_count r.0 + invalid_count r.0 ≡ length items)
      × (length r.1 ≡ invalid_count r.0)
      × (r.1 ≡ map reported (keep (λ (i : IssuanceItem). is_status_invalid i.status) r.0))
unfolding validate_batch_items validate_item
validate_batch_items_counts mapping [] = (refl, omega arith, refl, refl)
validate_batch_items_counts mapping (item ∷ items) =
    let errors = validate_mapped_row (apply_mapping item.payload mapping) item.row_number in
    let (a, b, c, d) = validate_batch_items_counts mapping items in step errors a b c d
  where
    step :
        (errors : List String)
        → let checked = map (validate_item mapping) items in
          length checked ≡ length items
          → valid_count checked + invalid_count checked ≡ length items
          → length (map reported (keep has_errors checked)) ≡ invalid_count checked
          → map reported (keep has_errors checked)
            ≡ map reported (keep (λ (i : IssuanceItem). is_status_invalid i.status) checked)
          → let item' = record item { errors = errors; status = status_of errors } in
            (length (item' ∷ checked) ≡ length (item ∷ items))
            × (valid_count (item' ∷ checked) + invalid_count (item' ∷ checked)
                ≡ length (item ∷ items))
            × (length (map reported (keep has_errors (item' ∷ checked)))
                ≡ invalid_count (item' ∷ checked))
            × (map reported (keep has_errors (item' ∷ checked))
                ≡ map reported
                    (keep (λ (i : IssuanceItem). is_status_invalid i.status) (item' ∷ checked)))
    step [] a b c d = (omega (arith, a), omega (arith, b), omega (arith, c), d)
    step (e ∷ es) a b c d =
        (omega (arith, a), omega (arith, b), omega (arith, c), ap (◌∷◌ (item.row_number, e ∷ es)) d)

mailed-not-invalid :
    (describe : Error → String) (delay : ℕ → Result (Unit {0})) (item : IssuanceItem) (s : State)
    (pk : ℕ) (sent : Result (Unit {0}))
    → is_status_invalid item.status ≡ false
    → is_status_invalid (mailed_item describe delay item s pk sent).item.status ≡ false
unfolding mailed_item
mailed-not-invalid describe delay item s pk (ok u) h = h
mailed-not-invalid describe delay item s pk (err e) h = refl

issued-not-invalid :
    (describe : Error → String) (delay : ℕ → Result (Unit {0})) (send : Bool) (item : IssuanceItem)
    (r : Result Certificate × State)
    → is_status_invalid (issued_item describe delay send item r).item.status ≡ false
unfolding issued_item
issued-not-invalid describe delay send item (ok c, s) = elim (Bool-cases (send && has_email c s)) [
  | inl mail ↦ rw (mail) (mailed-not-invalid describe delay _ s c.id (delay c.id) refl)
  | inr quiet ↦ rw (quiet) refl
]
issued-not-invalid describe delay send item (err e, s) = refl

-- The checks of validation are those of the task: an item that was validated with the mapping of
-- its batch is called invalid by the task, in any state of the database, exactly if validation
-- called it invalid, and then with the same errors.
pub process_item-validate_item :
    (describe : Error → String) (delay : ℕ → Result (Unit {0})) (batch : IssuanceBatch)
    (drawn : IssuanceItem → Drawn) (item : IssuanceItem) (s : State)
    → let checked = validate_item batch.column_mapping item in
      let done = (process_item describe delay batch drawn checked s).item in
      (is_status_invalid done.status ≡ is_status_invalid checked.status)
      × ((if is_status_invalid done.status then done.errors else []) ≡ checked.errors)
unfolding validate_item process_item checked_item
process_item-validate_item describe delay batch drawn item s =
    let mapped = apply_mapping item.payload batch.column_mapping in
    cases (validate_mapped_row mapped item.row_number)
      (order_of batch (drawn (validate_item batch.column_mapping item)) mapped)
  where
    cases :
        (errors : List String) (order : Order)
        → let checked = record item { errors = errors; status = status_of errors } in
          let done = (checked_item describe delay batch.send_email checked order errors s).item in
          (is_status_invalid done.status ≡ is_status_invalid checked.status)
          × ((if is_status_invalid done.status then done.errors else []) ≡ checked.errors)
    cases [] order =
        let fine =
          issued-not-invalid describe delay batch.send_email
            (record item { errors = []; status = ItemStatus.valid }) (issue_certificate order s) in
        (fine, rw (fine) refl)
    cases (e ∷ es) order = (refl, refl)
