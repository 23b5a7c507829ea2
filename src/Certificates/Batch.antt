-- ===== src/Certificates/Batch.antt =====
-- `process_issuance_batch` of certificates/tasks.py. The text of an exception is `describe`.
pub mod Rows
use govahee.Prelude.{
  ℕ, ◌+◌, String, Bool, List, [], ◌∷◌, ◌++◌, Option, none, some, ◌==◌, if◌then◌else◌, map, keep,
  any, truthy, not, true, false, ◌&&◌,
}
use govahee.Prelude.Text.{member, decimal, ◌+++◌}
use govahee.Exec.{Error, Result, ok, err}
use govahee.Billing.Models.{Payload}
use govahee.Certificates.Models.{Certificate, Recipient, State}
use govahee.Certificates.Orders.{Order, Actor, Template, CertificateType}
use govahee.Certificates.Issue.{issue_certificate}
use govahee.Organizations.Models.{Organization}
use govahee.Certificates.Dates.Iso.{DateInput, missing, written}
use govahee.Certificates.Bulk.{value_at, recipient_name, apply_mapping, validate_mapped_row}
pub use govahee.Certificates.Batch.Rows.{
  ItemStatus, IssuanceItem, BatchStatus, completed, partial, IssuanceBatch, is_issued, Drawn,
}
unfoldable pub use govahee.Certificates.Batch.Rows.{order_of}

-- `index`, `success` and `errors` of the loop, which it saves in the batch after every item
pub record Counters : Type 0 where
  pub processed_rows : ℕ
  pub success_count : ℕ
  pub error_count : ℕ

abbrev pub no_counters : Counters
no_counters = record { processed_rows = 0; success_count = 0; error_count = 0 }

-- what a row leaves: the item, the database, what it adds to `success` and to `errors`, and the
-- certificates whose mail was queued
pub record Row : Type 0 where
  pub item : IssuanceItem
  pub state : State
  pub success : ℕ
  pub errors : ℕ
  pub mailed : List ℕ

unfoldable pub count_item : Row → Counters → Counters
count_item row n = record {
  processed_rows = n.processed_rows + 1;
  success_count = n.success_count + row.success;
  error_count = n.error_count + row.errors;
}

-- `cert.recipient.email`
abbrev pub has_email : Certificate → State → Bool
has_email c s = any (λ (r : Recipient). r.id == c.recipient && truthy r.email) s.recipients

-- `delay` is the call of `send_certificate_email.delay`, by the key of the certificate: it queues
-- the task or raises what the broker's client raises.
module _ (describe : Error → String) (delay : ℕ → Result (Unit {0})) where
  -- the `except` clause; an item that was issued keeps its certificate
  abbrev pub failed_item : IssuanceItem → Error → IssuanceItem
  failed_item item e = record item {
    status = ItemStatus.failed;
    errors = ("Row " +++ decimal item.row_number +++ ": " +++ describe e) ∷ [];
  }

  -- the mail of an item, which already counts as a success
  unfoldable pub mailed_item : IssuanceItem → State → ℕ → Result (Unit {0}) → Row
  mailed_item item s pk (ok u) = record {
    item = item;
    state = s;
    success = 1;
    errors = 0;
    mailed = pk ∷ [];
  }
  mailed_item item s pk (err e) = record {
    item = failed_item item e;
    state = s;
    success = 1;
    errors = 1;
    mailed = [];
  }

  -- the `try` statement
  unfoldable pub issued_item : Bool → IssuanceItem → Result Certificate × State → Row
  issued_item send item (ok c, s) =
      let done = record item { status = ItemStatus.issued; certificate = some c.id; errors = [] } in
      if send && has_email c s
      then mailed_item done s c.id (delay c.id)
      else record { item = done; state = s; success = 1; errors = 0; mailed = [] }
  issued_item send item (err e, s) = record {
    item = failed_item item e;
    state = s;
    success = 0;
    errors = 1;
    mailed = [];
  }

  unfoldable pub checked_item : Bool → IssuanceItem → Order → List String → State → Row
  checked_item send item order [] s = issued_item send item (issue_certificate order s)
  checked_item send item order (e ∷ es) s = record {
    item = record item { status = ItemStatus.invalid; errors = e ∷ es };
    state = s;
    success = 0;
    errors = 1;
    mailed = [];
  }

  module _ (batch : IssuanceBatch) (drawn : IssuanceItem → Drawn) where
    -- the body of the loop, for one item
    unfoldable pub process_item : IssuanceItem → State → Row
    process_item item s =
        let mapped = apply_mapping item.payload batch.column_mapping in
        checked_item batch.send_email item (order_of batch (drawn item) mapped)
          (validate_mapped_row mapped item.row_number) s

    -- the loop: the rows, the counters, and the database
    unfoldable pub process_items :
        List IssuanceItem → Counters → State → List Row × (Counters × State)
    process_items [] n s = ([], (n, s))
    process_items (item ∷ items) n s =
        let row = process_item item s in
        let rest = process_items items (count_item row n) row.state in (row ∷ rest.0, rest.1)

-- the items as they are saved
unfoldable pub items_of : List Row → List IssuanceItem
items_of rows = map (λ (r : Row). r.item) rows

-- the calls of `send_certificate_email.delay` that returned
unfoldable pub mails : List Row → List ℕ
mails [] = []
mails (r ∷ rows) = r.mailed ++ mails rows

-- `COMPLETED if errors == 0 else PARTIAL if success else FAILED`
unfoldable pub final_status : ℕ → ℕ → BatchStatus
final_status success errors =
    if errors == 0 then completed else if success == 0 then BatchStatus.failed else partial

-- `batch.error_report`: the items that were not issued
unfoldable pub error_report : List IssuanceItem → List (ℕ × List String)
error_report items =
    map (λ (i : IssuanceItem). (i.row_number, i.errors))
      (keep (λ (i : IssuanceItem). not (is_issued i.status)) items)

-- the counters in the columns of the batch, which an empty batch never saves
unfoldable pub save_counters : List IssuanceItem → Counters → IssuanceBatch → IssuanceBatch
save_counters [] n batch = batch
save_counters (_ ∷ _) n batch = record batch {
  processed_rows = n.processed_rows;
  success_count = n.success_count;
  error_count = n.error_count;
}

-- how the task ends; `zip` says whether `build_batch_zip.delay` was called
pub record Finished : Type 0 where
  pub batch : IssuanceBatch
  pub items : List IssuanceItem
  pub state : State
  pub mailed : List ℕ
  pub zip : Bool

-- `process_issuance_batch`
unfoldable pub process_issuance_batch :
    (Error → String)
    → (ℕ → Result (Unit {0}))
    → (IssuanceItem → Drawn)
    → IssuanceBatch
    → List IssuanceItem
    → State
    → Finished
process_issuance_batch describe delay drawn batch items s =
    let r = process_items describe delay batch drawn items no_counters s in
    let saved = save_counters items r.1.0 batch in
    record {
      batch = record saved {
        status = final_status r.1.0.success_count r.1.0.error_count;
        finished_at = some s.billing.now;
        error_report = error_report (items_of r.0);
      };
      items = items_of r.0;
      state = r.1.1;
      mailed = mails r.0;
      zip = not (r.1.0.success_count == 0);
    }
