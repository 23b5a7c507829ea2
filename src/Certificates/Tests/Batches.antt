-- ===== src/Certificates/Tests/Batches.antt =====
-- Runs of bulk issuance and exports, and their theorems at concrete inputs.
use govahee.Prelude.{
  ℕ, ◌+◌, ◌≤◌, String, ◌≡◌, ◌⊎◌, refl, ◌↔◌, true, false, [], ◌∷◌, none, length, if◌then◌else◌,
}
use govahee.Exec.{Error, Result, err, os_error}
use govahee.Prelude.Text.{prefix}
use govahee.Billing.Tests.Fixtures.{academy}
use govahee.Certificates.Bulk.{validate_mapped_row, slashes_to_dashes, has_char, sanitize_csv_cell}
use govahee.Certificates.Cells.{starts_trigger, sanitize_csv_cell_safe}
use govahee.Certificates.Dates.Iso.{iso_date}
use govahee.Certificates.Dates.{month_length, is_leap}
use govahee.Certificates.Tests.Fixtures.{order, state}
use govahee.Certificates.Batch.{
  IssuanceItem, ItemStatus, IssuanceBatch, BatchStatus, completed, Drawn, no_counters, count_item,
  mailed_item, process_issuance_batch,
}
use govahee.Certificates.Counts.{successes, failures, process_issuance_batch_counts}

abbrev pub row : IssuanceItem
row = record {
  id = 1;
  batch = 6;
  row_number = 2;
  payload = ("Name", "Ali Karimi") ∷ [];
  errors = [];
  status = ItemStatus.pending;
  certificate = none;
}

abbrev pub unnamed : IssuanceItem
unnamed = record row { id = 2; row_number = 3; payload = ("Name", " ") ∷ [] }

abbrev pub uploaded : IssuanceBatch
uploaded = record {
  id = 6;
  organization = academy;
  created_by = order.actor;
  template = order.template;
  certificate_type = none;
  source_filename = "people.csv";
  column_mapping = ("Name", "recipient_name") ∷ [];
  total_rows = 2;
  send_email = false;
  status = BatchStatus.processing;
  processed_rows = 0;
  success_count = 0;
  error_count = 0;
  error_report = [];
  started_at = none;
  finished_at = none;
}

abbrev pub drawn : IssuanceItem → Drawn
drawn item = record { token = "t"; uuid = "u"; digest = λ payload. "digest" }

abbrev pub describe : Error → String
describe e = "error"

-- a broker that queues no task
abbrev pub no_broker : ℕ → Result (Unit {0})
no_broker pk = err os_error

abbrev mailing : IssuanceBatch
mailing = record uploaded {
  send_email = true;
  column_mapping = ("Name", "recipient_name") ∷ ("Mail", "email") ∷ [];
}

abbrev addressed : IssuanceItem
addressed = record row { payload = ("Name", "Ali Karimi") ∷ ("Mail", "ali@uni.ir") ∷ [] }

process_issuance_batch_counts_example :
    let f =
      process_issuance_batch describe no_broker drawn mailing (addressed ∷ unnamed ∷ []) state in
    (length f.items ≡ length (addressed ∷ unnamed ∷ []))
    × (f.batch.processed_rows ≡ length f.items)
    × (length f.state.certificates ≡ length state.certificates + f.batch.success_count)
    × (f.batch.error_count ≡ failures f.items)
    × (successes f.items ≤ f.batch.success_count)
    × ((mailing.send_email ≡ true) ⊎ (f.batch.success_count ≡ successes f.items))
    × (length f.batch.error_report ≡ f.batch.error_count)
    × ((f.batch.status ≡ completed) ↔ (failures f.items ≡ 0))
process_issuance_batch_counts_example =
    process_issuance_batch_counts describe no_broker drawn mailing addressed (unnamed ∷ []) state

-- An item whose mail is refused counts as a success and as an error.
counted_twice :
    let refused = mailed_item describe no_broker row state 1 (no_broker 1) in
    count_item refused no_counters
    ≡ record { processed_rows = 1; success_count = 1; error_count = 1 }
unfolding mailed_item count_item
counted_twice = refl

sanitize_csv_cell_safe_example :
    (starts_trigger (sanitize_csv_cell "=1+1") ≡ false)
    × (sanitize_csv_cell "=1+1" ≡ (if starts_trigger "=1+1" then "'=1+1" else "=1+1"))
sanitize_csv_cell_safe_example = sanitize_csv_cell_safe "=1+1"

-- A date with slashes passes the check of a row, and issuing does not read it.
slashes :
    (validate_mapped_row (("name", "Ali") ∷ ("issue_date", "2024/03/20") ∷ []) 2 ≡ [])
    × (iso_date "2024/03/20" ≡ none)
unfolding validate_mapped_row slashes_to_dashes iso_date month_length is_leap has_char prefix
slashes = (refl, refl)
