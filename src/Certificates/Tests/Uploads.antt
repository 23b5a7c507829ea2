-- ===== src/Certificates/Tests/Uploads.antt =====
-- Runs of uploads and of the steps of bulk issuance, and their theorems at concrete inputs.
use govahee.Prelude.{◌≤◌, ◌≡◌, refl, false, [], ◌∷◌, List, some, length, if◌then◌else◌}
use govahee.Prelude.Text.{strip, lower}
use govahee.Exec.{ok, err, value_error}
use govahee.Billing.Tests.Fixtures.{academy, used}
use govahee.Certificates.Batch.{process_item}
use govahee.Certificates.Uploads.{
  Upload, UploadRow, max_rows, ends_with, csv_rows, csv_dict, clean, parse_csv, parse_tabular,
}
use govahee.Certificates.Uploads.Limit.{IsNumbered, parse_tabular_limit}
use govahee.Certificates.BulkIssue.{Desk, Request, validate_item, is_status_invalid, post}
use govahee.Certificates.BulkIssue.Rows.{IsSound}
use govahee.Certificates.BulkIssue.Reports.{process_item-validate_item}
use govahee.Certificates.BulkIssue.Steps.{posts, next, here, Reach-IsSound}
use govahee.Certificates.Tests.Fixtures.{order, state}
use govahee.Certificates.Tests.Batches.{unnamed, uploaded, drawn, describe, no_broker}
use govahee.Certificates.Tests.Templates.{completion}

abbrev people : Upload
people = record {
  size = 40;
  name = "People.CSV";
  csv = (" Name" ∷ "email" ∷ []) ∷ ("Ali " ∷ []) ∷ [] ∷ ("Sara" ∷ "s@example.org" ∷ []) ∷ [];
  workbook = err value_error;
}

abbrev people_rows : List UploadRow
people_rows =
    record { row_number = 2; data_ = ("Name", "Ali") ∷ ("email", "") ∷ [] }
    ∷ record { row_number = 3; data_ = ("Name", "Sara") ∷ ("email", "s@example.org") ∷ [] }
    ∷ []

-- Missing cells are empty, cells are stripped, and the empty row has no number.
people_read : parse_tabular people ≡ ok ("Name" ∷ "email" ∷ [], people_rows)
unfolding parse_tabular ends_with parse_csv csv_rows csv_dict clean strip lower
people_read = refl

parse_tabular_limit_example : (length people_rows ≤ max_rows) × IsNumbered 2 people_rows
parse_tabular_limit_example =
    parse_tabular_limit people ("Name" ∷ "email" ∷ []) people_rows people_read

process_item-validate_item_example :
    let checked = validate_item uploaded.column_mapping unnamed in
    let done = (process_item describe no_broker uploaded drawn checked state).item in
    (is_status_invalid done.status ≡ is_status_invalid checked.status)
    × ((if is_status_invalid done.status then done.errors else []) ≡ checked.errors)
process_item-validate_item_example =
    process_item-validate_item describe no_broker uploaded drawn unnamed state

abbrev desk : Desk
desk = record { billing = used; templates = completion ∷ []; batches = []; items = []; queue = [] }

abbrev request : Request
request = record {
  organization = academy;
  user = order.actor;
  step = "";
  file = some people;
  template_id = 5;
  batch_id = 1;
  column_mapping = [];
  send_email = false;
}

abbrev after_upload : Desk
after_upload = (post 8 request desk).1

abbrev after_issue : Desk
after_issue = (post 8 (record request { step = "issue" }) after_upload).1

Reach-IsSound_example : IsSound after_issue
Reach-IsSound_example =
    Reach-IsSound {max_mb = 8} {s = desk} {t = after_issue} (tt, tt)
      (next (next here (posts request after_upload refl))
        (posts (record request { step = "issue" }) after_issue refl))
