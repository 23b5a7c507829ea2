-- ===== src/Certificates/BulkIssue.antt =====
-- `BulkIssueView` of certificates/views.py, with `validate_batch_items` of certificates/bulk.py:
-- a table is uploaded, validated and issued, each step a request of its own. The tables of batches
-- and items are in the order of creation; the limit of megabytes is a setting.
pub mod Rows
pub mod Steps
pub mod Reports
use govahee.Prelude.{
  first, ℕ, ◌+◌, ◌-◌, ◌*◌, String, Bool, true, false, ◌&&◌, not, List, [], ◌∷◌, ◌++◌, Option, none,
  some, ◌==◌, ltb, str_eq, length, count, find, keep, update, map, truthy, or_else, if◌then◌else◌,
}
use govahee.Prelude.Text.{prefix}
use govahee.Exec.{Error, Exec, Result, ok, err, does_not_exist, ◌>>=◌, ◌>>◌}
use govahee.Billing.Models.{Payload}
use govahee.Billing.State.{Db, next_pk}
use govahee.Billing.Entitlements.{assert_feature}
use govahee.Organizations.Models.{Organization}
use govahee.Certificates.Orders.{Actor, Template}
use govahee.Certificates.Templates.{CertificateTemplate, is_template}
use govahee.Certificates.Bulk.{apply_mapping, validate_mapped_row}
use govahee.Certificates.Uploads.{Upload, UploadRow, Table, parse_tabular, suggested_mapping}
use govahee.Certificates.Batch.{IssuanceItem, IssuanceBatch, ItemStatus, BatchStatus}

-- the tables, and the batches that `process_issuance_batch.delay` was called for
pub record Desk : Type 0 where
  pub billing : Db
  pub templates : List CertificateTemplate
  pub batches : List IssuanceBatch
  pub items : List IssuanceItem
  pub queue : List ℕ

-- what the response of a step holds
pub data Reply : Type 0 where
  -- a detail, with status 400
  refused : String → Reply
  uploaded : IssuanceBatch → List String → List UploadRow → Reply
  -- the report, the preview, and the counts of valid and invalid items
  validated : IssuanceBatch → List (ℕ × List String) → List (IssuanceItem × Payload) → ℕ → ℕ → Reply
  queued : IssuanceBatch → Reply

-- `database_user_or_none(request.user)`
abbrev pub user_or_none : Actor → Actor
user_or_none actor = elim actor.pk [ none ↦ record { pk = none; label = "" } | some n ↦ actor ]

abbrev pub template_of : CertificateTemplate → Template
template_of t = record { id = t.id; name = t.name; current_version = t.current_version }

-- `IssuanceBatch.objects.create(...)`
unfoldable pub new_batch :
    Organization → Actor → CertificateTemplate → String → Table → ℕ → IssuanceBatch
new_batch org actor t name table pk = record {
  id = pk;
  organization = org;
  created_by = user_or_none actor;
  template = template_of t;
  certificate_type = none;
  source_filename = prefix 200 name;
  column_mapping = suggested_mapping table.0;
  total_rows = length table.1;
  send_email = false;
  status = BatchStatus.draft;
  processed_rows = 0;
  success_count = 0;
  error_count = 0;
  error_report = [];
  started_at = none;
  finished_at = none;
}

-- `IssuanceItem.objects.bulk_create(...)`, with keys from `pk` on
unfoldable pub new_items : ℕ → ℕ → List UploadRow → List IssuanceItem
new_items batch pk [] = []
new_items batch pk (row ∷ rows) =
    record {
      id = pk;
      batch = batch;
      row_number = row.row_number;
      payload = row.data_;
      errors = [];
      status = ItemStatus.pending;
      certificate = none;
    }
    ∷ new_items batch (pk + 1) rows

-- the two inserts
unfoldable pub store_upload :
    Organization → Actor → CertificateTemplate → String → Table → Exec Desk Reply
store_upload org actor t name table s =
    let pk = next_pk (map (λ (b : IssuanceBatch). b.id) s.batches) in
    let b = new_batch org actor t name table pk in
    let items = new_items pk (next_pk (map (λ (i : IssuanceItem). i.id) s.items)) table.1 in
    (
      ok (uploaded b table.0 (first 20 table.1)),
      record s { batches = s.batches ++ b ∷ []; items = s.items ++ items },
    )

-- a parsed table, or what `parse_tabular` raised
unfoldable pub store_parsed :
    Organization → Actor → CertificateTemplate → String → Result Table → Exec Desk Reply
store_parsed org actor t name (ok table) s = store_upload org actor t name table s
store_parsed org actor t name (err e) s = (err e, s)

unfoldable pub upload_with :
    Organization → Actor → Upload → Option CertificateTemplate → Exec Desk Reply
upload_with org actor file none s = (err does_not_exist, s)
upload_with org actor file (some t) s = store_parsed org actor t file.name (parse_tabular file) s

-- once there is a file, which is one with a name
unfoldable pub upload_file : ℕ → Organization → Actor → Upload → ℕ → Exec Desk Reply
upload_file max_mb org actor file template s =
    if not (truthy file.name)
    then (ok (refused "Choose a file."), s)
    else if ltb (max_mb * 1024 * 1024) file.size
    then (ok (refused "The file is larger than allowed."), s)
    else upload_with org actor file (find (is_template org.id template) s.templates) s

-- `_upload`
unfoldable pub upload : ℕ → Organization → Actor → Option Upload → ℕ → Exec Desk Reply
upload max_mb org actor none template s = (ok (refused "Choose a file."), s)
upload max_mb org actor (some file) template s = upload_file max_mb org actor file template s

-- `request.data.get("column_mapping") or batch.column_mapping`
abbrev pub mapping_or : Payload → Payload → Payload
mapping_or [] old = old
mapping_or (c ∷ cs) old = c ∷ cs

abbrev pub status_of : List String → ItemStatus
status_of [] = ItemStatus.valid
status_of (e ∷ es) = ItemStatus.invalid

-- the body of the loop of `validate_batch_items`
unfoldable pub validate_item : Payload → IssuanceItem → IssuanceItem
validate_item mapping item =
    let errors = validate_mapped_row (apply_mapping item.payload mapping) item.row_number in
    record item { errors = errors; status = status_of errors }

abbrev pub has_errors : IssuanceItem → Bool
has_errors item = elim item.errors [ [] ↦ false | e ∷ es ↦ true ]

abbrev pub reported : IssuanceItem → ℕ × List String
reported item = (item.row_number, item.errors)

-- `validate_batch_items`: the items, which it changes, and the report
unfoldable pub validate_batch_items :
    Payload → List IssuanceItem → List IssuanceItem × List (ℕ × List String)
validate_batch_items mapping items =
    let checked = map (validate_item mapping) items in
    (checked, map reported (keep has_errors checked))

-- the items of a batch
abbrev pub of_batch : ℕ → IssuanceItem → Bool
of_batch batch item = item.batch == batch

-- a batch of the organization
abbrev pub is_batch : ℕ → ℕ → IssuanceBatch → Bool
is_batch org pk b = b.organization.id == org && b.id == pk

abbrev pub by_pk : ℕ → IssuanceBatch → Bool
by_pk pk b = b.id == pk

abbrev pub is_status_valid : ItemStatus → Bool
is_status_valid ItemStatus.valid = true
is_status_valid _ = false

abbrev pub is_status_invalid : ItemStatus → Bool
is_status_invalid ItemStatus.invalid = true
is_status_invalid _ = false

-- the columns that `_validate` saves
abbrev pub with_report : Payload → List (ℕ × List String) → IssuanceBatch → IssuanceBatch
with_report mapping report b = record b {
  column_mapping = mapping;
  error_report = report;
  status = BatchStatus.validating;
}

unfoldable pub validate_batch : Payload → IssuanceBatch → Exec Desk Reply
validate_batch given batch s =
    let mapping = mapping_or given batch.column_mapping in
    let checked = validate_batch_items mapping (keep (of_batch batch.id) s.items) in
    let items = checked.0 in
    (
      ok (
          validated (with_report mapping checked.1 batch) checked.1
            (map (λ (i : IssuanceItem). (i, apply_mapping i.payload mapping)) (first 20 items))
            (count (λ (i : IssuanceItem). is_status_valid i.status) items)
            (count (λ (i : IssuanceItem). is_status_invalid i.status) items)),
      record s {
        items = update (of_batch batch.id) (validate_item mapping) s.items;
        batches = update (by_pk batch.id) (with_report mapping checked.1) s.batches;
      },
    )

-- `.get(pk=...)` on the batches of the organization, and what follows
unfoldable pub with_batch : ℕ → ℕ → (IssuanceBatch → Exec Desk Reply) → Exec Desk Reply
with_batch org pk step s = elim (find (is_batch org pk) s.batches) [
  | none ↦ (err does_not_exist, s)
  | some b ↦ step b s
]

-- `_validate`
unfoldable pub validate : Organization → ℕ → Payload → Exec Desk Reply
validate org pk given = with_batch org.id pk (validate_batch given)

-- the columns that `_issue` sets before `batch.save()`, on the object that it has just read
abbrev pub with_start : Payload → Bool → ℕ → IssuanceBatch → IssuanceBatch
with_start mapping send now b = record b {
  column_mapping = mapping;
  send_email = send;
  status = BatchStatus.processing;
  started_at = some now;
}

unfoldable pub issue_batch : Payload → Bool → IssuanceBatch → Exec Desk Reply
issue_batch given send batch s =
    let start = with_start (mapping_or given batch.column_mapping) send s.billing.now in
    (
      ok (queued (start batch)),
      record s { batches = update (by_pk batch.id) start s.batches; queue = batch.id ∷ s.queue },
    )

-- `_issue`
unfoldable pub issue : Organization → ℕ → Payload → Bool → Exec Desk Reply
issue org pk given send = with_batch org.id pk (issue_batch given send)

-- `request.data`: the fields that the steps read
pub record Request : Type 0 where
  pub organization : Organization
  pub user : Actor
  pub step : String
  pub file : Option Upload
  pub template_id : ℕ
  pub batch_id : ℕ
  pub column_mapping : Payload
  pub send_email : Bool

unfoldable pub dispatch_step : ℕ → Request → String → Exec Desk Reply
dispatch_step max_mb r step s =
    if str_eq step "upload"
    then upload max_mb r.organization r.user r.file r.template_id s
    else if str_eq step "validate"
    then validate r.organization r.batch_id r.column_mapping s
    else if str_eq step "issue"
    then issue r.organization r.batch_id r.column_mapping r.send_email s
    else (ok (refused "The step is not valid."), s)

-- `assert_feature`, on the part of the database that billing reads
abbrev pub check_feature : ℕ → Exec Desk (Unit {0})
check_feature org s =
    let r = assert_feature org "bulk_issuance" "The current plan has no bulk issuance." s.billing in
    (r.0, record s { billing = r.1 })

-- `BulkIssueView.post`
unfoldable pub post : ℕ → Request → Exec Desk Reply
post max_mb r = check_feature r.organization.id >> dispatch_step max_mb r (or_else r.step "upload")
