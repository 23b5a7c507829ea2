-- ===== src/Certificates/BulkIssue/Steps.antt =====
-- The requests of `BulkIssueView` (certificates/views.py) as steps, and what every sequence of them
-- keeps: no item is lost, and none comes to a batch that was there before.
use govahee.Prelude.{
  ℕ, ◌≡◌, refl, inl, inr, String, Bool, true, false, not, Option, none, some, ltb, str_eq, truthy,
  or_else, ◌*◌, find, update, map, Bool-cases, Option-cases, if◌then◌else◌,
}
use govahee.Exec.{Exec, Result, ok, err, continue}
use govahee.Billing.Models.{Payload}
use govahee.Billing.State.{next_pk}
use govahee.Organizations.Models.{Organization}
use govahee.Certificates.Orders.{Actor}
use govahee.Certificates.Templates.{CertificateTemplate, is_template}
use govahee.Certificates.Uploads.{Upload, Table, parse_tabular}
use govahee.Certificates.Batch.{IssuanceItem, IssuanceBatch}
use govahee.Certificates.BulkIssue.Rows.{
  key, IsSound, IsCounted-batches, IsCounted-upload, Counts-items, Below-items,
}
use govahee.Certificates.BulkIssue.{
  Desk, Request, Reply, refused, new_batch, store_upload, store_parsed, upload_with, upload_file,
  upload, validate_item, of_batch, by_pk, with_report, validate_batch, with_batch, validate,
  with_start, issue_batch, issue, dispatch_step, check_feature, post, is_batch, mapping_or,
}

-- A request, and any number of them.
pub data Step (max_mb : ℕ) (s : Desk) : Desk → Type 0 where
  posts : (r : Request) (t : Desk) → t ≡ (post max_mb r s).1 → Step max_mb s t

pub data Reach (max_mb : ℕ) (s : Desk) : Desk → Type 0 where
  here : Reach max_mb s s
  next : {t u : Desk} → Reach max_mb s t → Step max_mb t u → Reach max_mb s u

module _ (s : Desk) (sound : IsSound s) where
  store_upload-IsSound :
      (org : Organization) (actor : Actor) (t : CertificateTemplate) (name : String) (table : Table)
      → IsSound (store_upload org actor t name table s).1
  unfolding store_upload new_batch
  store_upload-IsSound org actor t name table =
      let pk = next_pk (map key s.batches) in
      IsCounted-upload (new_batch org actor t name table pk)
        (next_pk (map (λ (i : IssuanceItem). i.id) s.items)) table.1 s.batches s.items refl refl
        sound

  store_parsed-IsSound :
      (org : Organization) (actor : Actor) (t : CertificateTemplate) (name : String)
      (r : Result Table)
      → IsSound (store_parsed org actor t name r s).1
  unfolding store_parsed
  store_parsed-IsSound org actor t name (ok table) = store_upload-IsSound org actor t name table
  store_parsed-IsSound org actor t name (err e) = sound

  upload_with-IsSound :
      (org : Organization) (actor : Actor) (file : Upload) (t : Option CertificateTemplate)
      → IsSound (upload_with org actor file t s).1
  unfolding upload_with
  upload_with-IsSound org actor file none = sound
  upload_with-IsSound org actor file (some t) =
      store_parsed-IsSound org actor t file.name (parse_tabular file)

  upload-IsSound :
      (max_mb : ℕ) (org : Organization) (actor : Actor) (file : Option Upload) (template : ℕ)
      → IsSound (upload max_mb org actor file template s).1
  unfolding upload upload_file
  upload-IsSound max_mb org actor none template = sound
  upload-IsSound max_mb org actor (some file) template =
      elim (Bool-cases (not (truthy file.name))) [
        | inl unnamed ↦ rw (unnamed) sound
        | inr named ↦ elim (Bool-cases (ltb (max_mb * 1024 * 1024) file.size)) [
          | inl large ↦ rw (named, large) sound
          | inr small ↦
              rw (named, small)
                (upload_with-IsSound org actor file
                  (find (is_template org.id template) s.templates))
        ]
      ]

  validate_batch-IsSound :
      (given : Payload) (b : IssuanceBatch) → IsSound (validate_batch given b s).1
  unfolding validate_batch validate_item
  validate_batch-IsSound given b =
      let mapping = mapping_or given b.column_mapping in
      let items = update (of_batch b.id) (validate_item mapping) s.items in
      IsCounted-batches (by_pk b.id) (with_report mapping _) s.batches items (λ c. (refl, refl))
        (
          Counts-items (of_batch b.id) (validate_item mapping) s.items s.batches (λ i. refl)
              sound.0,
          Below-items (next_pk (map key s.batches)) (of_batch b.id) (validate_item mapping) s.items
              (λ i. refl) sound.1,
        )

  issue_batch-IsSound :
      (given : Payload) (send : Bool) (b : IssuanceBatch) → IsSound (issue_batch given send b s).1
  unfolding issue_batch
  issue_batch-IsSound given send b =
      IsCounted-batches (by_pk b.id)
        (with_start (mapping_or given b.column_mapping) send s.billing.now) s.batches s.items
        (λ c. (refl, refl)) sound

  with_batch-IsSound :
      (org pk : ℕ) (step : IssuanceBatch → Exec Desk Reply)
      → ((b : IssuanceBatch) → IsSound (step b s).1)
      → IsSound (with_batch org pk step s).1
  unfolding with_batch
  with_batch-IsSound org pk step each = elim (Option-cases (find (is_batch org pk) s.batches)) [
    | inl absent ↦ rw (absent, with_batch) sound
    | inr (b, found) ↦ rw (found, with_batch) (each b)
  ]

  dispatch_step-IsSound :
      (max_mb : ℕ) (r : Request) (step : String) → IsSound (dispatch_step max_mb r step s).1
  unfolding dispatch_step validate issue
  dispatch_step-IsSound max_mb r step =
      if_sound (str_eq step "upload") (upload max_mb r.organization r.user r.file r.template_id s)
        (if str_eq step "validate"
          then validated_
          else if str_eq step "issue"
          then issued_
          else other)
        (upload-IsSound max_mb r.organization r.user r.file r.template_id)
        (if_sound (str_eq step "validate") validated_
          (if str_eq step "issue" then issued_ else other)
          (with_batch-IsSound r.organization.id r.batch_id (validate_batch r.column_mapping)
            (validate_batch-IsSound r.column_mapping))
          (if_sound (str_eq step "issue") issued_ other
            (with_batch-IsSound r.organization.id r.batch_id
              (issue_batch r.column_mapping r.send_email)
              (issue_batch-IsSound r.column_mapping r.send_email))
            sound))
    where
      Answer : Type 0
      Answer = Result Reply × Desk

      validated_ : Answer
      validated_ = validate r.organization r.batch_id r.column_mapping s

      issued_ : Answer
      issued_ = issue r.organization r.batch_id r.column_mapping r.send_email s

      other : Answer
      other = (ok (refused "The step is not valid."), s)

      if_sound :
          (test : Bool) (yes_ no_ : Answer)
          → IsSound yes_.1
          → IsSound no_.1
          → IsSound (if test then yes_ else no_).1
      if_sound true yes_ no_ h k = h
      if_sound false yes_ no_ h k = k

after_check :
    (max_mb : ℕ) (r : Request) (step : String) (c : Result (Unit {0}) × Desk)
    → IsSound c.1
    → IsSound (continue c (λ _. dispatch_step max_mb r step)).1
after_check max_mb r step (ok a, s) h = dispatch_step-IsSound s h max_mb r step
after_check max_mb r step (err e, s) h = h

Step-IsSound : {max_mb : ℕ} {s t : Desk} → Step max_mb s t → IsSound s → IsSound t
unfolding post
Step-IsSound {max_mb} {s} (posts r t e) h =
    rw (e) (after_check max_mb r (or_else r.step "upload") (check_feature r.organization.id s) h)

-- In every state that requests to the view reach from a sound one, whatever they ask for and
-- whether they succeed, are refused or raise, each batch has exactly as many items as its upload
-- had rows, and every item belongs to a batch whose key was given out before.
pub Reach-IsSound : {max_mb : ℕ} {s t : Desk} → IsSound s → Reach max_mb s t → IsSound t
Reach-IsSound h here = h
Reach-IsSound h (next r step) = Step-IsSound step (Reach-IsSound h r)
