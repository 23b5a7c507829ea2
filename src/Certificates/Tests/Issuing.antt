-- ===== src/Certificates/Tests/Issuing.antt =====
-- Runs of issuing, revoking and numbering, of dates and of the public status.
use govahee.Prelude.{String, ◌≡◌, refl, inl, true, false, [], ◌∷◌, none, some, arith}
use govahee.Prelude.Text.{strip, lower, is_space, decimal, zero_padded}
use govahee.Billing.Tests.Fixtures.{academy}
use govahee.Exec.{err, Error, ok, overflow_error}
use govahee.Billing.Entitlements.{
  get_entitlements, subscription_entitlements, limit_of, current_usage, assert_can_issue,
  increment_usage,
}
use govahee.Prelude.Int.{ℤ, pos, negsuc, is_zero}
use govahee.Certificates.Dates.Iso.{iso_date}
use govahee.Certificates.Dates.{
  Date, is_leap, month_length, month_at, add_months, add_days, days_later, next_day, days_earlier,
  prev_day, expiry_by_value, compute_expiry_date,
}
use govahee.Certificates.Dates.Days.{IsDay}
use govahee.Certificates.Dates.Calendar.{Expiry, compute_expiry_date-Expiry}
use govahee.Certificates.Models.{
  EventKind, Certificate, Status, State, status, public_status, certificate_by_pk,
}
use govahee.Certificates.Numbering.{advance, advance_row, last_value, next_certificate_number}
use govahee.Certificates.Orders.{
  Order, Actor, store_recipient, split_name, expiry_of, expiry_by_mode, expiry_input, issue_date_of,
  new_certificate,
}
use govahee.Certificates.Issue.{
  log_certificate, add_event, dispatch, is_taken, insert, store_certificate, announce,
  issue_numbered, issue_dated, issue_version, issue_on, issue_open, issue_new, issue_unless,
  issue_steps, issue_certificate,
}
use govahee.Certificates.Issuing.{
  Allowed, Served, issue_certificate_sound, issue_certificate_refused, issue_certificate_idempotent,
}
use govahee.Certificates.Revoke.{revoke_certificate, revoke_certificate_final}
use govahee.Certificates.Tests.Fixtures.{nowruz, leap_day, order, state}

abbrev nameless : Order
nameless = record order { recipient_data = record order.recipient_data { full_name = " " } }

-- the certificate that the order makes
abbrev pub made : Certificate
made = record {
  id = 1;
  organization = 7;
  certificate_number = "CERT-2026-000042";
  verification_token = "token";
  status = Status.issued;
  certificate_type = none;
  template = 5;
  template_version = 9;
  recipient = 1;
  title = "Completion";
  course_name = "Algebra";
  course_code = "";
  duration = "";
  score = "";
  grade = "";
  instructor_name = "";
  issuer_name = "Academy";
  issuer_title = "";
  description = "";
  skills = [];
  custom_fields = [];
  issue_date = nowruz;
  expiry_mode = "years";
  expiry_value = some (pos 1);
  expiry_date = some (record { year = 2027; month = 3; day = 21 });
  issued_at = some 1000;
  revoked_at = none;
  revoke_reason = "";
  batch = none;
  integrity_hash = "digest";
  issued_by = some 4;
  idempotency_key = "k-1";
  download_count = 0;
  view_count = 0;
  verification_count = 0;
}

abbrev after : State
after = (issue_certificate order state).1

-- The second of two steps of a name is the family name, and the year's sequence goes on.
issued_run : issue_certificate order state ≡ (ok made, after)
unfolding issue_certificate issue_steps issue_unless issue_new assert_can_issue limit_of
    get_entitlements subscription_entitlements current_usage issue_open strip lower is_space
    store_recipient split_name issue_version issue_on issue_date_of expiry_of expiry_by_mode
    expiry_input compute_expiry_date expiry_by_value add_months month_at month_length is_leap
    issue_dated next_certificate_number advance advance_row last_value decimal zero_padded
    issue_numbered store_certificate new_certificate is_taken insert announce add_event
    increment_usage log_certificate dispatch
issued_run = refl

issue_certificate_sound_example : Allowed order × Served order state made after
issue_certificate_sound_example = issue_certificate_sound order state made after issued_run

issue_certificate_idempotent_example : issue_certificate nameless after ≡ (ok made, after)
unfolding Allowed
issue_certificate_idempotent_example =
    issue_certificate_idempotent order nameless state made after issued_run refl refl refl
      (refl, refl)

abbrev suspended_order : Order
suspended_order = record order { organization = record academy { is_suspended = true } }

suspended_order-Allowed : ¬ Allowed suspended_order
unfolding Allowed
suspended_order-Allowed allowed = let h = allowed.1 in cc

issue_certificate_refused_example :
    (e : Error) × (issue_certificate suspended_order state ≡ (err e, state))
issue_certificate_refused_example =
    issue_certificate_refused suspended_order state refl (inl suspended_order-Allowed)

abbrev one_made : State
one_made = record state { certificates = made ∷ [] }

revoke_certificate_final_example :
    (d : Certificate) × (t : State) × (revoke_certificate made order.actor "typo" one_made
      ≡ (ok d, t))
    × (d ≡ record made { status = Status.revoked; revoked_at = some 1000; revoke_reason = "typo" })
    × (certificate_by_pk 1 t.certificates ≡ some d)
    × (t.events
        ≡ record {
          certificate = 1;
          kind = EventKind.revoked;
          actor = some 4;
          metadata = ("reason", "typo") ∷ [];
        }
          ∷ one_made.events)
    × (t.billing.audit
        ≡ record {
          organization = some 7;
          actor = some 4;
          actor_label = "Sara";
          action = "certificate.revoked";
          entity = "certificate";
          entity_id = decimal 1;
          metadata = ("reason", "typo") ∷ [];
        }
          ∷ one_made.billing.audit)
    × (t.outbox
        ≡ record {
          organization = 7;
          event = "certificate.revoked";
          payload =
              ("id", decimal 1)
              ∷ ("certificate_number", made.certificate_number)
              ∷ ("reason", "typo")
              ∷ [];
        }
          ∷ one_made.outbox)
    × ((again : Actor) (other : String) → revoke_certificate d again other t ≡ (ok d, t))
    × ((today : Date) → public_status d today ≡ status Status.revoked)
revoke_certificate_final_example =
    revoke_certificate_final made order.actor "typo" one_made refl refl refl

leap_day-IsDay : IsDay leap_day
unfolding month_length is_leap
leap_day-IsDay = record {
  year = omega arith;
  month = (omega arith, omega arith);
  day = (omega arith, omega arith);
}

-- a year before a leap day is the last of February
compute_expiry_date-Expiry_example :
    (n : ℤ) × (some (negsuc 0) ≡ some n)
    × (is_zero n ≡ false)
    × Expiry n leap_day (record { year = 2023; month = 2; day = 28 })
unfolding compute_expiry_date expiry_by_value add_months month_at month_length is_leap
compute_expiry_date-Expiry_example =
    compute_expiry_date-Expiry leap_day "years" (some (negsuc 0))
      (record { year = 2023; month = 2; day = 28 }) leap_day-IsDay refl

-- thirty days from the last day of January of a leap year
thirty_days :
    add_days (record { year = 2024; month = 1; day = 31 }) (pos 30)
    ≡ ok (record { year = 2024; month = 3; day = 1 })
unfolding add_days days_later next_day month_length is_leap
thirty_days = refl

-- the first of January is a day after the last of December, and the calendar begins with the year 1
days_before :
    (add_days (record { year = 2024; month = 1; day = 1 }) (negsuc 0)
      ≡ ok (record { year = 2023; month = 12; day = 31 }))
    × (add_days (record { year = 1; month = 1; day = 2 }) (negsuc 1) ≡ err overflow_error)
unfolding add_days days_earlier prev_day month_length is_leap
days_before = (refl, refl)

-- A date is read with dashes or without; slashes are refused.
reads_dates :
    (iso_date "2024-02-29" ≡ some leap_day)
    × (iso_date "20240229" ≡ some leap_day)
    × (iso_date "2024/02/29" ≡ none)
    × (iso_date "2023-02-29" ≡ none)
unfolding iso_date month_length is_leap
reads_dates = (refl, refl, refl, refl)
