-- ===== src/Certificates/Tests/Fixtures.antt =====
-- An order and a database for the runs of the certificates app.
use govahee.Prelude.{[], ◌∷◌, none, some}
use govahee.Billing.Tests.Fixtures.{academy, used}
use govahee.Prelude.Int.{pos}
use govahee.Certificates.Dates.Iso.{missing}
use govahee.Certificates.Dates.{Date}
use govahee.Certificates.Models.{State}
use govahee.Certificates.Orders.{Order}

abbrev pub nowruz : Date
nowruz = record { year = 2026; month = 3; day = 21 }

abbrev pub leap_day : Date
leap_day = record { year = 2024; month = 2; day = 29 }

abbrev pub order : Order
order = record {
  organization = academy;
  actor = record { pk = some 4; label = "Sara" };
  recipient_data = record {
    email = " Ali@Example.org";
    full_name = "Ali Reza Karimi ";
    first_name = "";
    last_name = "";
    phone = "";
    external_id = "";
    metadata = [];
  };
  fields = record {
    title = "";
    course_name = "Algebra";
    course_code = "";
    duration = "";
    score = "";
    grade = "";
    instructor_name = "";
    issuer_name = "";
    issuer_title = "";
    description = "";
    skills = [];
    custom_fields = [];
    issue_date = missing;
    expiry_mode = "years";
    expiry_value = some (pos 1);
    expiry_date = missing;
  };
  template = record { id = 5; name = "Completion"; current_version = some 9 };
  certificate_type = none;
  batch = none;
  idempotency_key = "k-1";
  token = "token";
  uuid = "uuid";
  digest = λ payload. "digest";
}

abbrev pub state : State
state = record {
  billing = used;
  today = nowruz;
  sequences = record { organization = 7; year = 2026; last_value = 41 } ∷ [];
  recipients = [];
  certificates = [];
  events = [];
  outbox = [];
}
