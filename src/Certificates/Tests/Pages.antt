-- ===== src/Certificates/Tests/Pages.antt =====
-- Runs of the public page, of numbers and of variables, and their theorems at concrete inputs.
use govahee.Prelude.{
  ◌≡◌, ◌≢◌, inl, refl, String, true, [], ◌∷◌, none, some, is_some, arith, any, if◌then◌else◌,
}
use govahee.Prelude.Text.{get, ◌+++◌}
use govahee.Exec.{ok}
use govahee.Billing.Tests.Fixtures.{academy}
use govahee.Certificates.Models.{Certificate, Recipient, State, public_status, certificate_by_pk}
use govahee.Certificates.Numbering.{format_number, last_value, next_certificate_number}
use govahee.Certificates.Unique.{next_certificate_number_fresh}
use govahee.Certificates.Public.{
  Site, Visit, VerificationEvent, Page, page, counted, is_public_key, result_of, verify,
}
use govahee.Certificates.Public.Disclosure.{verify_discloses}
use govahee.Certificates.Bulk.{has_char}
use govahee.Certificates.Variables.{placeholder, substitute, replace, replace_from, starts_with}
use govahee.Certificates.Variables.Filled.{substitute_fills}
use govahee.Certificates.Tests.Fixtures.{state, nowruz}
use govahee.Certificates.Tests.Issuing.{made}

abbrev shown : Certificate
shown = record made { custom_fields = ("city", "Shiraz") ∷ ("national_id", "12") ∷ [] }

abbrev holder : Recipient
holder = record {
  id = made.recipient;
  organization = 7;
  email = "";
  full_name = "Ali Reza Karimi";
  first_name = "Ali";
  last_name = "Reza Karimi";
  phone = "";
  external_id = "";
  metadata = [];
}

abbrev site : Site
site = record {
  certs = record state { certificates = shown ∷ []; recipients = holder ∷ [] };
  custom_fields = record { organization = 7; key = "city"; is_public = true } ∷ [];
  profiles = [];
  visits = [];
  site_url = "https://example.org/";
}

abbrev visit : Visit
visit = record { token = "token"; user_agent = "curl"; referer = "" }

verify_discloses_example :
    (p : Page) × (t : Site) × (verify visit site ≡ (ok (page p), t))
    × (p.status_ ≡ public_status shown nowruz)
    × (p.certificate_number ≡ shown.certificate_number)
    × ((k : String)
        → get k p.custom_fields ≡ (
            if any (is_public_key 7 k) site.custom_fields then get k shown.custom_fields else none))
    × (is_some p.extras ≡ true)
    × (certificate_by_pk shown.id t.certs.certificates ≡ some (counted shown))
    × ((e : VerificationEvent) × (t.visits ≡ e ∷ [])
        × (e.certificate ≡ some shown.id)
        × (e.result ≡ result_of (some shown) nowruz))
verify_discloses_example = verify_discloses visit site shown academy holder refl refl refl refl

next_certificate_number_fresh_example :
    (number : String) × (s' : State) × (next_certificate_number academy nowruz state
      ≡ (ok number, s'))
    × (number ≢ format_number "GOV-" 2026 41)
unfolding last_value
next_certificate_number_fresh_example =
    next_certificate_number_fresh academy nowruz state "GOV-" 2026 41 (inl (refl, omega arith))

substitute_fills_example :
    (substitute ("Dear " +++ (placeholder "name" +++ "!")) (("name", "Ali") ∷ [])
      ≡ "Dear " +++ ("Ali" +++ substitute "!" (("name", "Ali") ∷ [])))
    × (substitute "Dear " (("name", "Ali") ∷ []) ≡ "Dear ")
unfolding has_char
substitute_fills_example = substitute_fills "name" "Ali" "Dear " "!" refl

-- A value that holds a placeholder of a later variable is substituted again.
substituted_twice : substitute "{{a}}" (("a", "{{b}}") ∷ ("b", "B") ∷ []) ≡ "B"
unfolding substitute replace replace_from starts_with
substituted_twice = refl
