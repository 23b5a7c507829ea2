-- ===== src/Certificates/Tests/Office.antt =====
-- Runs of the views of certificates, and their theorem at a concrete input.
use govahee.Prelude.{◌≡◌, List, [], ◌∷◌, none, some, arith}
use govahee.Certificates.Models.{Certificate}
use govahee.Certificates.Orders.{Actor}
use govahee.Certificates.Api.{Office, revoke, download, bulk_actions}
use govahee.Certificates.Api.Rows.{IsKeyed, others}
use govahee.Certificates.Api.Tenants.{views_isolated}
use govahee.Certificates.Tests.Fixtures.{state}
use govahee.Certificates.Tests.Issuing.{made}

-- a certificate of another organization
abbrev foreign_ : Certificate
foreign_ = record made { id = 2; organization = 8 }

abbrev rows : List Certificate
rows = made ∷ foreign_ ∷ []

abbrev office : Office
office = record {
  certs = record state { certificates = rows };
  templates = [];
  types = [];
  mailed = [];
}

abbrev actor : Actor
actor = record { pk = some 4; label = "Sara" }

rows-IsKeyed : IsKeyed rows
rows-IsKeyed k = ground arith

views_isolated_example :
    let revoked = (revoke 7 actor 1 "" office).1.certs.certificates in
    let loaded = (download 7 none 1 office).1.certs.certificates in
    let acted = (bulk_actions 7 actor (1 ∷ 2 ∷ []) "revoke" office).1.certs.certificates in
    ((others 7 revoked ≡ others 7 rows) × IsKeyed revoked)
    × ((others 7 loaded ≡ others 7 rows) × IsKeyed loaded)
    × ((others 7 acted ≡ others 7 rows) × IsKeyed acted)
views_isolated_example = views_isolated 7 actor none 1 (1 ∷ 2 ∷ []) "revoke" "" office rows-IsKeyed
