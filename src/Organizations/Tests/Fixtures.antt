-- ===== src/Organizations/Tests/Fixtures.antt =====
-- A member for the runs of the organizations app.
use govahee.Prelude.{true}
use govahee.Organizations.Models.{OrganizationMembership}

abbrev pub founder : OrganizationMembership
founder = record { id = 1; organization = 7; user = 3; role = "owner"; is_active = true }
