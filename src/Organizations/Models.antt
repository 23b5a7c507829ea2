-- ===== src/Organizations/Models.antt =====
-- Models: `Organization`, `OrganizationMembership`, `ApiKey` of organizations/models.py, with
-- the columns that the code modelled here reads or writes. A foreign key is the row's number.
use govahee.Prelude.{ℕ, String, Bool, List, Option, ◌==◌, find}

pub record Organization : Type 0 where
  pub id : ℕ
  pub name : String
  pub slug : String
  pub contact_email : String
  pub description : String
  pub website : String
  pub certificate_number_prefix : String
  pub verification_status : String
  pub is_suspended : Bool
  pub issuance_enabled : Bool
  pub api_enabled : Bool
  pub verification_search_enabled : Bool
  pub public_issuer_page_enabled : Bool
  pub verification_indexable : Bool
  pub onboarding_completed_at : Option ℕ

pub record OrganizationMembership : Type 0 where
  pub id : ℕ
  pub organization : ℕ
  pub user : ℕ
  pub role : String
  pub is_active : Bool

pub record ApiKey : Type 0 where
  pub organization : Organization
  pub name : String
  pub permissions : List String

-- `Organization.objects.filter(pk=pk).first()`
abbrev pub org_by_pk : ℕ → List Organization → Option Organization
org_by_pk pk = find (λ o. o.id == pk)
