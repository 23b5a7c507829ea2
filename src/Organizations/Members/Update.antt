-- ===== src/Organizations/Members/Update.antt =====
-- The update of a membership by organizations/views.py and `MembershipSerializer` of
-- organizations/serializers.py, which lets the role and the active flag be written.
use govahee.Prelude.{◌≡◌, String, Bool, true, List, some, arith, ◌==◌, update, find}
use govahee.Prelude.Counts.{count-update}
use govahee.Exec.{Exec, ok, err, validation}
use govahee.Organizations.Models.{OrganizationMembership}
use govahee.Organizations.Members.{is_owner, owners, owner_count, with_pk, perform_destroy}

-- `serializer.save()` with a role and a flag among the choices of their columns
unfoldable pub write_member : String → Bool → OrganizationMembership → OrganizationMembership
write_member role is_active m = record m { role = role; is_active = is_active }

unfoldable pub update_member :
    OrganizationMembership → String → Bool → Exec (List OrganizationMembership) (Unit {0})
update_member m role is_active rows = (
  ok tt,
  update (λ (x : OrganizationMembership). x.id == m.id) (write_member role is_active) rows,
)

-- An update takes the last active owner away, which a removal of the same member refuses: given
-- the role viewer, the only active owner of an organization leaves it with none.
pub update_member_last_owner :
    (m : OrganizationMembership) (rows : List OrganizationMembership)
    → find (λ (x : OrganizationMembership). x.id == m.id) rows ≡ some m
    → with_pk m.id rows ≡ 1
    → is_owner m.organization m ≡ true
    → owners m.organization rows ≡ 1
    → (owners m.organization (update_member m "viewer" true rows).1 ≡ 0)
      × ((perform_destroy m rows).0 ≡ err (validation "The last owner cannot be removed."))
unfolding update_member perform_destroy write_member owners
update_member_last_owner m rows stored unique owner one =
    let moved =
      count-update (λ (x : OrganizationMembership). x.id == m.id) (is_owner m.organization)
        (write_member "viewer" true) rows m stored (omega (arith, unique)) in
    let before : owner_count m.organization m ≡ 1 = ground (arith, owner) in
    let after : owner_count m.organization (write_member "viewer" true m) ≡ 0 = ground arith in
    (omega (arith, moved, before, after, one), ground (arith, owner, one))
