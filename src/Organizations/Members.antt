-- ===== src/Organizations/Members.antt =====
-- `MembershipViewSet.perform_destroy` of organizations/views.py: how a member is removed. The entry
-- in the audit log, which comes after the deletion, is left out.
pub mod Update
use govahee.Prelude.{
  ℕ, ◌+◌, ◌-◌, ◌≤◌, ◌<◌, ◌≡◌, refl, ap, sym, ◌∙◌, ◌⊎◌, inl, inr, String, Bool, true, false, ◌&&◌,
  not, List, [], ◌∷◌, Option, none, some, arith, ◌==◌, ==_refl, leb, str_eq, str_eq_iff, count,
  keep, if◌then◌else◌, Bool-cases, any, find,
}
use govahee.Exec.{Exec, Result, ok, err, Error, validation}
use govahee.Organizations.Models.{OrganizationMembership}

-- an active owner of the organization
abbrev pub is_owner : ℕ → OrganizationMembership → Bool
is_owner org m = m.organization == org && (str_eq m.role "owner" && m.is_active)

-- `.count()` of the active owners
unfoldable pub owners : ℕ → List OrganizationMembership → ℕ
owners org rows = count (is_owner org) rows

-- `instance.delete()`
abbrev pub delete : ℕ → List OrganizationMembership → List OrganizationMembership
delete pk rows = keep (λ (m : OrganizationMembership). not (m.id == pk)) rows

-- `perform_destroy`
unfoldable pub perform_destroy :
    OrganizationMembership → Exec (List OrganizationMembership) (Unit {0})
perform_destroy m rows =
    if str_eq m.role "owner" && leb (owners m.organization rows) 1
    then (err (validation "The last owner cannot be removed."), rows)
    else (ok tt, delete m.id rows)

-- how many owners a row is
abbrev pub owner_count : ℕ → OrganizationMembership → ℕ
owner_count org m = if is_owner org m then 1 else 0

-- the rows with this primary key, which is unique
abbrev pub with_pk : ℕ → List OrganizationMembership → ℕ
with_pk pk rows = count (λ (m : OrganizationMembership). m.id == pk) rows

delete-absent :
    (pk org : ℕ) (rows : List OrganizationMembership)
    → with_pk pk rows ≡ 0
    → owners org (delete pk rows) ≡ owners org rows
unfolding owners
delete-absent pk org [] h = refl
delete-absent pk org (x ∷ xs) h = ground (arith, delete-absent pk org xs)

found_count : ℕ → Option OrganizationMembership → ℕ
found_count org none = 0
found_count org (some m) = owner_count org m

delete-owners :
    (pk org : ℕ) (rows : List OrganizationMembership) (m : OrganizationMembership)
    → find (λ (x : OrganizationMembership). x.id == pk) rows ≡ some m
    → with_pk pk rows ≡ 1
    → owners org (delete pk rows) + owner_count org m ≡ owners org rows
unfolding owners found_count
delete-owners pk org [] m h one = absurd (ground arith)
delete-owners pk org (x ∷ xs) m h one = elim (Bool-cases (x.id == pk)) [
  | inl here ↦
      let none_left : with_pk pk xs ≡ 0 = ground (arith, here) in
      let absent = delete-absent pk org xs none_left in
      let same = ap (found_count org) (rw (here) at h) in rw (here) (omega (arith, absent, same))
  | inr there ↦
      let ih = delete-owners pk org xs m (rw (there) at h) (ground (arith, there)) in
      rw (there) (omega (arith, ih))
]

-- Removing a member never takes the last active owner of the organization away: of an
-- organization that has an active owner, one is left after every removal that succeeds.
pub perform_destroy_keeps_owner :
    (m : OrganizationMembership) (rows rows' : List OrganizationMembership)
    → find (λ (x : OrganizationMembership). x.id == m.id) rows ≡ some m
    → with_pk m.id rows ≡ 1
    → 1 ≤ owners m.organization rows
    → perform_destroy m rows ≡ (ok tt, rows')
    → 1 ≤ owners m.organization rows'
unfolding perform_destroy
perform_destroy_keeps_owner m rows rows' stored unique some_owner h =
    elim (Bool-cases (str_eq m.role "owner" && leb (owners m.organization rows) 1)) [
      | inl last ↦ absurd (ground (arith, rw (last) at h))
      | inr free ↦
          let left = delete-owners m.id m.organization rows m stored unique in
          let same : delete m.id rows ≡ rows' =
            ap (λ (r : Result (Unit {0}) × List OrganizationMembership). r.1) (rw (free) at h) in
          rw (sym same) (ground (arith, left, free))
    ]
