-- ===== src/Organizations/Invitations/Limits.antt =====
-- What `invite_member` of organizations/services.py leaves of the team of an organization.
use mathlib.Core.Path.{subst}
use govahee.Prelude.{
  ℕ, ◌+◌, ◌≤◌, ◌≡◌, refl, sym, ap, ◌∙◌, ◌⊎◌, inl, inr, String, true, false, List, none, some, arith,
  ◌==◌, ==_refl, str_eq, find, find_sound, count, Bool-cases, Option-cases,
}
use govahee.Prelude.Text.{lower, strip}
use govahee.Prelude.Counts.{count-update, count-find-none, count-update_keeps}
use govahee.Exec.{Result, ok, err, continue, ◌>>=◌}
use govahee.Organizations.Models.{Organization, OrganizationMembership}
use govahee.Organizations.Members.{is_owner, owners}
use govahee.Organizations.Invitations.{
  User, Team, Inviter, add_user, user_for, is_member, is_active_member, active_count, reactivated,
  new_membership, rejoin, join_new, membership_for, announce_invitation, is_full, team_limit,
  guard_limit, invite_allowed, invite_steps, invite_member,
}

-- The unique constraint on the members of an organization.
abbrev pub IsUnique : ℕ → List OrganizationMembership → Type 0
IsUnique org rows = (user : ℕ) → count (is_member org user) rows ≤ 1

-- A call that returns adds one active member with the role it was given, and no owner; one that
-- raises leaves the memberships as they were.
abbrev pub Joined :
    ℕ → String → List OrganizationMembership → Result OrganizationMembership × Team → Type 0
Joined org role rows (ok m, t) =
    (m.organization ≡ org)
    × (m.role ≡ role)
    × (m.is_active ≡ true)
    × (active_count org t.memberships ≡ active_count org rows + 1)
    × (owners org t.memberships ≡ owners org rows)
    × IsUnique org t.memberships
Joined org role rows (err e, t) = t.memberships ≡ rows

module _ (org : ℕ) (role : String) (plain : str_eq role "owner" ≡ false) where
  rejoin-Joined :
      (m : OrganizationMembership) (t : Team)
      → IsUnique org t.memberships
      → m.organization ≡ org
      → find (is_member m.organization m.user) t.memberships ≡ some m
      → Joined org role t.memberships (rejoin role m t)
  unfolding rejoin active_count owners
  rejoin-Joined m t unique mine found = elim (Bool-cases m.is_active) [
    | inl here ↦ rw here refl
    | inr gone ↦
        let same = is_member m.organization m.user in
        let one : count same t.memberships ≤ 1 =
          (let u = unique m.user in ground (arith, mine, u)) in
        let f = reactivated role in
        let active = count-update same (is_active_member org) f t.memberships m found one in
        let owner = count-update same (is_owner org) f t.memberships m found one in
        rw gone (
          mine,
          refl,
          refl,
          ground (arith, active, gone, mine, ==_refl org),
          ground (arith, owner, gone, plain),
          λ user.
              rw (count-update_keeps same (is_member org user) f t.memberships (λ x. refl))
                (unique user),
        )
  ]

  join_new-Joined :
      (user : ℕ) (t : Team)
      → IsUnique org t.memberships
      → find (is_member org user) t.memberships ≡ none
      → Joined org role t.memberships (join_new org user role t)
  unfolding join_new new_membership active_count owners
  join_new-Joined user t unique absent = (
    refl,
    refl,
    refl,
    ground (arith, ==_refl org),
    ground (arith, plain),
    λ other.
        let u = unique other in
        let fresh = count-find-none (is_member org user) t.memberships absent in
        elim (Bool-cases (user == other)) [
          | inl same ↦
              let e : user ≡ other = ground (arith, same) in rw (sym e) (ground (arith, fresh))
          | inr ne ↦ ground (arith, u, ne)
        ],
  )

  membership_for-Joined :
      (u : User) (t : Team)
      → IsUnique org t.memberships
      → Joined org role t.memberships (membership_for org role u t)
  unfolding membership_for
  membership_for-Joined u t unique = elim (Option-cases (find (is_member org u.id) t.memberships)) [
    | inl absent ↦ rw (absent, membership_for) (join_new-Joined u.id t unique absent)
    | inr (m, found) ↦
        let fits = find_sound (is_member org u.id) t.memberships {x = m} found in
        let mine : m.organization ≡ org = ground (arith, fits) in
        let theirs : m.user ≡ u.id = ground (arith, fits) in
        let same : find (is_member m.organization m.user) t.memberships ≡ some m =
          ap (λ o. find (is_member o m.user) t.memberships) mine
          ∙ ap (λ v. find (is_member org v) t.memberships) theirs
          ∙ found in
        rw (found, membership_for) (rejoin-Joined m t unique mine same)
  ]

-- a step that keeps the memberships
user_for_memberships :
    (email full_name : String) (t : Team)
    → (user_for email full_name t).1.memberships ≡ t.memberships
unfolding user_for add_user
user_for_memberships email full_name t = ground arith

announced :
    (org : Organization) (actor : Inviter) (email role : String)
    (rows : List OrganizationMembership) (r : Result OrganizationMembership × Team)
    → Joined org.id role rows r
    → Joined org.id role rows (continue r (announce_invitation org actor email role))
unfolding announce_invitation
announced org actor email role rows (ok m, t) h = h
announced org actor email role rows (err e, t) h = h

invite_found :
    (org : Organization) (actor : Inviter) (email role : String)
    (rows : List OrganizationMembership) (r : Result User × Team)
    → str_eq role "owner" ≡ false
    → IsUnique org.id rows
    → r.1.memberships ≡ rows
    → Joined org.id role rows
        (continue r λ u. membership_for org.id role u >>= announce_invitation org actor email role)
invite_found org actor email role rows (err e, t) plain unique same = same
invite_found org actor email role rows (ok u, t) plain unique same =
    let given = membership_for-Joined org.id role plain u t (rw same unique) in
    announced org actor email role rows (membership_for org.id role u t)
      (subst (λ rs. Joined org.id role rs (membership_for org.id role u t)) same given)

-- An invitation that returns found room.
abbrev pub HadRoom : ℕ → ℕ → Result OrganizationMembership → Type 0
HadRoom limit active (ok m) = (limit ≡ 0) ⊎ (active + 1 ≤ limit)
HadRoom limit active (err e) = Unit {0}

had_room :
    (limit active : ℕ) (r : Result OrganizationMembership)
    → is_full limit active ≡ false
    → HadRoom limit active r
had_room limit active (ok m) free = elim (Bool-cases (limit == 0)) [
  | inl unlimited ↦ inl (ground (arith, unlimited))
  | inr limited ↦ inr (ground (arith, limited, free))
]
had_room limit active (err e) free = tt

-- Inviting a member keeps the team within the limit of its plan: on every outcome the members of
-- the organization stay unique and no owner is added; an invitation that returns adds exactly one
-- active member, with the role asked for, and only to a team that is not full, so that the active
-- members stay within a limit other than 0; one that raises leaves the memberships as they were.
pub invite_member-Joined :
    (org : Organization) (actor : Inviter) (email role full_name : String) (t : Team)
    → IsUnique org.id t.memberships
    → Joined org.id role t.memberships (invite_member org actor email role full_name t)
      × HadRoom
          (team_limit org.id t.billing)
          (active_count org.id t.memberships)
          (invite_member org actor email role full_name t).0
unfolding invite_member invite_steps invite_allowed guard_limit
invite_member-Joined org actor email role full_name t unique =
    elim (Bool-cases (str_eq role "owner")) [
      | inl owner ↦ rw owner (refl, tt)
      | inr plain ↦
          let full = is_full (team_limit org.id t.billing) (active_count org.id t.memberships) in
          elim (Bool-cases full) [
            | inl stop ↦ rw (plain, stop) (refl, tt)
            | inr free ↦
                let address = lower (strip email) in
                rw (plain, free)
                  (
                    invite_found org actor address role t.memberships (user_for address full_name t)
                        plain unique (user_for_memberships address full_name t),
                    had_room (team_limit org.id t.billing) (active_count org.id t.memberships)
                        (invite_allowed org actor address role full_name t).0 free,
                  )
          ]
    ]
