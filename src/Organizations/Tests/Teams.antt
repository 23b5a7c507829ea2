-- ===== src/Organizations/Tests/Teams.antt =====
-- Runs of the code of slugs and invitations, and its theorems at concrete inputs.
use govahee.Prelude.{◌≡◌, refl, String, false, [], ◌∷◌, some, arith}
use govahee.Prelude.Text.{member, decimal}
use govahee.Billing.Tests.Fixtures.{academy, used}
use govahee.Organizations.Slugs.{unique_slug, next_free}
use govahee.Organizations.Slugs.Fresh.{IsCandidate, unique_slug_total}
use govahee.Organizations.Invitations.{Team, Inviter, active_count, team_limit, invite_member}
use govahee.Organizations.Invitations.Limits.{IsUnique, Joined, HadRoom, invite_member-Joined}
use govahee.Organizations.Tests.Fixtures.{founder}

unique_slug_total_example :
    (s : String) × (unique_slug (λ name. name) "academy" ("academy" ∷ "academy-2" ∷ []) ≡ some s)
    × (member s ("academy" ∷ "academy-2" ∷ []) ≡ false)
    × IsCandidate "academy" s
unique_slug_total_example =
    unique_slug_total (λ name. name) "academy" ("academy" ∷ "academy-2" ∷ [])

-- The third academy gets the number 3.
third_academy :
    unique_slug (λ name. name) "academy" ("academy" ∷ "academy-2" ∷ []) ≡ some "academy-3"
unfolding unique_slug next_free decimal
third_academy = refl

abbrev team : Team
team = record { billing = used; users = []; memberships = founder ∷ []; mails = [] }

abbrev inviter : Inviter
inviter = record { pk = some 3; label = "Sara" }

team-IsUnique : IsUnique 7 (founder ∷ [])
team-IsUnique user = ground arith

invite_member-Joined_example :
    Joined 7 "issuer"
      (founder ∷ [])
      (invite_member academy inviter " Ali@Example.org" "issuer" "" team)
    × HadRoom
        (team_limit 7 used)
        (active_count 7 (founder ∷ []))
        (invite_member academy inviter " Ali@Example.org" "issuer" "" team).0
invite_member-Joined_example =
    invite_member-Joined academy inviter " Ali@Example.org" "issuer" "" team team-IsUnique
