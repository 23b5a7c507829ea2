-- ===== src/Access/Rbac.antt =====
-- organizations/rbac.py: the map from a role to its permissions. A role and a permission are
-- texts, as in the source; a role that is no key of the map is granted the empty set.
use govahee.Prelude.{String, Bool, true, List, [], ◌∷◌, if◌then◌else◌}
use govahee.Prelude.Text.{member, get_set}

abbrev pub wildcard : String
wildcard = "*"

abbrev pub all_permissions : List String
all_permissions =
    "certificates.read" ∷ "certificates.write" ∷ "certificates.issue" ∷ "certificates.revoke"
    ∷ "certificates.export" ∷ "templates.read" ∷ "templates.write" ∷ "recipients.read"
    ∷ "recipients.write" ∷ "team.read" ∷ "team.write" ∷ "settings.read" ∷ "settings.write"
    ∷ "analytics.read" ∷ "billing.read" ∷ "billing.write" ∷ "api.manage" ∷ "webhooks.read"
    ∷ "webhooks.manage" ∷ []

abbrev pub issuer : List String
issuer =
    "certificates.read" ∷ "certificates.write" ∷ "certificates.issue" ∷ "certificates.revoke"
    ∷ "certificates.export" ∷ "templates.read" ∷ "recipients.read" ∷ "recipients.write"
    ∷ "analytics.read" ∷ "settings.read" ∷ []

abbrev pub designer : List String
designer = "templates.read" ∷ "templates.write" ∷ "certificates.read" ∷ "settings.read" ∷ []

abbrev pub viewer : List String
viewer =
    "certificates.read" ∷ "templates.read" ∷ "recipients.read" ∷ "analytics.read" ∷ "settings.read"
    ∷ "team.read" ∷ "billing.read" ∷ []

abbrev pub role_permissions : List (String × List String)
role_permissions =
    ("owner", wildcard ∷ [])
    ∷ ("admin", all_permissions)
    ∷ ("issuer", issuer)
    ∷ ("designer", designer)
    ∷ ("viewer", viewer)
    ∷ []

-- `role_permissions.get(role, set())`
unfoldable pub granted : String → List String
granted role = get_set role role_permissions

unfoldable pub role_has_permission : String → String → Bool
unfolding granted
role_has_permission role permission =
    if member wildcard (granted role) then true else member permission (granted role)
