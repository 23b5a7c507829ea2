-- ===== src/Access/Scopes.antt =====
-- organizations/api_scopes.py: the permissions that the scopes of an API key grant.
use govahee.Prelude.{String, Bool, List, [], ◌∷◌, ◌++◌}
use govahee.Prelude.Text.{member, get_set}

abbrev pub scope_grants : List (String × List String)
scope_grants =
    ("certificates:read", "certificates.read" ∷ [])
    ∷ (
      "certificates:write",
      "certificates.read" ∷ "certificates.write" ∷ "certificates.issue" ∷ "certificates.export"
          ∷ [],
    )
    ∷ ("certificates:revoke", "certificates.revoke" ∷ "certificates.read" ∷ [])
    ∷ ("templates:read", "templates.read" ∷ [])
    ∷ ("templates:write", "templates.read" ∷ "templates.write" ∷ [])
    ∷ ("analytics:read", "analytics.read" ∷ [])
    ∷ ("webhooks:manage", "webhooks.manage" ∷ "webhooks.read" ∷ [])
    ∷ []

-- `scope_grants.get(scope, set())`
unfoldable pub scope_grant : String → List String
scope_grant scope = get_set scope scope_grants

-- The loop `granted |= ...`; the union of sets is kept as one list.
unfoldable pub union_grants : List String → List String → List String
union_grants granted [] = granted
union_grants granted (scope ∷ scopes) = union_grants (granted ++ scope_grant scope) scopes

unfoldable pub api_scopes_allow : List String → String → Bool
unfolding union_grants scope_grant
api_scopes_allow scopes permission = member permission (union_grants [] scopes)
