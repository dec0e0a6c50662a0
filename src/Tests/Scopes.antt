-- ===== src/Tests/Scopes.antt =====
-- The scopes of an API key at concrete inputs.
use graaa_golang_auth_api.Common.{◌≡◌, ◌↔◌, true, List, [], ◌∷◌, Text, codes, Some}
use graaa_golang_auth_api.Middleware.Scope.{scopes, has_scope}
use graaa_golang_auth_api.Middleware.Scope.Covering.{Covers, has_scope_iff}

abbrev granted : List Text
granted = codes "users:*" ∷ codes "apps:read" ∷ []

has_scope_iff_example :
    (has_scope (scopes granted) (codes "users:read") ≡ true)
    ↔ Some (Covers (codes "users:read")) granted
has_scope_iff_example = has_scope_iff (codes "users:read") granted
