-- ===== src/Middleware/Scope.antt =====
-- internal/middleware/scope.go: the scopes of an API key.
pub mod Covering
use graaa_golang_auth_api.Common.{
  ℕ, Bool, true, false, ◌&&◌, ◌||◌, not, Option, none, some, List, [], ◌∷◌, Text, codes, text_eq,
  is_empty, has_suffix, trim_suffix, split, split_two, trim_space, any, select, map, if◌then◌else◌,
}

unfoldable pub parse_scopes : Text → List Text
parse_scopes raw =
    if is_empty (trim_space raw)
    then []
    else select (λ p. not (is_empty p)) (map trim_space (split b',' (trim_space raw)))

-- The value under `ApiKeyScopesKey` in the request's context.
pub data Granted : Type 0 where
  absent : Granted
  other : Granted
  scopes : List Text → Granted

-- len(requiredParts) == 2 && gResource == requiredParts[0]
unfoldable pub same_resource : Text → Text × Option Text → Bool
same_resource resource (part, none) = false
same_resource resource (part, some action) = text_eq resource part

-- The body of the loop over the granted scopes.
unfoldable pub covered_by : Text → Text → Bool
covered_by required g =
    text_eq g (codes "*")
    || text_eq g required
    || (has_suffix g (codes ":*")
        && same_resource (trim_suffix g (codes ":*")) (split_two b':' required))

unfoldable pub has_scope : Granted → Text → Bool
has_scope absent required = true
has_scope other required = false
has_scope (scopes []) required = false
has_scope (scopes (g ∷ granted)) required = any (covered_by required) (g ∷ granted)
