-- ===== src/Tests/Roles.antt =====
-- A member with one permission, whose access is cached on the sample server.
use graaa_golang_auth_api.Common.{
  ℕ, zero, suc, ◌≡◌, refl, ap, true, Option, none, some, List, [], ◌∷◌, ◌++◌, Text, codes, text_eq,
  any, length, arith, lookup,
}
use graaa_golang_auth_api.Redis.Interface.{ok}
use graaa_golang_auth_api.Redis.Sample.{sample, running}
use graaa_golang_auth_api.Redis.Sample.Laws.{sample-IsRedis}
use graaa_golang_auth_api.Database.{served}
use graaa_golang_auth_api.Rbac.Store.{
  Tables, CachedAccess, Json, roles_of, get_user_role_names, get_user_permissions, insert_user_role,
  delete_user_role,
}
use graaa_golang_auth_api.Rbac.Access.{
  cache_key, get_from_cache, set_cache, invalidate_cache, resolve_user_access, has_permission,
  authorize_permission,
}
use graaa_golang_auth_api.Rbac.Roles.{assign_role_to_user, revoke_role_from_user}
use graaa_golang_auth_api.Rbac.Coherence.{IsJson, IsCoherent}
use graaa_golang_auth_api.Rbac.Changes.{
  revoke_role_from_user-IsCoherent, authorize_permission_sound,
}
use graaa_golang_auth_api.Tests.SampleJwt.{put_texts, get_texts, get_texts-put_texts}

unfoldable run : Unit {0}
unfolding running cache_key roles_of get_user_role_names get_user_permissions insert_user_role
    delete_user_role get_from_cache set_cache invalidate_cache resolve_user_access has_permission
    authorize_permission assign_role_to_user revoke_role_from_user
run = tt

-- The numbers of roles and permissions, and then their texts.
abbrev taken : ℕ → List Text → List Text × List Text
taken zero xs = ([], xs)
taken (suc n) [] = ([], [])
taken (suc n) (x ∷ xs) = let (a, b) = taken n xs in (x ∷ a, b)

taken-append : (xs ys : List Text) → taken (length xs) (xs ++ ys) ≡ (xs, ys)
taken-append [] ys = refl
taken-append (x ∷ xs) ys = rw (taken-append xs ys) refl

abbrev access_of : List Text × List Text → CachedAccess
access_of (roles, permissions) = record { roles = roles; permissions = permissions }

abbrev read_access : Text → Option CachedAccess
read_access (n ∷ m ∷ t) = some (access_of (taken n (get_texts m t)))
read_access _ = none

abbrev json : Json
json = record {
  marshal = λ a.
      length a.roles ∷ length (a.roles ++ a.permissions) ∷ put_texts (a.roles ++ a.permissions);
  unmarshal = read_access;
}

json-IsJson : IsJson json
json-IsJson = record {
  unmarshal_marshal = λ a.
      rw (get_texts-put_texts (a.roles ++ a.permissions))
        (ap (λ p. some (access_of p)) (taken-append a.roles a.permissions));
}

abbrev tables : Tables
tables = record {
  roles =
      record {
        id = codes "r";
        app_id = codes "a";
        name = codes "member";
        description = [];
        is_system = true;
        permissions = codes "p" ∷ [];
      }
      ∷ [];
  permissions = record { id = codes "p"; resource = codes "log"; action = codes "read" } ∷ [];
  user_roles = record { user_id = codes "u"; role_id = codes "r"; app_id = codes "a" } ∷ [];
}

-- An empty cache agrees with every database.
empty_cache : IsCoherent sample json tables []
unfolding lookup
empty_cache = record { agrees = λ app user text access plain held read. absurd (cc (held)) }

authorize_permission_sound_example :
    (permissions : List Text) × (get_user_permissions served (codes "a") (codes "u") tables
      ≡ ok permissions)
    × (any (λ p. text_eq p (codes "log:read")) permissions ≡ true)
unfolding run
authorize_permission_sound_example =
    authorize_permission_sound sample sample-IsRedis json json-IsJson 15 (codes "a") (codes "u")
      (codes "log") (codes "read") served served tables [] ((λ h. omega arith), tt) empty_cache refl

revoke_role_from_user-IsCoherent_example :
    IsCoherent sample json
      (revoke_role_from_user sample json served (codes "u") (codes "r") (codes "a") tables []).1.0
      (revoke_role_from_user sample json served (codes "u") (codes "r") (codes "a") tables []).1.1
unfolding run
revoke_role_from_user-IsCoherent_example =
    revoke_role_from_user-IsCoherent sample sample-IsRedis json json-IsJson 15 (codes "a")
      (codes "u") (codes "r") tables served [] ((λ h. omega arith), tt) ((λ h. refl), tt) refl
      empty_cache refl
