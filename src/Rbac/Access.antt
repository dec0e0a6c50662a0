-- ===== src/Rbac/Access.antt =====
-- The access of a user, read through the cache in Redis, and the gates of requests that ask for it. The
-- JSON of the cache is a parameter.
use graaa_golang_auth_api.Common.{
  ℕ, ◌*◌, Bool, true, false, Option, none, some, List, ◌∷◌, ◌++◌, Text, codes, text_eq, any, ◌==◌,
  if◌then◌else◌,
}
use graaa_golang_auth_api.Redis.Interface.{Reply, ok, nil, failed, Redis}
use graaa_golang_auth_api.Redis.Sessions.{minute}
use graaa_golang_auth_api.Database.{Fate}
use graaa_golang_auth_api.Flow.{Verdict, accept, reject}
use graaa_golang_auth_api.Rbac.Store.{
  Tables, CachedAccess, Json, RbacError, get_user_role_names, get_user_permissions, fetch_failed,
}

unfoldable pub cache_key : Text → Text → Text
cache_key app user = codes "rbac:" ++ (app ++ (b':' ∷ user))

-- ACCESS_TOKEN_EXPIRATION_MINUTES; 0 stands for the values that are not positive.
unfoldable pub cache_ttl : ℕ → ℕ
cache_ttl minutes = minute * (if minutes == 0 then 15 else minutes)

module _ (r : Redis) (json : Json) where
  open r use {Db}

  abbrev pub decoded : Reply Text → Option CachedAccess
  decoded nil = none
  decoded failed = none
  decoded (ok text) = json.unmarshal text

  -- A miss, an error and a text that is no JSON all lead to the database.
  unfoldable pub get_from_cache : Text → Text → Db → Option CachedAccess
  get_from_cache app user d = decoded (r.get (cache_key app user) d)

  unfoldable pub set_cache : ℕ → Text → Text → CachedAccess → Db → Db
  set_cache minutes app user access d =
      (r.put (cache_key app user) (json.marshal access) (cache_ttl minutes) d).1

  unfoldable pub invalidate_cache : Text → Text → Db → Db
  invalidate_cache app user d = (r.del (cache_key app user) d).1

  abbrev pub fetched :
      ℕ
      → Text
      → Text
      → Reply (List Text)
      → Reply (List Text)
      → Db
      → Verdict RbacError CachedAccess × Db
  fetched minutes app user (ok roles) (ok permissions) d =
      let access : CachedAccess = record { roles = roles; permissions = permissions } in
      (accept access, set_cache minutes app user access d)
  fetched minutes app user _ _ d = (reject fetch_failed, d)

  abbrev pub resolved :
      Option CachedAccess
      → ℕ
      → Fate
      → Fate
      → Text
      → Text
      → Tables
      → Db
      → Verdict RbacError CachedAccess × Db
  resolved (some access) minutes load_roles load_permissions app user t d = (accept access, d)
  resolved none minutes load_roles load_permissions app user t d =
      fetched minutes app user (get_user_role_names load_roles app user t)
        (get_user_permissions load_permissions app user t) d

  unfoldable pub resolve_user_access :
      ℕ → Fate → Fate → Text → Text → Tables → Db → Verdict RbacError CachedAccess × Db
  resolve_user_access minutes load_roles load_permissions app user t d =
      resolved (get_from_cache app user d) minutes load_roles load_permissions app user t d

  abbrev pub some_required : List Text → Verdict RbacError CachedAccess → Verdict RbacError Bool
  some_required required (reject e) = reject e
  some_required required (accept access) =
      accept (any (λ role. any (text_eq role) required) access.roles)

  unfoldable pub has_role :
      ℕ → Fate → Fate → Text → Text → List Text → Tables → Db → Verdict RbacError Bool × Db
  has_role minutes load_roles load_permissions app user required t d =
      let access = resolve_user_access minutes load_roles load_permissions app user t d in
      (some_required required access.0, access.1)

  abbrev pub has_target : Text → Verdict RbacError CachedAccess → Verdict RbacError Bool
  has_target target (reject e) = reject e
  has_target target (accept access) = accept (any (λ p. text_eq p target) access.permissions)

  unfoldable pub has_permission :
      ℕ → Fate → Fate → Text → Text → Text → Text → Tables → Db → Verdict RbacError Bool × Db
  has_permission minutes load_roles load_permissions app user resource action t d =
      let access = resolve_user_access minutes load_roles load_permissions app user t d in
      (has_target (resource ++ (b':' ∷ action)) access.0, access.1)

  -- What a request is told; `next` lets it through.
  pub data Gate : Type 0 where
    next insufficient check_failed : Gate

  abbrev by_service : Verdict RbacError Bool → Gate
  by_service (accept true) = next
  by_service (accept false) = insufficient
  by_service (reject e) = insufficient

  -- The roles of the token first, then those of the service.
  unfoldable pub authorize_role :
      ℕ → Fate → Fate → List Text → List Text → Text → Text → Tables → Db → Gate × Db
  authorize_role minutes load_roles load_permissions required token_roles app user t d =
      if any (λ q. any (λ role. text_eq role q) token_roles) required
      then (next, d)
      else let found = has_role minutes load_roles load_permissions app user required t d in
        (by_service found.0, found.1)

  abbrev pub by_permission : Verdict RbacError Bool → Gate
  by_permission (accept true) = next
  by_permission (accept false) = insufficient
  by_permission (reject e) = check_failed

  unfoldable pub authorize_permission :
      ℕ → Fate → Fate → Text → Text → Text → Text → Tables → Db → Gate × Db
  authorize_permission minutes load_roles load_permissions resource action app user t d =
      let found = has_permission minutes load_roles load_permissions app user resource action t d in
      (by_permission found.0, found.1)
