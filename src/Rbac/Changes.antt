-- ===== src/Rbac/Changes.antt =====
-- Revocation and renaming of roles, and the gates, over the cache.
use graaa_golang_auth_api.Common.{
  ℕ, ◌≡◌, refl, ◌≢◌, inl, inr, Bool, true, false, ◌&&◌, some, List, [], ◌∷◌, ◌++◌, Text, text_eq,
  text_eq_iff, any, select, All, arith, Bool-cases,
}
use graaa_golang_auth_api.Redis.Interface.{ok, Redis, IsRedis}
use graaa_golang_auth_api.Redis.Keys.{NoColon}
use graaa_golang_auth_api.Database.{Fate, served, delete_where}
use graaa_golang_auth_api.Flow.{Verdict, accept, reject}
use graaa_golang_auth_api.Rbac.Store.{
  UserRole, Tables, CachedAccess, Json, RbacError, assigned, roles_of, get_user_role_names,
  get_user_permissions, delete_user_role,
}
use graaa_golang_auth_api.Rbac.Access.{
  cache_key, get_from_cache, invalidate_cache, resolve_user_access, has_permission, has_target,
  authorize_permission, next, by_permission,
}
use graaa_golang_auth_api.Rbac.Roles.{revoke_role_from_user, update_role}
use graaa_golang_auth_api.Rbac.Coherence.{
  IsJson, IsCurrent, IsCoherent, changed-IsCoherent, resolve_user_access_sound,
}

module _ (r : Redis) (laws : IsRedis r) (json : Json) (back : IsJson json) (minutes : ℕ) where
  open r use {Db}

  module _ (app user role : Text) where
    abbrev revoked : UserRole → Bool
    revoked x = text_eq x.user_id user && text_eq x.role_id role

    -- The assignments of the role to the user are in the app.
    abbrev InApp : List UserRole → Type 0
    InApp rows = All (λ x. revoked x ≡ true → x.app_id ≡ app) rows

    select-delete :
        (app' user' : Text)
        → cache_key app user ≢ cache_key app' user'
        → (rows : List UserRole) → InApp rows
        → select (assigned app' user') (delete_where revoked rows)
          ≡ select (assigned app' user') rows
    unfolding cache_key
    select-delete app' user' apart [] here = refl
    select-delete app' user' apart (x ∷ xs) (here, rest) =
        let tail = select-delete app' user' apart xs rest in
        elim (Bool-cases (revoked x)) [
          | inr kept ↦ ground (arith, kept, tail)
          | inl gone ↦
              let users = (text_eq_iff x.user_id user).0 (ground (arith, gone)) in
              let other : assigned app' user' x ≡ false =
                elim (Bool-cases (assigned app' user' x)) [
                  | inr no_ ↦ no_
                  | inl equal ↦
                      let apps' = (text_eq_iff x.app_id app').0 (ground (arith, equal)) in
                      let users' = (text_eq_iff x.user_id user').0 (ground (arith, equal)) in
                      absurd (apart (rw (← here gone, ← users, apps', users') refl))
                ] in
              ground (arith, gone, other, tail)
        ]

    delete-elsewhere :
        (t : Tables)
        → InApp t.user_roles
        → (app' user' : Text) → cache_key app user ≢ cache_key app' user'
        → (access : CachedAccess) → IsCurrent t app' user' access
        → IsCurrent (record t { user_roles = delete_where revoked t.user_roles }) app' user' access
    unfolding get_user_role_names get_user_permissions roles_of
    delete-elsewhere t here app' user' apart access current =
        rw (select-delete app' user' apart t.user_roles here) current

    -- Where the cache is coherent, it still is after RevokeRoleFromUser has succeeded, once Redis has
    -- answered the deletion of the user's cached access and where the role was assigned to the user in
    -- that app only: the assignments of other apps go too, and their cache stays.
    pub revoke_role_from_user-IsCoherent :
        (t : Tables) (fate : Fate) (d : Db)
        → NoColon app
        → InApp t.user_roles
        → (r.del (cache_key app user) d).0 ≡ ok tt
        → IsCoherent r json t d
        → (revoke_role_from_user r json fate user role app t d).0 ≡ accept tt
        → IsCoherent r json
            (revoke_role_from_user r json fate user role app t d).1.0
            (revoke_role_from_user r json fate user role app t d).1.1
    unfolding revoke_role_from_user delete_user_role invalidate_cache
    revoke_role_from_user-IsCoherent t fate d plain here answered coherent h =
        let t' : Tables = record t { user_roles = delete_where revoked t.user_roles } in
        let d' = (r.del (cache_key app user) d).1 in
        let ended : (revoke_role_from_user r json fate user role app t d).1 ≡ (t', d') =
          ground (arith, h) in
        rw ended (
          changed-IsCoherent r laws json back minutes app user t t' d d' plain
            (delete-elsewhere t here) (λ key apart. laws.del_other (cache_key app user) d key apart)
            (λ text access held read.
              absurd (cc (laws.del_ok (cache_key app user) d answered, held)))
            coherent)

  update_role-cache :
      (load save : Fate) (id name description : Text) (t : Tables) (d : Db)
      → (update_role r json load save id name description t d).1.1 ≡ d
  unfolding update_role
  update_role-cache load save id name description t d = ground arith

  -- Renaming a role leaves the cache as it is: a user whose access is cached has the roles of before,
  -- with the old name, in what ResolveUserAccess gives after UpdateRole.
  pub update_role-stale :
      (app user : Text) (access : CachedAccess) (load save load_roles load_permissions : Fate)
      (id name description : Text) (t : Tables) (d : Db)
      → get_from_cache r json app user d ≡ some access
      → (resolve_user_access r json minutes load_roles load_permissions app user
          (update_role r json load save id name description t d).1.0
          (update_role r json load save id name description t d).1.1).0
        ≡ accept access
  unfolding resolve_user_access
  update_role-stale app user access load save load_roles load_permissions id name description t d
        h =
      rw (update_role-cache load save id name description t d) (rw h refl)

  -- Where the cache is coherent, AuthorizePermission lets a request through only where the database
  -- gives the user the permission.
  pub authorize_permission_sound :
      (app user resource action : Text) (load_roles load_permissions : Fate) (t : Tables) (d : Db)
      → NoColon app
      → IsCoherent r json t d
      → (authorize_permission r json minutes load_roles load_permissions resource action app user t
          d).0
        ≡ next
      → (permissions : List Text) × (get_user_permissions served app user t ≡ ok permissions)
        × (any (λ p. text_eq p (resource ++ (b':' ∷ action))) permissions ≡ true)
  unfolding authorize_permission has_permission
  authorize_permission_sound app user resource action load_roles load_permissions t d plain coherent
        h =
      looked (resolve_user_access r json minutes load_roles load_permissions app user t d).0 refl h
    where
      looked :
          (v : Verdict RbacError CachedAccess)
          → (resolve_user_access r json minutes load_roles load_permissions app user t d).0 ≡ v
          → by_permission r json (has_target r json (resource ++ (b':' ∷ action)) v) ≡ next
          → (permissions : List Text) × (get_user_permissions served app user t ≡ ok permissions)
            × (any (λ p. text_eq p (resource ++ (b':' ∷ action))) permissions ≡ true)
      looked (reject e) g c = cc
      looked (accept access) g c = (
        access.permissions,
        (resolve_user_access_sound r laws json back minutes app user access load_roles
            load_permissions t d plain coherent g).1,
        ground (arith, c),
      )
