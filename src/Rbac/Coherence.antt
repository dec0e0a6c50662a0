-- ===== src/Rbac/Coherence.antt =====
-- The cache of roles and permissions agrees with the database.
use mathlib.Core.Path.{subst}
use graaa_golang_auth_api.Common.{
  ℕ, ◌≡◌, refl, ◌≢◌, ap, inl, inr, Bool, false, Option, none, some, ◌∷◌, ◌++◌, Text, codes, text_eq,
  text_eq_iff, arith, Bool-cases,
}
use mathlib.Core.List.{append_cancel_left}
use graaa_golang_auth_api.Redis.Interface.{Reply, ok, nil, failed, str, Redis, IsRedis}
use graaa_golang_auth_api.Redis.Keys.{NoColon, apps_eq}
use graaa_golang_auth_api.Database.{Fate, served, refused, lost}
use graaa_golang_auth_api.Flow.{accept}
use graaa_golang_auth_api.Rbac.Store.{
  UserRole, Tables, CachedAccess, Json, assigned, roles_of, get_user_role_names,
  get_user_permissions, insert_user_role,
}
use graaa_golang_auth_api.Rbac.Access.{
  cache_key, decoded, cache_ttl, get_from_cache, set_cache, invalidate_cache, fetched, resolved,
  resolve_user_access,
}
use graaa_golang_auth_api.Rbac.Roles.{assign_role_to_user}

-- What is written to the cache reads back.
pub record IsJson (json : Json) : Type 0 where
  pub unmarshal_marshal :
      (access : CachedAccess) → json.unmarshal (json.marshal access) ≡ some access

-- The roles and permissions that the database gives a user.
abbrev pub IsCurrent : Tables → Text → Text → CachedAccess → Type 0
IsCurrent t app user access =
    (get_user_role_names served app user t ≡ ok access.roles)
    × (get_user_permissions served app user t ≡ ok access.permissions)

pub cache_key-injective :
    (a b u v : Text) → NoColon a → NoColon b → cache_key a u ≡ cache_key b v → (a ≡ b) × (u ≡ v)
unfolding cache_key
cache_key-injective a b u v p q h =
    apps_eq a b u v p q (append_cancel_left (codes "rbac:") (a ++ (b':' ∷ u)) (b ++ (b':' ∷ v)) h)

module _ (r : Redis) (json : Json) where
  -- Each cached text reads as what the database gives, for the apps whose identifier has no colon.
  pub record IsCoherent (t : Tables) (d : r.Db) : Type 0 where
    pub agrees :
        (app user text : Text) (access : CachedAccess)
        → NoColon app
        → r.entry d (cache_key app user) ≡ some (str text)
        → json.unmarshal text ≡ some access
        → IsCurrent t app user access

module _ (r : Redis) (laws : IsRedis r) (json : Json) (back : IsJson json) (minutes : ℕ) where
  open r use {Db}

  cached :
      (app user : Text) (access : CachedAccess) (t : Tables) (d : Db)
      → NoColon app
      → IsCoherent r json t d
      → get_from_cache r json app user d ≡ some access
      → IsCurrent t app user access
  unfolding get_from_cache
  cached app user access t d plain coherent h = held (r.get (cache_key app user) d) refl h
    where
      held :
          (o : Reply Text)
          → r.get (cache_key app user) d ≡ o
          → decoded r json o ≡ some access
          → IsCurrent t app user access
      held nil e c = cc
      held failed e c = cc
      held (ok text) e c = coherent.agrees app user text access plain (laws.get_ok _ _ d e) c

  -- A change of one key, after which the text under it agrees with the database, for tables that agree
  -- elsewhere.
  pub changed-IsCoherent :
      (app user : Text) (t t' : Tables) (d d' : Db)
      → NoColon app
      → ((app' user' : Text)
          → (cache_key app user ≢ cache_key app' user')
          → (access : CachedAccess) → IsCurrent t app' user' access
          → IsCurrent t' app' user' access)
      → ((key : Text) → cache_key app user ≢ key → r.entry d' key ≡ r.entry d key)
      → ((text : Text) (access : CachedAccess)
          → r.entry d' (cache_key app user) ≡ some (str text)
          → json.unmarshal text ≡ some access
          → IsCurrent t' app user access)
      → IsCoherent r json t d
      → IsCoherent r json t' d'
  changed-IsCoherent app user t t' d d' plain same others own coherent = record {
    agrees = λ app' user' text access plain' held read.
        elim (Bool-cases (text_eq (cache_key app user) (cache_key app' user'))) [
          | inl equal ↦
              let key = (text_eq_iff (cache_key app user) (cache_key app' user')).0 equal in
              let (apps, users) = cache_key-injective app app' user user' plain plain' key in
              rw (← apps, ← users) (own text access (rw (← apps, ← users) at held) read)
          | inr differs ↦
              let apart : cache_key app user ≢ cache_key app' user' = λ e.
                ground
                  (arith, (text_eq_iff (cache_key app user) (cache_key app' user')).1 e, differs) in
              same app' user' apart access (
                coherent.agrees app' user' text access plain'
                  (rw (← others (cache_key app' user') apart) held) read)
        ];
  }

  -- Writing what the database gives keeps the cache coherent.
  set_cache-IsCoherent :
      (app user : Text) (access : CachedAccess) (t : Tables) (d : Db)
      → NoColon app
      → (r.put (cache_key app user) (json.marshal access) (cache_ttl minutes) d).0 ≡ ok tt
      → IsCurrent t app user access
      → IsCoherent r json t d
      → IsCoherent r json t (set_cache r json minutes app user access d)
  unfolding set_cache
  set_cache-IsCoherent app user access t d plain stored current coherent =
      let text = json.marshal access in
      changed-IsCoherent app user t t d _ plain (λ app' user' apart a h. h)
        (λ key apart. laws.put_other (cache_key app user) text (cache_ttl minutes) d key apart)
        (λ text' access' held read.
          let put = laws.put_ok (cache_key app user) text (cache_ttl minutes) d stored in
          let texts : text ≡ text' = cc (put, held) in
          let same : access ≡ access' = cc (back.unmarshal_marshal access, texts, read) in
          subst (λ a. IsCurrent t app user a) same current)
        coherent

  fetched_sound :
      (app user : Text) (access : CachedAccess) (load_roles load_permissions : Fate) (t : Tables)
      (d : Db)
      → (fetched r json minutes app user
          (get_user_role_names load_roles app user t)
          (get_user_permissions load_permissions app user t)
          d).0
        ≡ accept access
      → IsCurrent t app user access
  unfolding get_user_role_names get_user_permissions
  fetched_sound app user access served served t d h = (ground (arith, h), ground (arith, h))
  fetched_sound app user access served refused t d h = cc
  fetched_sound app user access served lost t d h = cc
  fetched_sound app user access refused f t d h = cc
  fetched_sound app user access lost f t d h = cc

  -- Where the cache is coherent, ResolveUserAccess gives the roles and permissions that the database
  -- holds for the user, whether it reads them from the cache or from the database.
  pub resolve_user_access_sound :
      (app user : Text) (access : CachedAccess) (load_roles load_permissions : Fate) (t : Tables)
      (d : Db)
      → NoColon app
      → IsCoherent r json t d
      → (resolve_user_access r json minutes load_roles load_permissions app user t d).0
        ≡ accept access
      → IsCurrent t app user access
  unfolding resolve_user_access
  resolve_user_access_sound app user access load_roles load_permissions t d plain coherent h =
      looked (get_from_cache r json app user d) refl h
    where
      looked :
          (o : Option CachedAccess)
          → get_from_cache r json app user d ≡ o
          → (resolved r json o minutes load_roles load_permissions app user t d).0 ≡ accept access
          → IsCurrent t app user access
      looked none e c = fetched_sound app user access load_roles load_permissions t d c
      looked (some x) e c =
          let same : x ≡ access = ground (arith, c) in
          cached app user access t d plain coherent (rw e (ap some same))

  module _ (t : Tables) (app user role : Text) where
    abbrev row : UserRole
    row = record { user_id = user; role_id = role; app_id = app }

    elsewhere_same :
        (app' user' : Text)
        → cache_key app user ≢ cache_key app' user'
        → assigned app' user' row ≡ false
    unfolding cache_key
    elsewhere_same app' user' apart = elim (Bool-cases (assigned app' user' row)) [
      | inr other ↦ other
      | inl equal ↦
          let apps = (text_eq_iff app app').0 (ground (arith, equal)) in
          let users = (text_eq_iff user user').0 (ground (arith, equal)) in
          absurd (apart (rw (apps, users) refl))
    ]

    -- A new assignment changes what its own user has in its own app.
    insert-elsewhere :
        (app' user' : Text)
        → cache_key app user ≢ cache_key app' user'
        → (access : CachedAccess) → IsCurrent t app' user' access
        → IsCurrent (record t { user_roles = row ∷ t.user_roles }) app' user' access
    unfolding get_user_role_names get_user_permissions roles_of text_eq
    insert-elsewhere app' user' apart access current = rw (elsewhere_same app' user' apart) current

    -- Where the cache is coherent, it still is after AssignRoleToUser has succeeded, once Redis has
    -- answered the deletion of the user's cached access.
    pub assign_role_to_user-IsCoherent :
        (valid_uuid : Text → Bool) (fate : Fate) (d : Db)
        → NoColon app
        → (r.del (cache_key app user) d).0 ≡ ok tt
        → IsCoherent r json t d
        → (assign_role_to_user r json valid_uuid fate user role app t d).0 ≡ accept tt
        → IsCoherent r json
            (assign_role_to_user r json valid_uuid fate user role app t d).1.0
            (assign_role_to_user r json valid_uuid fate user role app t d).1.1
    unfolding assign_role_to_user insert_user_role invalidate_cache
    assign_role_to_user-IsCoherent valid_uuid fate d plain answered coherent h =
        let t' : Tables = record t { user_roles = row ∷ t.user_roles } in
        let d' = (r.del (cache_key app user) d).1 in
        let ended : (assign_role_to_user r json valid_uuid fate user role app t d).1 ≡ (t', d') =
          ground (arith, h) in
        rw ended (
          changed-IsCoherent app user t t' d d' plain insert-elsewhere
            (λ key apart. laws.del_other (cache_key app user) d key apart)
            (λ text access held read.
              absurd (cc (laws.del_ok (cache_key app user) d answered, held)))
            coherent)
