-- ===== src/Rbac/Roles.antt =====
-- The changes of roles and of who has them, and what they drop from the cache.
use graaa_golang_auth_api.Common.{
  Bool, false, not, ◌&&◌, List, [], ◌∷◌, Text, codes, text_eq, select, take, if◌then◌else◌,
}
use graaa_golang_auth_api.Redis.Interface.{Reply, ok, nil, failed, Redis}
use graaa_golang_auth_api.Database.{Fate, query}
use graaa_golang_auth_api.Flow.{Verdict, accept, reject}
use graaa_golang_auth_api.Rbac.Store.{
  Role, Permission, UserRole, Tables, Json, RbacError, get_role_by_id, insert_user_role,
  delete_user_role, delete_role_row, update_role_row, set_role_permissions_row, get_role_by_name,
  insert_role, insert_permission, fetch_failed, not_found, system_role, write_failed, invalid_id,
}
use graaa_golang_auth_api.Rbac.Access.{invalidate_cache}

abbrev created : {A : Type 0} → A → Reply (Unit {0}) × Tables → Verdict RbacError A × Tables
created a (ok u, t) = (accept a, t)
created a (nil, t) = (reject write_failed, t)
created a (failed, t) = (reject write_failed, t)

-- `id` is the identifier that the database gives.
unfoldable pub create_role :
    (Text → Bool) → Fate → Text → Text → Text → Text → Tables → Verdict RbacError Role × Tables
create_role valid_uuid fate id app name description t =
    let role : Role = record {
      id = id;
      app_id = app;
      name = name;
      description = description;
      is_system = false;
      permissions = [];
    } in
    if valid_uuid app then created role (insert_role fate role t) else (reject invalid_id, t)

unfoldable pub create_permission :
    Fate → Text → Text → Text → Tables → Verdict RbacError Permission × Tables
create_permission fate id resource action t =
    let p : Permission = record { id = id; resource = resource; action = action } in
    created p (insert_permission fate p t)

module _ (r : Redis) (json : Json) where
  open r use {Db}

  -- What a write of the database leads to: the cache of the user is dropped where it was answered.
  abbrev pub after_write :
      Reply (Unit {0}) × Tables → Text → Text → Db → Verdict RbacError (Unit {0}) × (Tables × Db)
  after_write (ok u, t) app user d = (accept tt, (t, invalidate_cache r json app user d))
  after_write (nil, t) app user d = (reject write_failed, (t, d))
  after_write (failed, t) app user d = (reject write_failed, (t, d))

  unfoldable pub assign_role_to_user :
      (Text → Bool)
      → Fate
      → Text
      → Text
      → Text
      → Tables
      → Db
      → Verdict RbacError (Unit {0}) × (Tables × Db)
  assign_role_to_user valid_uuid fate user role app t d =
      if valid_uuid user && valid_uuid role && valid_uuid app
      then after_write
          (insert_user_role fate (record { user_id = user; role_id = role; app_id = app }) t) app
          user d
      else (reject invalid_id, (t, d))

  -- A role that is missing and an assignment that fails are only logged.
  abbrev pub defaulted :
      (Text → Bool)
      → Reply Role
      → Fate
      → Text
      → Text
      → Tables
      → Db
      → Verdict RbacError (Unit {0}) × (Tables × Db)
  defaulted valid_uuid nil save app user t d = (accept tt, (t, d))
  defaulted valid_uuid failed save app user t d = (accept tt, (t, d))
  defaulted valid_uuid (ok role) save app user t d =
      (accept tt, (assign_role_to_user valid_uuid save user role.id app t d).1)

  unfoldable pub assign_default_role :
      (Text → Bool)
      → Fate
      → Fate
      → Text
      → Text
      → Tables
      → Db
      → Verdict RbacError (Unit {0}) × (Tables × Db)
  assign_default_role valid_uuid load save app user t d =
      defaulted valid_uuid (get_role_by_name load app (codes "member") t) save app user t d

  unfoldable pub revoke_role_from_user :
      Fate → Text → Text → Text → Tables → Db → Verdict RbacError (Unit {0}) × (Tables × Db)
  revoke_role_from_user fate user role app t d =
      after_write (delete_user_role fate user role t) app user d

  abbrev after_update :
      Reply (Unit {0}) × Tables → Db → Verdict RbacError (Unit {0}) × (Tables × Db)
  after_update (ok u, t) d = (accept tt, (t, d))
  after_update (nil, t) d = (reject write_failed, (t, d))
  after_update (failed, t) d = (reject write_failed, (t, d))

  abbrev renamed :
      Reply Role
      → Fate
      → Text
      → Text
      → Text
      → Tables
      → Db
      → Verdict RbacError (Unit {0}) × (Tables × Db)
  renamed nil save id name description t d = (reject not_found, (t, d))
  renamed failed save id name description t d = (reject fetch_failed, (t, d))
  renamed (ok role) save id name description t d =
      if role.is_system && not (text_eq name role.name)
      then (reject system_role, (t, d))
      else after_update (update_role_row save id name description t) d

  unfoldable pub update_role :
      Fate → Fate → Text → Text → Text → Tables → Db → Verdict RbacError (Unit {0}) × (Tables × Db)
  update_role load save id name description t d =
      renamed (get_role_by_id load id t) save id name description t d

  -- The loop over the assignments: the cache of each user with the role is dropped.
  unfoldable pub invalidate_users : Text → Text → List UserRole → Db → Db
  invalidate_users app role [] d = d
  invalidate_users app role (x ∷ xs) d =
      invalidate_users app role xs
        (if text_eq x.role_id role then invalidate_cache r json app x.user_id d else d)

  -- GetUsersWithRoleInApp for the first 10000 rows; `order` is the sort by e-mail and role.
  abbrev pub users_with_roles : (List UserRole → List UserRole) → Text → Tables → List UserRole
  users_with_roles order app t =
      take 10000 (order (select (λ x. text_eq x.app_id app) t.user_roles))

  abbrev dropped :
      Reply (List UserRole)
      → Text
      → Text
      → Reply (Unit {0}) × Tables
      → Tables
      → Db
      → Verdict RbacError (Unit {0}) × (Tables × Db)
  dropped nil app id done_ t d = (reject fetch_failed, (t, d))
  dropped failed app id done_ t d = (reject fetch_failed, (t, d))
  dropped (ok users) app id (ok u, t') t d = (accept tt, (t', invalidate_users app id users d))
  dropped (ok users) app id (nil, t') t d = (reject write_failed, (t', d))
  dropped (ok users) app id (failed, t') t d = (reject write_failed, (t', d))

  -- `reload` is the fate of the query by which the repository loads the role again.
  abbrev deleted :
      (List UserRole → List UserRole)
      → Reply Role
      → Fate
      → Fate
      → Fate
      → Text
      → Tables
      → Db
      → Verdict RbacError (Unit {0}) × (Tables × Db)
  deleted order nil listing reload save id t d = (reject not_found, (t, d))
  deleted order failed listing reload save id t d = (reject fetch_failed, (t, d))
  deleted order (ok role) listing reload save id t d =
      if role.is_system
      then (reject system_role, (t, d))
      else dropped (query listing (users_with_roles order role.app_id t)) role.app_id id
          (delete_role_row reload save id t) t d

  unfoldable pub delete_role :
      (List UserRole → List UserRole)
      → Fate
      → Fate
      → Fate
      → Fate
      → Text
      → Tables
      → Db
      → Verdict RbacError (Unit {0}) × (Tables × Db)
  delete_role order load listing reload save id t d =
      deleted order (get_role_by_id load id t) listing reload save id t d

  abbrev listed : Reply (List UserRole) → Text → Text → Db → Db
  listed nil app role d = d
  listed failed app role d = d
  listed (ok users) app role d = invalidate_users app role users d

  abbrev permitted :
      (List UserRole → List UserRole)
      → Reply Role
      → Fate
      → Reply (Unit {0}) × Tables
      → Text
      → Tables
      → Db
      → Verdict RbacError (Unit {0}) × (Tables × Db)
  permitted order nil listing done_ id t d = (reject not_found, (t, d))
  permitted order failed listing done_ id t d = (reject fetch_failed, (t, d))
  permitted order (ok role) listing (nil, t') id t d = (reject write_failed, (t', d))
  permitted order (ok role) listing (failed, t') id t d = (reject write_failed, (t', d))
  permitted order (ok role) listing (ok u, t') id t d = (
    accept tt,
    (t', listed (query listing (users_with_roles order role.app_id t')) role.app_id id d),
  )

  unfoldable pub set_role_permissions :
      (List UserRole → List UserRole)
      → Fate
      → Fate
      → Fate
      → Text
      → List Text
      → Tables
      → Db
      → Verdict RbacError (Unit {0}) × (Tables × Db)
  set_role_permissions order load listing save id ids t d =
      permitted order (get_role_by_id load id t) listing (set_role_permissions_row save id ids t) id
        t d
