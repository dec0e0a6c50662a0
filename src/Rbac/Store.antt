-- ===== src/Rbac/Store.antt =====
-- The tables of internal/rbac/repository.go and its queries. A role holds the identifiers of its
-- permissions, which stand in a table of pairs.
use graaa_golang_auth_api.Common.{
  Bool, ◌&&◌, Option, none, some, List, [], ◌∷◌, ◌++◌, Text, text_eq, any, map, select,
  if◌then◌else◌,
}
use graaa_golang_auth_api.Redis.Interface.{Reply, nil, ok, failed}
use graaa_golang_auth_api.Database.{
  Fate, first_where, first, query, update_where, delete_where, written, write_reply,
}

pub record Role : Type 0 where
  pub id : Text
  pub app_id : Text
  pub name : Text
  pub description : Text
  pub is_system : Bool
  pub permissions : List Text

pub record Permission : Type 0 where
  pub id : Text
  pub resource : Text
  pub action : Text

pub record UserRole : Type 0 where
  pub user_id : Text
  pub role_id : Text
  pub app_id : Text

pub record Tables : Type 0 where
  pub roles : List Role
  pub permissions : List Permission
  pub user_roles : List UserRole

pub record CachedAccess : Type 0 where
  pub roles : List Text
  pub permissions : List Text

pub record Json : Type 0 where
  pub marshal : CachedAccess → Text
  pub unmarshal : Text → Option CachedAccess

pub data RbacError : Type 0 where
  fetch_failed not_found system_role write_failed invalid_id : RbacError

abbrev pub role_is : Text → Role → Bool
role_is id role = text_eq role.id id

abbrev pub permission_is : Text → Permission → Bool
permission_is id p = text_eq p.id id

abbrev pub assigned : Text → Text → UserRole → Bool
assigned app user x = text_eq x.app_id app && text_eq x.user_id user

-- The roles that a user has in an app: the join of user_roles with roles.
abbrev pub joined : List Role → List UserRole → List Role
joined roles [] = []
joined roles (x ∷ xs) =
    let rest = joined roles xs in
    elim (first_where (role_is x.role_id) roles) [ none ↦ rest | some role ↦ role ∷ rest ]

unfoldable pub roles_of : Tables → Text → Text → List Role
roles_of t app user = joined t.roles (select (assigned app user) t.user_roles)

abbrev pub role_name : Role → Text
role_name role = role.name

unfoldable pub get_user_role_names : Fate → Text → Text → Tables → Reply (List Text)
get_user_role_names fate app user t = query fate (map role_name (roles_of t app user))

abbrev permission_text : Permission → Text
permission_text p = p.resource ++ (b':' ∷ p.action)

abbrev permissions_of : List Permission → List Text → List Permission
permissions_of table [] = []
permissions_of table (id ∷ ids) =
    let rest = permissions_of table ids in
    elim (first_where (permission_is id) table) [ none ↦ rest | some p ↦ p ∷ rest ]

abbrev permissions_of_roles : List Permission → List Role → List Permission
permissions_of_roles table [] = []
permissions_of_roles table (role ∷ roles) =
    permissions_of table role.permissions ++ permissions_of_roles table roles

-- SELECT DISTINCT: each pair of a resource and an action once.
abbrev distinct : List Permission → List Permission
distinct [] = []
distinct (p ∷ ps) =
    let rest = distinct ps in
    if any (λ q. text_eq q.resource p.resource && text_eq q.action p.action) rest
    then rest
    else p ∷ rest

unfoldable pub get_user_permissions : Fate → Text → Text → Tables → Reply (List Text)
get_user_permissions fate app user t =
    query fate
      (map permission_text (distinct (permissions_of_roles t.permissions (roles_of t app user))))

abbrev pub get_role_by_id : Fate → Text → Tables → Reply Role
get_role_by_id fate id t = first fate (role_is id) t.roles

-- AssignRoleToUser of the repository: the primary key, user and role, refuses a second assignment.
unfoldable pub insert_user_role : Fate → UserRole → Tables → Reply (Unit {0}) × Tables
insert_user_role fate x t =
    if any (λ y. text_eq y.user_id x.user_id && text_eq y.role_id x.role_id) t.user_roles
    then (failed, t)
    else (write_reply fate, record t { user_roles = written fate t.user_roles (x ∷ t.user_roles) })

-- RevokeRoleFromUser of the repository: in every app.
unfoldable pub delete_user_role : Fate → Text → Text → Tables → Reply (Unit {0}) × Tables
delete_user_role fate user role t = (
  write_reply fate,
  record t {
    user_roles =
        written fate t.user_roles
          (delete_where (λ x. text_eq x.user_id user && text_eq x.role_id role) t.user_roles);
  },
)

-- The role, with its assignments by the foreign key, once it is loaded again and is no system role.
abbrev pub delete_loaded : Reply Role → Fate → Text → Tables → Reply (Unit {0}) × Tables
delete_loaded nil fate id t = (nil, t)
delete_loaded failed fate id t = (failed, t)
delete_loaded (ok role) fate id t = if role.is_system then (failed, t) else (
  write_reply fate,
  record t {
    roles = written fate t.roles (delete_where (role_is id) t.roles);
    user_roles = written fate t.user_roles (delete_where (λ x. text_eq x.role_id id) t.user_roles);
  },
)

unfoldable pub delete_role_row : Fate → Fate → Text → Tables → Reply (Unit {0}) × Tables
delete_role_row load fate id t = delete_loaded (first load (role_is id) t.roles) fate id t

unfoldable pub update_role_row : Fate → Text → Text → Text → Tables → Reply (Unit {0}) × Tables
update_role_row fate id name description t = (
  write_reply fate,
  record t {
    roles = written fate t.roles (
        update_where (role_is id) (λ role. record role { name = name; description = description })
          t.roles);
  },
)

unfoldable pub set_role_permissions_row :
    Fate → Text → List Text → Tables → Reply (Unit {0}) × Tables
set_role_permissions_row fate id ids t = (
  write_reply fate,
  record t {
    roles = written fate t.roles (
        update_where (role_is id)
          (λ role. record role {
            permissions = select (λ i. any (permission_is i) t.permissions) ids;
          })
          t.roles);
  },
)

abbrev pub get_role_by_name : Fate → Text → Text → Tables → Reply Role
get_role_by_name fate app name t =
    first fate (λ role. text_eq role.app_id app && text_eq role.name name) t.roles

-- CreateRole of the repository: an app has a name once.
unfoldable pub insert_role : Fate → Role → Tables → Reply (Unit {0}) × Tables
insert_role fate role t =
    if any (λ q. text_eq q.app_id role.app_id && text_eq q.name role.name) t.roles
    then (failed, t)
    else (write_reply fate, record t { roles = written fate t.roles (role ∷ t.roles) })

-- CreatePermission of the repository: a resource has an action once.
unfoldable pub insert_permission : Fate → Permission → Tables → Reply (Unit {0}) × Tables
insert_permission fate p t =
    if any (λ q. text_eq q.resource p.resource && text_eq q.action p.action) t.permissions
    then (failed, t)
    else (
      write_reply fate,
      record t { permissions = written fate t.permissions (p ∷ t.permissions) },
    )

unfoldable pub get_user_roles : Fate → Text → Text → Tables → Reply (List Role)
get_user_roles fate app user t = query fate (roles_of t app user)
