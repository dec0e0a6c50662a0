-- ===== src/SessionGroup.antt =====
-- internal/sessiongroup: the sessions of a user in the other applications of a group end with those in
-- one (revoke.go), and with a session that expires (expiry.go). The groups and users of the admin and
-- user repositories are interfaces, here the record `Directory`.
pub mod Logout
use graaa_golang_auth_api.Common.{
  ℕ, Bool, true, false, not, ◌&&◌, Option, none, some, List, [], ◌∷◌, Text, codes, text_eq,
  has_prefix, if◌then◌else◌, take, length,
}
use graaa_golang_auth_api.Redis.Interface.{Redis}
use graaa_golang_auth_api.Redis.Tokens.{parse_session_meta_key}
use graaa_golang_auth_api.Jwt.{Jwt, TokenConfig}
use graaa_golang_auth_api.Session.{revoke_all_user_sessions}

pub record SessionGroup : Type 0 where
  pub id : Text
  pub global_logout : Bool

-- A missing row and a failed query both give none.
pub record Directory : Type 0 where
  pub get_session_group_for_app : Text → Option SessionGroup
  pub get_apps_in_session_group : Text → Option (List Text)
  pub user_by_email : Text → Text → Option Text
  pub email_of_user : Text → Option Text

module _ (r : Redis) (j : Jwt) (cfg : TokenConfig) (dir : Directory) where
  open r use {Db}

  abbrev pub revoke_found : Text → Option Text → Db → Db
  revoke_found app none d = d
  revoke_found app (some user) d = (revoke_all_user_sessions r j cfg app user d).1

  -- The loop over the apps of the group; an error is only logged.
  unfoldable pub revoke_in_apps : Text → Text → List Text → Db → Db
  revoke_in_apps app email [] d = d
  revoke_in_apps app email (other ∷ others) d =
      revoke_in_apps app email others
        (if text_eq other app then d else revoke_found other (dir.user_by_email other email) d)

  abbrev revoke_in_group : Text → Text → Option SessionGroup → Db → Db
  revoke_in_group app email none d = d
  revoke_in_group app email (some group) d =
      if group.global_logout
      then elim (dir.get_apps_in_session_group group.id) [
        | none ↦ d
        | some apps ↦ revoke_in_apps app email apps d
      ]
      else d

  unfoldable pub revoke_all_user_sessions_in_group : Text → Text → Db → Db
  revoke_all_user_sessions_in_group app email d =
      revoke_in_group app email (dir.get_session_group_for_app app) d

  unfoldable pub revoke_all_user_sessions_in_group_by_user_id : Text → Text → Db → Db
  revoke_all_user_sessions_in_group_by_user_id app user d = elim (dir.email_of_user user) [
    | none ↦ d
    | some email ↦ revoke_all_user_sessions_in_group app email d
  ]

  unfoldable pub should_revoke_group_sessions : Text → Bool × Option SessionGroup
  should_revoke_group_sessions app = elim (dir.get_session_group_for_app app) [
    | none ↦ (false, none)
    | some group ↦ (group.global_logout, some group)
  ]

  abbrev expired : Option (Text × Text × Text) → Db → Db
  expired none d = d
  expired (some (app, user, sid)) d =
      if (should_revoke_group_sessions app).0
      then elim (dir.email_of_user user) [
        | none ↦ d
        | some email ↦ revoke_all_user_sessions_in_group app email d
      ]
      else d

  unfoldable pub handle_expired_key : Text → Db → Db
  handle_expired_key key d =
      if has_prefix key (codes "session_meta:") then expired (parse_session_meta_key key) d else d

  -- The loop of a scan over the keys that have expired.
  unfoldable pub handle_all : List Text → Db → Db
  handle_all [] d = d
  handle_all (key ∷ keys) d = handle_all keys (handle_expired_key key d)

  -- `running` is the flag of the service; the keys are what GetExpiredSessionMetaKeys gives, none on an
  -- error. `seen` is the number of keys that the loop handles before the service is stopped.
  unfoldable pub scan_for_expired_sessions : Bool → ℕ → Option (List Text) → Db → Db
  scan_for_expired_sessions running seen none d = d
  scan_for_expired_sessions running seen (some keys) d =
      if running then handle_all (take seen keys) d else d

  -- ForceScan: the number of keys handled, none on an error.
  unfoldable pub force_scan : Bool → Option (List Text) → Db → Option ℕ × Db
  force_scan running none d = (none, d)
  force_scan running (some keys) d =
      if running then (some (length keys), handle_all keys d) else (none, d)
