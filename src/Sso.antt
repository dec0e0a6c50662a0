-- ===== src/Sso.antt =====
-- internal/sso/handler.go: a token of one application of a session group is exchanged for a session in
-- another one. The groups and users of the admin and user repositories, the roles and the times to live
-- of an application are interfaces, here the record `SsoDirectory`.
pub mod Exchange
use graaa_golang_auth_api.Common.{
  ℕ, Bool, not, ◌||◌, Option, none, some, List, Text, text_eq, is_empty, any,
}
use graaa_golang_auth_api.Redis.Interface.{Redis, ok}
use graaa_golang_auth_api.Redis.Slots.Handover.{set_sso_token, get_sso_token, delete_sso_token}
use graaa_golang_auth_api.Flow.{
  Verdict, accept, reject, Flow, done, obtain, call, attempt, guard, after, answer, ◌>>=◌, ◌>>◌,
}
use graaa_golang_auth_api.Jwt.{Jwt, TokenConfig}
use graaa_golang_auth_api.Session as Session
use graaa_golang_auth_api.Session.{Issued, success, failure}

pub data SsoError : Type 0 where
  missing_context no_group group_failed other_group token_failed : SsoError
  invalid_token no_source_user no_target_user deactivated session_failed : SsoError

pub record TargetUser : Type 0 where
  pub id : Text
  pub is_active : Bool

-- A missing row and a failed query both give none.
pub record SsoDirectory : Type 0 where
  pub get_session_group_for_app : Text → Option Text
  pub get_apps_in_session_group : Text → Option (List Text)
  pub email_of_user : Text → Option Text
  pub user_by_email : Text → Text → Option TargetUser
  pub access_ttl : Text → ℕ
  pub refresh_ttl : Text → ℕ
  pub lookup_roles : Text → Text → List Text

module _ {E S A : Type 0} where
  unfoldable pub given : Option A → E → Flow E S A
  given none e s = (reject e, s)
  given (some a) e s = (accept a, s)

abbrev pub in_group : List Text → Text → Bool
in_group apps app = any (λ other. text_eq other app) apps

abbrev pub of_session : {S : Type 0} → Session.Result Issued × S → Verdict SsoError Issued × S
of_session (success issued, s) = (accept issued, s)
of_session (failure e, s) = (reject session_failed, s)

-- What the request and the machine add: the client's address and agent, uuid.New and the clock.
pub record Client : Type 0 where
  pub ip : Text
  pub user_agent : Text
  pub fresh : Text
  pub now : ℕ
  pub stamp : Text

module _ (r : Redis) (dir : SsoDirectory) where
  open r use {Db}

  -- `token` is the new token of uuid.New.
  unfoldable pub issue_token : Text → Text → Text → Text → Flow SsoError Db Text
  issue_token source user target token = do
    guard (not (is_empty source || is_empty user)) missing_context
    group ← given (dir.get_session_group_for_app source) no_group
    apps ← given (dir.get_apps_in_session_group group) group_failed
    guard (in_group apps target) other_group
    call (set_sso_token r token group source user) token_failed
    done token

  module _ (j : Jwt) (cfg : TokenConfig) where
    -- The session in the target application.
    unfoldable pub open_session : Text → Text → Client → Flow SsoError Db Issued
    open_session target user client d = of_session (
        Session.create_session r j cfg target user client.ip client.user_agent
          (dir.lookup_roles target user) (dir.access_ttl target) (dir.refresh_ttl target)
          client.fresh client.now client.stamp d)

    -- What Exchange does once the token is read and deleted.
    unfoldable pub admit : Text → Text × Text × Text → Client → Flow SsoError Db Issued
    admit target (group, source, user) client = do
      apps ← given (dir.get_apps_in_session_group group) group_failed
      guard (in_group apps target) other_group
      email ← given (dir.email_of_user user) no_source_user
      peer ← given (dir.user_by_email target email) no_target_user
      guard peer.is_active deactivated
      open_session target peer.id client

    unfoldable pub exchange : Text → Text → Client → Flow SsoError Db Issued
    exchange target token client = do
      parts ← obtain (λ d. (get_sso_token r token d).0) invalid_token invalid_token
      attempt (delete_sso_token r token)
      admit target parts client
