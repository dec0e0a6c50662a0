-- ===== src/Session.antt =====
-- internal/session/service.go. A method is an action on the server that may end in an AppError;
-- the session identifier from uuid.New and the clock reading `now` are arguments.
pub mod Revoked
pub mod Rotation
pub mod Created
use graaa_golang_auth_api.Common.{
  ℕ, ◌-◌, ◌*◌, ◌<◌, Bool, true, false, not, ◌||◌, Option, none, some, List, [], Text, codes,
  text_eq, is_empty, ltb, if◌then◌else◌,
}
use graaa_golang_auth_api.Redis.Interface.{Reply, ok, nil, failed, Redis}
use graaa_golang_auth_api.Redis.Exec.{Exec}
use graaa_golang_auth_api.Redis.Sessions as Sessions
use graaa_golang_auth_api.Redis.Sessions.{
  second, hour, get_session_refresh_token, update_session_refresh_token, reset_session_ttl,
  touch_session, delete_all_user_sessions,
}
use graaa_golang_auth_api.Redis.Tokens.{
  blacklist_access_token, blacklist_all_user_tokens, clear_user_token_blacklist,
}
use graaa_golang_auth_api.Jwt.{
  Claims, Jwt, TokenConfig, generate_access_token, generate_refresh_token, parse_token,
  effective_ttl, type_refresh,
}

-- The messages of `errors.NewAppError`, and the error code that goes with each.
pub data AppError : Type 0 where
  failed_access_token failed_refresh_token failed_create_session failed_update_session : AppError
  failed_revoke failed_blacklist : AppError
  invalid_refresh_token invalid_token_type session_expired session_revoked : AppError
  refresh_token_revoked : AppError

pub data Result (A : Type 0) : Type 0 where
  success : A → Result A
  failure : AppError → Result A

abbrev pub Action : Type 0 → Type 0 → Type 0
Action Db A = Db → Result A × Db

abbrev pub or_error_reply : {A : Type 0} → Reply A → AppError → Result A
or_error_reply (ok a) e = success a
or_error_reply nil e = failure e
or_error_reply failed e = failure e

module _ {Db A : Type 0} where
  abbrev pub done : A → Action Db A
  done a d = (success a, d)

  abbrev pub or_error : Option A → AppError → Action Db A
  or_error none e d = (failure e, d)
  or_error (some a) e d = (success a, d)

  -- `if err := call; err != nil { return NewAppError }`
  abbrev pub call : Exec Db A → AppError → Action Db A
  call m e d = (or_error_reply (m d).0 e, (m d).1)

  -- A call whose error is only logged.
  abbrev pub warn : Exec Db A → Action Db (Unit {0})
  warn m d = (success tt, (m d).1)

abbrev pub guard : {Db : Type 0} → Bool → AppError → Action Db (Unit {0})
guard true e d = (success tt, d)
guard false e d = (failure e, d)

module _ {Db A B : Type 0} where
  abbrev pub after : Result A → (A → Action Db B) → Action Db B
  after (success a) f d = f a d
  after (failure e) f d = (failure e, d)

  infixl 5 ◌>>=◌ ◌>>◌
  abbrev pub ◌>>=◌ : Action Db A → (A → Action Db B) → Action Db B
  ◌>>=◌ m f d = after (m d).0 f (m d).1

  abbrev pub ◌>>◌ : Action Db A → Action Db B → Action Db B
  ◌>>◌ m k d = after (m d).0 (λ _. k) (m d).1

-- An access token, a refresh token, and the session or user identifier.
pub record Issued : Type 0 where
  pub access_token : Text
  pub refresh_token : Text
  pub id : Text

module _ (r : Redis) (j : Jwt) (cfg : TokenConfig) where
  open r use {Db}

  unfoldable pub create_session :
      Text → Text → Text → Text → List Text → ℕ → ℕ → Text → ℕ → Text → Action Db Issued
  create_session app user ip user_agent roles access_ttl refresh_ttl sid now stamp = do
    access ←
        or_error (generate_access_token j cfg app user sid roles access_ttl now) failed_access_token
    refresh ←
        or_error (generate_refresh_token j cfg app user sid roles refresh_ttl now)
          failed_refresh_token
    call
        (Sessions.create_session r app sid user refresh ip user_agent stamp
          (effective_ttl refresh_ttl cfg.default_refresh_ttl))
        failed_create_session
    warn (clear_user_token_blacklist r app user)
    done (record { access_token = access; refresh_token = refresh; id = sid })

  -- The second half of RefreshSession: new tokens for the same session.
  unfoldable pub rotate : Claims → ℕ → ℕ → ℕ → Text → Action Db Issued
  rotate c access_ttl refresh_ttl now stamp = do
    access ←
        or_error
          (generate_access_token j cfg c.app_id c.user_id c.session_id c.roles access_ttl now)
          failed_access_token
    refresh ←
        or_error
          (generate_refresh_token j cfg c.app_id c.user_id c.session_id c.roles refresh_ttl now)
          failed_refresh_token
    call (update_session_refresh_token r c.app_id c.session_id refresh) failed_update_session
    warn (
        reset_session_ttl r c.app_id c.session_id
          (effective_ttl refresh_ttl cfg.default_refresh_ttl))
    warn (touch_session r c.app_id c.session_id stamp)
    done (record { access_token = access; refresh_token = refresh; id = c.user_id })

  -- The tests of RefreshSession on a token that has been parsed.
  unfoldable pub check_claims : Text → Claims → Action Db (Unit {0})
  check_claims old c = do
    guard (is_empty c.token_type || text_eq c.token_type type_refresh) invalid_token_type
    guard (not (is_empty c.session_id)) session_expired
    stored ← call (get_session_refresh_token r c.app_id c.session_id) session_revoked
    guard (text_eq stored old) refresh_token_revoked

  unfoldable pub refresh_session : Text → ℕ → ℕ → ℕ → Text → Action Db Issued
  refresh_session old access_ttl refresh_ttl now stamp = do
    c ← or_error (parse_token j now old) invalid_refresh_token
    check_claims old c
    rotate c access_ttl refresh_ttl now stamp

  unfoldable pub revoke_session : Text → Text → Text → Action Db (Unit {0})
  revoke_session app user sid = call (Sessions.delete_session r app sid user) failed_revoke

  unfoldable pub revoke_all_sessions : Text → Text → Text → Action Db (Unit {0})
  revoke_all_sessions app user except =
      call (delete_all_user_sessions r app user except) failed_revoke

  -- The end of LogoutSession: the access token is blacklisted for the time that it has left.
  unfoldable pub blacklist_rest : Text → Text → Text → ℕ → Db → Db
  blacklist_rest app user access now d = elim (parse_token j now access) [
    | none ↦ d
    | some c ↦
        if ltb now (c.expires_at * second)
        then (blacklist_access_token r app access user (c.expires_at * second - now) d).1
        else d
  ]

  unfoldable pub logout_session : Text → Text → Text → Text → ℕ → Action Db (Unit {0})
  logout_session app user sid access now = do
    call (Sessions.delete_session r app sid user) failed_revoke
    λ d. (success tt, if is_empty access then d else blacklist_rest app user access now d)

  unfoldable pub revoke_all_user_sessions : Text → Text → Action Db (Unit {0})
  revoke_all_user_sessions app user = do
    warn (delete_all_user_sessions r app user [])
    call (blacklist_all_user_tokens r app user (hour * (24 * 30))) failed_blacklist
