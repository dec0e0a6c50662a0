-- ===== src/Session/Revoked.antt =====
-- A logout or a revocation, seen by AuthMiddleware.
use mathlib.Core.Path.{subst}
use graaa_golang_auth_api.Common.{
  ℕ, ◌*◌, ◌-◌, ◌≡◌, refl, ◌≢◌, ◌∙◌, inl, inr, Bool, false, Option, none, some, [], Text, codes,
  is_empty, ltb, arith, Bool-cases,
}
use graaa_golang_auth_api.Redis.Interface.{Reply, ok, Redis, IsRedis}
use graaa_golang_auth_api.Redis.Keys.{
  session_key, blacklist_user_key, blacklist_token_key, session-ne-blacklist_token,
}
use graaa_golang_auth_api.Redis.Sessions as Sessions
use graaa_golang_auth_api.Redis.Sessions.{second, hour, delete_all_user_sessions}
use graaa_golang_auth_api.Redis.Sessions.Lifecycle.{delete_session_gone}
use graaa_golang_auth_api.Redis.Tokens.{blacklist_access_token, blacklist_all_user_tokens}
use graaa_golang_auth_api.Jwt.{Claims, Jwt, TokenConfig, parse_token}
use graaa_golang_auth_api.Session.{
  AppError, success, or_error_reply, failed_blacklist, blacklist_rest, logout_session,
  revoke_all_user_sessions,
}
use graaa_golang_auth_api.Middleware.Auth.{authenticated, auth_middleware, token_of_header}
use graaa_golang_auth_api.Middleware.Auth.Decision.{Cleared, auth_middleware_sound}

or_error_reply-success :
    (x : Reply (Unit {0})) (e : AppError) → or_error_reply x e ≡ success tt → x ≡ ok tt
or_error_reply-success x e h = ground arith

module _ (r : Redis) (laws : IsRedis r) (j : Jwt) where
  -- What lets a token through is said of the claims that it parses to.
  cleared_of :
      (available : Bool) (header : Text) (now : ℕ) (d : r.Db) (c c' : Claims)
      → parse_token j now (token_of_header header) ≡ some c
      → auth_middleware r j available header now d ≡ authenticated c'
      → Cleared r (token_of_header header) c d
  cleared_of available header now d c c' parsed h =
      let accepted = auth_middleware_sound r laws j available header now d c' h in
      let same : c' ≡ c = cc (parsed, accepted.parsed) in
      subst (λ x. Cleared r (token_of_header header) x d) same accepted.cleared

  -- A token of a session that is gone is not let through.
  rejects_of_gone :
      (available : Bool) (header : Text) (now : ℕ) (d : r.Db) (c c' : Claims)
      → parse_token j now (token_of_header header) ≡ some c
      → is_empty c.session_id ≡ false
      → r.entry d (session_key c.app_id c.session_id) ≡ none
      → auth_middleware r j available header now d ≢ authenticated c'
  rejects_of_gone available header now d c c' parsed named gone h =
      elim ((cleared_of available header now d c c' parsed h).session_live) [
        | inl legacy ↦ cc
        | inr live ↦ live gone
      ]

module _ (r : Redis) (laws : IsRedis r) (j : Jwt) (cfg : TokenConfig) where
  blacklist_claims :
      (app user access sid : Text) (now : ℕ) (d : r.Db) (o : Option Claims)
      → parse_token j now access ≡ o
      → r.entry (blacklist_rest r j cfg app user access now d) (session_key app sid)
        ≡ r.entry d (session_key app sid)
  unfolding blacklist_rest blacklist_access_token
  blacklist_claims app user access sid now d none e = rw (e, blacklist_rest)
  blacklist_claims app user access sid now d (some c) e =
      rw (e, blacklist_rest)
        (elim (Bool-cases (ltb now (c.expires_at * second))) [
          | inl left ↦ rw left (
              laws.put_other (blacklist_token_key app access) user (c.expires_at * second - now) d
                (session_key app sid) (session-ne-blacklist_token app sid access))
          | inr over ↦ rw over
        ])

  -- After LogoutSession has succeeded, the session has no entry.
  logout_session_gone :
      (app user sid access : Text) (now : ℕ) (d : r.Db)
      → (logout_session r j cfg app user sid access now d).0 ≡ success tt
      → r.entry (logout_session r j cfg app user sid access now d).1 (session_key app sid) ≡ none
  unfolding logout_session
  logout_session_gone app user sid access now d h =
      let deleted : (Sessions.delete_session r app sid user d).0 ≡ ok tt = ground arith in
      let gone = delete_session_gone r laws app sid user d deleted in
      rw deleted (elim (Bool-cases (is_empty access)) [
        | inl nothing ↦ rw nothing gone
        | inr given ↦
            rw given
              (blacklist_claims app user access sid now _ (parse_token j now access) refl ∙ gone)
      ])

  -- After a logout that succeeded AuthMiddleware lets no token of that session through, at any
  -- later time at which the server holds what the logout left.
  pub logout_session-rejects :
      (user access : Text) (now later : ℕ) (d : r.Db) (available : Bool) (header : Text)
      (c c' : Claims)
      → parse_token j later (token_of_header header) ≡ some c
      → is_empty c.session_id ≡ false
      → (logout_session r j cfg c.app_id user c.session_id access now d).0 ≡ success tt
      → auth_middleware r j available header later
          (logout_session r j cfg c.app_id user c.session_id access now d).1
        ≢ authenticated c'
  logout_session-rejects user access now later d available header c c' parsed named h =
      rejects_of_gone r laws j available header later _ c c' parsed named
        (logout_session_gone c.app_id user c.session_id access now d h)

  -- After RevokeAllUserSessions has succeeded AuthMiddleware lets no token of that user and app
  -- through, whatever became of the user's sessions.
  pub revoke_all_user_sessions-rejects :
      (later : ℕ) (d : r.Db) (available : Bool) (header : Text) (c c' : Claims)
      → parse_token j later (token_of_header header) ≡ some c
      → (revoke_all_user_sessions r j cfg c.app_id c.user_id d).0 ≡ success tt
      → auth_middleware r j available header later
          (revoke_all_user_sessions r j cfg c.app_id c.user_id d).1
        ≢ authenticated c'
  unfolding revoke_all_user_sessions blacklist_all_user_tokens
  revoke_all_user_sessions-rejects later d available header c c' parsed h refused =
      let d' = (delete_all_user_sessions r c.app_id c.user_id [] d).1 in
      let key = blacklist_user_key c.app_id c.user_id in
      let ttl = hour * (24 * 30) in
      let stored =
        or_error_reply-success (r.put key (codes "all_tokens_revoked") ttl d').0 failed_blacklist
          h in
      cc (
        laws.put_ok key (codes "all_tokens_revoked") ttl d' stored,
        (cleared_of r laws j available header later _ c c' parsed refused).user_free,
      )
