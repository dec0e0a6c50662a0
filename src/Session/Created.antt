-- ===== src/Session/Created.antt =====
-- A login: the access token that CreateSession issues is let through by AuthMiddleware.
use graaa_golang_auth_api.Common.{
  ℕ, ◌*◌, ◌<◌, ◌≡◌, refl, ◌∙◌, ◌⊎◌, true, false, Option, none, some, List, Text, codes, text_eq,
  is_empty, arith,
}
use graaa_golang_auth_api.Redis.Interface.{Reply, ok, failed, Entry, field, Redis, IsRedis}
use graaa_golang_auth_api.Redis.Keys.{
  session_key, blacklist_user_key, blacklist_token_key, blacklist_token-ne-session,
  blacklist_token-ne-user_sessions, blacklist_token-ne-all_sessions, blacklist_token-ne-meta,
  blacklist_token-ne-blacklist_user, session-ne-blacklist_user,
}
use graaa_golang_auth_api.Redis.Sessions as Sessions
use graaa_golang_auth_api.Redis.Sessions.{second, session_exists}
use graaa_golang_auth_api.Redis.Sessions.Lifecycle.{
  create_session_field, create_session-Keeps, Apart,
}
use graaa_golang_auth_api.Redis.Sessions.Revocation.{Answers, session_exists_live}
use graaa_golang_auth_api.Redis.Tokens.{
  clear_user_token_blacklist, found, is_access_token_blacklisted, is_user_tokens_blacklisted,
}
use graaa_golang_auth_api.Jwt.{
  Claims, Jwt, IsJwt, TokenConfig, access_claims, generate_access_token, generate_refresh_token,
  parse_token, effective_ttl,
}
use graaa_golang_auth_api.Session.{Result, success, Issued, create_session}
use graaa_golang_auth_api.Middleware.Auth.{
  AuthResponse, authenticated, token_validation_error, session_validation_error, check_session,
  check_server, check_token, auth_middleware, token_of_header,
}

token-Apart : (app user sid t : Text) → Apart app user sid (blacklist_token_key app t)
token-Apart app user sid t = record {
  user_index = blacklist_token-ne-user_sessions app user t;
  app_index = blacklist_token-ne-all_sessions app t;
  meta = blacklist_token-ne-meta app app user sid t;
}

-- The request is let through with these claims, or the server was lost on the way.
abbrev pub AcceptedOrLost : AuthResponse → Claims → Type 0
AcceptedOrLost response c =
    (response ≡ authenticated c)
    ⊎ (response ≡ token_validation_error)
    ⊎ (response ≡ session_validation_error)

entry_of_field : (f v : Text) (e : Option Entry) → field f e ≡ some v → (x : Entry) × (e ≡ some x)
entry_of_field f v none h = cc
entry_of_field f v (some x) h = (x, refl)

module _ (r : Redis) (laws : IsRedis r) where
  found_of_none :
      (key : Text) (d : r.Db)
      → r.entry d key ≡ none
      → (found (r.get key d) ≡ ok false) ⊎ (found (r.get key d) ≡ failed)
  found_of_none key d h = ground (arith, laws.get_absent key d h)

  -- A server on which nothing speaks against the claims lets them through.
  check_server_complete :
      (token : Text) (c : Claims) (e : Entry) (d : r.Db)
      → r.entry d (blacklist_token_key c.app_id token) ≡ none
      → r.entry d (blacklist_user_key c.app_id c.user_id) ≡ none
      → r.entry d (session_key c.app_id c.session_id) ≡ some e
      → AcceptedOrLost (check_server r token c d) c
  unfolding check_server check_session is_access_token_blacklisted is_user_tokens_blacklisted
  check_server_complete token c e d free_token free_user live = ground (
    arith,
    found_of_none (blacklist_token_key c.app_id token) d free_token,
    found_of_none (blacklist_user_key c.app_id c.user_id) d free_user,
    session_exists_live r laws c.app_id c.session_id e d live,
  )

module _ (r : Redis) (laws : IsRedis r) (up : Answers r) (j : Jwt) (cfg : TokenConfig)
    (app user ip user_agent sid : Text) (roles : List Text) (access_ttl refresh_ttl now : ℕ)
    (stamp : Text) (d : r.Db) where
  abbrev created : Result Issued × r.Db
  created =
      create_session r j cfg app user ip user_agent roles access_ttl refresh_ttl sid now stamp d

  abbrev stored : Text → Reply (Unit {0}) × r.Db
  stored refresh =
      Sessions.create_session r app sid user refresh ip user_agent stamp
        (effective_ttl refresh_ttl cfg.default_refresh_ttl) d

  -- Inversion of a creation that succeeds.
  create_session_parts :
      (o p : Option Text) (issued : Issued)
      → generate_access_token j cfg app user sid roles access_ttl now ≡ o
      → generate_refresh_token j cfg app user sid roles refresh_ttl now ≡ p
      → created.0 ≡ success issued
      → (o ≡ some issued.access_token)
        × ((stored issued.refresh_token).0 ≡ ok tt)
        × (created.1 ≡ (r.del (blacklist_user_key app user) (stored issued.refresh_token).1).1)
  unfolding create_session clear_user_token_blacklist
  create_session_parts none p issued e f h = absurd (ground arith)
  create_session_parts (some access) none issued e f h = absurd (ground arith)
  create_session_parts (some access) (some refresh) issued e f h =
      let written : (stored refresh).0 ≡ ok tt = ground arith in
      let same : refresh ≡ issued.refresh_token = ground arith in
      (ground arith, rw (← same) written, rw (← same) (rw (e, create_session) (rw f (rw written))))

  module _ (issued : Issued) (pos : 0 < effective_ttl refresh_ttl cfg.default_refresh_ttl)
      (h : created.0 ≡ success issued) where
    -- What the server holds once the session is created.
    created_state :
        r.entry d (blacklist_token_key app issued.access_token) ≡ none
        → (e : Entry) × (r.entry created.1 (session_key app sid) ≡ some e)
          × (r.entry created.1 (blacklist_user_key app user) ≡ none)
          × (r.entry created.1 (blacklist_token_key app issued.access_token) ≡ none)
    created_state free =
        let (_, written, state) =
          create_session_parts (generate_access_token j cfg app user sid roles access_ttl now)
            (generate_refresh_token j cfg app user sid roles refresh_ttl now) issued refl refl h in
        let key = blacklist_user_key app user in
        let d' = (stored issued.refresh_token).1 in
        let ttl = effective_ttl refresh_ttl cfg.default_refresh_ttl in
        let (e, live) = entry_of_field (codes "refresh_token") issued.refresh_token _ (
          create_session_field r laws app sid user issued.refresh_token ip user_agent stamp ttl pos
            d written) in
        (
          e,
          rw state (
              laws.del_other key d' (session_key app sid) (session-ne-blacklist_user app sid user)
              ∙ live),
          rw state (laws.del_ok key d' (up.del_answers key d')),
          rw state (
              laws.del_other key d' (blacklist_token_key app issued.access_token)
                (blacklist_token-ne-blacklist_user app user issued.access_token)
              ∙ (create_session-Keeps r laws app sid user issued.refresh_token ip user_agent stamp
                    ttl pos (blacklist_token-ne-session app sid issued.access_token)
                    (token-Apart app user sid issued.access_token)).at
                  d
              ∙ free),
        )

    -- The access token of a session that CreateSession has created is let through by AuthMiddleware
    -- before the instant in its claims, at any later state of the server that holds for the session,
    -- for the token and for the user what CreateSession left, so that the session has not expired
    -- there and nothing was revoked; unless a command is lost on the way, and where the token was not
    -- blacklisted before and the server answers DEL. A blacklist of the user's older tokens does not
    -- stand in its way.
    pub create_session-accepted :
        (signed : IsJwt j) (header : Text) (later : ℕ) (d' : r.Db)
        → r.entry d (blacklist_token_key app issued.access_token) ≡ none
        → r.entry d' (session_key app sid) ≡ r.entry created.1 (session_key app sid)
        → r.entry d' (blacklist_token_key app issued.access_token)
          ≡ r.entry created.1 (blacklist_token_key app issued.access_token)
        → r.entry d' (blacklist_user_key app user) ≡ r.entry created.1 (blacklist_user_key app user)
        → is_empty header ≡ false
        → token_of_header header ≡ issued.access_token
        → later < (access_claims cfg app user sid roles access_ttl now).expires_at * second
        → AcceptedOrLost
            (auth_middleware r j true header later d')
            (access_claims cfg app user sid roles access_ttl now)
    unfolding auth_middleware check_token generate_access_token parse_token access_claims text_eq
    create_session-accepted signed header later d' free same_session same_token same_user given
          carried fresh =
        let (e, live, free_user, free_token) = created_state free in
        let (sign, _, _) =
          create_session_parts (generate_access_token j cfg app user sid roles access_ttl now)
            (generate_refresh_token j cfg app user sid roles refresh_ttl now) issued refl refl h in
        let parsed = signed.verify_signed _ issued.access_token later sign fresh in
        rw given (
          rw carried (
            rw parsed (
              check_server_complete r laws issued.access_token
                (access_claims cfg app user sid roles access_ttl now) e d' (same_token ∙ free_token)
                (same_user ∙ free_user) (same_session ∙ live))))
