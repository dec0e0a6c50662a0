-- ===== src/Oidc/Minting/Blacklist.antt =====
-- Tokens minted for a user whose tokens are blacklisted.
use mathlib.Core.Path.{subst, sym}
use graaa_golang_auth_api.Common.{
  ℕ, ◌*◌, ◌<◌, ◌≡◌, refl, ◌≢◌, ◌∙◌, ap, Bool, Option, none, some, List, [], Text, codes, join,
  arith,
}
use graaa_golang_auth_api.Redis.Interface.{Reply, Entry, Redis, IsRedis}
use graaa_golang_auth_api.Redis.Keys.{
  app_key-tail, nth, blacklist_user_key, blacklist_user-ne-session, blacklist_user-ne-user_sessions,
  blacklist_user-ne-all_sessions, blacklist_user-ne-meta,
}
use graaa_golang_auth_api.Redis.Sessions.{second, create_session}
use graaa_golang_auth_api.Redis.Sessions.Lifecycle.{create_session-Keeps, Apart}
use graaa_golang_auth_api.Redis.Slots.{set_oidc_granted_scopes, oidc_granted_scopes_key}
use graaa_golang_auth_api.Jwt.{
  Jwt, IsJwt, Claims, TokenConfig, access_claims, generate_access_token, generate_refresh_token,
  parse_token,
}
use graaa_golang_auth_api.Password.{resolve_token_ttls}
use graaa_golang_auth_api.Flow.{Verdict, accept}
use graaa_golang_auth_api.Oidc.{Application, OidcClient, OidcError, User}
use graaa_golang_auth_api.Oidc.Minting.{Issuing, Tokens, session_ttl, mint_tokens_for_user}
use graaa_golang_auth_api.Middleware.Auth.{authenticated, auth_middleware, token_of_header}
use graaa_golang_auth_api.Middleware.Auth.Decision.{Cleared, auth_middleware_sound}

blacklist_user-ne-oidc_scopes :
    (a u s : Text) → oidc_granted_scopes_key a s ≢ blacklist_user_key a u
unfolding blacklist_user_key
blacklist_user-ne-oidc_scopes a u s h =
    omega
      (arith, ap (nth 1) (app_key-tail a (codes ":oidc_scopes:") s (codes ":blacklist_user:") u h))

user-Apart : (app user sid : Text) → Apart app user sid (blacklist_user_key app user)
user-Apart app user sid = record {
  user_index = blacklist_user-ne-user_sessions app user user;
  app_index = blacklist_user-ne-all_sessions app user;
  meta = blacklist_user-ne-meta app app user user sid;
}

module _ (r : Redis) (laws : IsRedis r) (j : Jwt) (cfg : TokenConfig) (i : Issuing)
    (app : Application) (client : OidcClient) (user : User) (roles scopes : List Text)
    (nonce : Text) (key : Option Text) (sid : Text) (now : ℕ) (stamp : Text) (d : r.Db) where
  abbrev minted : Verdict OidcError Tokens × r.Db
  minted = mint_tokens_for_user r j cfg i app client user roles scopes nonce key sid now stamp d

  abbrev stored : Text → Reply (Unit {0}) × r.Db
  stored refresh = create_session r app.id sid user.id refresh [] [] stamp (session_ttl cfg app) d

  minted_parts :
      (o p : Option Text) (tokens : Tokens)
      → generate_access_token j cfg app.id user.id sid roles
          (resolve_token_ttls (some app.settings)).0
          now
        ≡ o
      → generate_refresh_token j cfg app.id user.id sid roles
          (resolve_token_ttls (some app.settings)).1
          now
        ≡ p
      → minted.0 ≡ accept tokens
      → (o ≡ some tokens.access_token)
        × (refresh : Text) × (minted.1
            ≡ (set_oidc_granted_scopes r app.id sid
                (join (codes " ") scopes)
                (session_ttl cfg app)
                (stored refresh).1).1)
  unfolding mint_tokens_for_user
  minted_parts none p tokens e f h = absurd (ground (arith, e, h))
  minted_parts (some access) none tokens e f h = absurd (ground (arith, e, f, h))
  minted_parts (some access) (some refresh) tokens e f h =
      (ground (arith, e, f, h), refresh, ground (arith, e, f, h))

  minted_keeps :
      0 < session_ttl cfg app
      → (refresh : Text)
      → r.entry
          (set_oidc_granted_scopes r app.id sid
            (join (codes " ") scopes)
            (session_ttl cfg app)
            (stored refresh).1).1
          (blacklist_user_key app.id user.id)
        ≡ r.entry d (blacklist_user_key app.id user.id)
  unfolding set_oidc_granted_scopes
  minted_keeps pos refresh =
      laws.put_other _ _ _ _ _ (blacklist_user-ne-oidc_scopes app.id user.id sid)
      ∙ (create_session-Keeps r laws app.id sid user.id refresh [] [] stamp (session_ttl cfg app)
            pos (blacklist_user-ne-session app.id sid user.id) (user-Apart app.id user.id sid)).at
          d

  -- An access token that MintTokensForUser has just minted is not let through by AuthMiddleware where
  -- the tokens of its user were blacklisted before: minting does not lift the blacklist, as creating a
  -- session by CreateSession of the session service does.
  pub mint_tokens_for_user-blacklisted :
      (signed : IsJwt j) (tokens : Tokens) (e : Entry) (available : Bool) (header : Text)
      (later : ℕ) (c : Claims)
      → 0 < session_ttl cfg app
      → r.entry d (blacklist_user_key app.id user.id) ≡ some e
      → minted.0 ≡ accept tokens
      → token_of_header header ≡ tokens.access_token
      → later
        < (access_claims cfg app.id user.id sid roles
            (resolve_token_ttls (some app.settings)).0
            now).expires_at
          * second
      → auth_middleware r j available header later minted.1 ≢ authenticated c
  unfolding generate_access_token parse_token access_claims
  mint_tokens_for_user-blacklisted signed tokens e available header later c pos black h carried
        fresh passed =
      let (sign, refresh, state) =
        minted_parts
          (generate_access_token j cfg app.id user.id sid roles
            (resolve_token_ttls (some app.settings)).0 now)
          (generate_refresh_token j cfg app.id user.id sid roles
            (resolve_token_ttls (some app.settings)).1 now)
          tokens refl refl h in
      let accepted = auth_middleware_sound r laws j available header later minted.1 c passed in
      let parsed = signed.verify_signed _ tokens.access_token later sign fresh in
      let same : access_claims cfg app.id user.id sid roles
            (resolve_token_ttls (some app.settings)).0 now
          ≡ c =
        cc (parsed, accepted.parsed, carried) in
      let free =
        (subst (λ x. Cleared r (token_of_header header) x minted.1) (sym same)
          accepted.cleared).user_free in
      cc (minted_keeps pos refresh, state, free, black)
