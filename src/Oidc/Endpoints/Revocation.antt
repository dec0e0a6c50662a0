-- ===== src/Oidc/Endpoints/Revocation.antt =====
-- Tokens that were revoked, and users who were logged out, seen by AuthMiddleware.
use mathlib.Core.Path.{subst}
use graaa_golang_auth_api.Common.{
  ℕ, ◌-◌, ◌*◌, ◌≡◌, refl, ◌≢◌, Bool, true, false, some, List, [], Text, codes, text_eq_refl, arith,
}
use graaa_golang_auth_api.Redis.Interface.{ok, Redis, IsRedis}
use graaa_golang_auth_api.Redis.Keys.{blacklist_user_key, blacklist_token_key}
use graaa_golang_auth_api.Redis.Sessions.{second, delete_all_user_sessions}
use graaa_golang_auth_api.Redis.Tokens.{blacklist_access_token, blacklist_all_user_tokens}
use graaa_golang_auth_api.Jwt.{Claims, Jwt, IsJwt, TokenConfig, parse_token}
use graaa_golang_auth_api.Database.{Fate}
use graaa_golang_auth_api.Oidc.{Application, OidcClient, Tables, Library}
use graaa_golang_auth_api.Oidc.Endpoints.{revoke, end_session, drop_browser_session, revoke_user}
use graaa_golang_auth_api.Middleware.Auth.{authenticated, auth_middleware, token_of_header}
use graaa_golang_auth_api.Middleware.Auth.Decision.{Cleared, auth_middleware_sound}

module _ (r : Redis) (laws : IsRedis r) (j : Jwt) (signed : IsJwt j) (app : Application) where
  -- What lets a token through is said of the claims that it parsed to before.
  cleared_of :
      (available : Bool) (header token : Text) (now later : ℕ) (d : r.Db) (c c' : Claims)
      → token_of_header header ≡ token
      → parse_token j now token ≡ some c
      → auth_middleware r j available header later d ≡ authenticated c'
      → Cleared r token c d
  unfolding parse_token
  cleared_of available header token now later d c c' carried parsed h =
      let accepted = auth_middleware_sound r laws j available header later d c' h in
      let same : c' ≡ c =
        signed.verify_agrees token later now c' c (rw (← carried) accepted.parsed) parsed in
      subst (λ x. Cleared r token x d) same (rw (← carried) accepted.cleared)

  -- A token that the revocation endpoint has blacklisted is not let through by AuthMiddleware at any
  -- later time at which the server holds what the revocation left: the token is one of the
  -- application, the caller authenticates or gives no client_id, and Redis answers the write.
  pub revoke-rejects :
      (lib : Library) (load : Fate) (client_id secret token : Text) (now later : ℕ) (t : Tables)
      (d : r.Db) (available : Bool) (header : Text) (c c' : Claims)
      → parse_token j now token ≡ some c
      → c.app_id ≡ app.id
      → (revoke r j lib load app client_id secret token now t d).0 ≡ true
      → (blacklist_access_token r app.id token c.user_id (c.expires_at * second - now) d).0 ≡ ok tt
      → token_of_header header ≡ token
      → auth_middleware r j available header later
          (revoke r j lib load app client_id secret token now t d).1
        ≢ authenticated c'
  unfolding revoke blacklist_access_token
  revoke-rejects lib load client_id secret token now later t d available header c c' parsed own
        granted stored carried passed =
      let d' =
        (r.put (blacklist_token_key app.id token) c.user_id (c.expires_at * second - now) d).1 in
      let left : (revoke r j lib load app client_id secret token now t d).1 ≡ d' =
        ground (arith, granted, parsed, own, text_eq_refl app.id) in
      let free =
        (cleared_of available header token now later d' c c' carried parsed
          (rw left at passed)).token_free in
      cc (
        rw own at free,
        laws.put_ok (blacklist_token_key app.id token) c.user_id (c.expires_at * second - now) d
            stored,
      )

  -- After EndSession has logged out the subject of an ID token, AuthMiddleware lets no token of that
  -- user and application through, where Redis answers the write of the blacklist.
  pub end_session-rejects :
      (cfg : TokenConfig) (user cookie uri : Text) (clients : List OidcClient) (later : ℕ)
      (d : r.Db) (available : Bool) (header : Text) (c c' : Claims)
      → parse_token j later (token_of_header header) ≡ some c
      → c.app_id ≡ app.id
      → c.user_id ≡ user
      → (blacklist_all_user_tokens r app.id user cfg.default_access_ttl
          (delete_all_user_sessions r app.id user [] (drop_browser_session r j app cookie d)).1).0
        ≡ ok tt
      → auth_middleware r j available header later
          (end_session r j cfg app false (some user) cookie uri clients d).1
        ≢ authenticated c'
  unfolding end_session revoke_user blacklist_all_user_tokens
  end_session-rejects cfg user cookie uri clients later d available header c c' parsed own same
        stored passed =
      let key = blacklist_user_key app.id user in
      let d' =
        (delete_all_user_sessions r app.id user [] (drop_browser_session r j app cookie d)).1 in
      let free =
        (cleared_of available header (token_of_header header) later later _ c c' refl parsed
          passed).user_free in
      let held = laws.put_ok key (codes "all_tokens_revoked") cfg.default_access_ttl d' stored in
      cc (rw (own, same) at free, held)
