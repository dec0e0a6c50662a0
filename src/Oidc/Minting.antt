-- ===== src/Oidc/Minting.antt =====
-- internal/oidc/service.go: MintTokensForUser and ClientCredentialsGrant. The signer of ID tokens, the
-- hash in them and PUBLIC_URL are parameters; the outcome of GetOrCreateRSAKey is an argument, like the
-- fresh session identifier.
pub mod Blacklist
use graaa_golang_auth_api.Common.{
  ℕ, ◌*◌, ◌/◌, Bool, true, false, Option, none, some, List, [], ◌∷◌, ◌++◌, Text, codes, is_empty,
  join, ltb, ◌==◌, if◌then◌else◌,
}
use graaa_golang_auth_api.Redis.Interface.{Reply, Redis}
use graaa_golang_auth_api.Redis.Sessions.{second, hour, create_session}
use graaa_golang_auth_api.Redis.Slots.{set_oidc_granted_scopes}
use graaa_golang_auth_api.Jwt.{
  Jwt, TokenConfig, generate_access_token, generate_refresh_token, effective_ttl,
}
use graaa_golang_auth_api.Password.{resolve_token_ttls}
use graaa_golang_auth_api.Database.{Fate}
use graaa_golang_auth_api.Flow.{
  Verdict, accept, reject, Flow, done, answer, obtain, call, attempt, guard, ◌>>=◌, ◌>>◌,
}
use graaa_golang_auth_api.Oidc.{
  Application, OidcClient, OidcError, User, Tables, Library, contains_grant_type, token_failed,
  session_failed, key_failed, unknown_client, client_disabled, database_error,
  grant_type_not_allowed, invalid_client_secret,
}
use graaa_golang_auth_api.Oidc.Clients.{get_client_by_client_id}
use graaa_golang_auth_api.Oidc.IdToken.{IdTokenClaims, MintIdTokenParams, id_token_claims}

-- `sign_id` takes the key of the application; `default_id_minutes` is OIDC_ID_TOKEN_EXPIRATION_MINUTES
-- and `public_url` is PUBLIC_URL without the slashes at its end.
pub record Issuing : Type 0 where
  pub sign_id : Text → IdTokenClaims → Option Text
  pub hash_half : Text → Text
  pub default_id_minutes : ℕ
  pub public_url : Text

pub record Tokens : Type 0 where
  pub access_token : Text
  pub refresh_token : Text
  pub id_token : Text
  pub expires_in : ℕ

abbrev pub or_fail : {E S A : Type 0} → Option A → E → Flow E S A
or_fail none e s = (reject e, s)
or_fail (some a) e s = (accept a, s)

abbrev positive : ℕ → ℕ → ℕ
positive n default = if ltb 0 n then n else default

unfoldable pub issuer_url : Issuing → Application → Text
issuer_url i app =
    if is_empty app.oidc_issuer_url
    then i.public_url ++ (codes "/oidc/" ++ app.id)
    else app.oidc_issuer_url

unfoldable pub session_ttl : TokenConfig → Application → ℕ
session_ttl cfg app =
    positive (effective_ttl (resolve_token_ttls (some app.settings)).1 cfg.default_refresh_ttl)
      (720 * hour)

unfoldable pub expires_in_seconds : TokenConfig → Application → ℕ
expires_in_seconds cfg app =
    positive ((resolve_token_ttls (some app.settings)).0 / second)
      (positive (cfg.default_access_ttl / second) 900)

unfoldable pub id_params :
    Issuing
    → Application
    → OidcClient
    → User
    → List Text
    → List Text
    → Text
    → Text
    → MintIdTokenParams
id_params i app client user roles scopes nonce access = record {
  issuer = issuer_url i app;
  audience = client.client_id;
  user = user;
  roles = roles;
  scopes = scopes;
  nonce = nonce;
  access_token = access;
  ttl = second * positive app.oidc_id_token_ttl (positive (i.default_id_minutes * 60) 3600);
}

module _ (r : Redis) (j : Jwt) (cfg : TokenConfig) (i : Issuing) where
  open r use {Db}

  unfoldable pub mint_tokens_for_user :
      Application
      → OidcClient
      → User
      → List Text
      → List Text
      → Text
      → Option Text
      → Text
      → ℕ
      → Text
      → Flow OidcError Db Tokens
  mint_tokens_for_user app client user roles scopes nonce key sid now stamp = do
    access ←
        or_fail
          (generate_access_token j cfg app.id user.id sid roles
            (resolve_token_ttls (some app.settings)).0 now)
          token_failed
    refresh ←
        or_fail
          (generate_refresh_token j cfg app.id user.id sid roles
            (resolve_token_ttls (some app.settings)).1 now)
          token_failed
    call (create_session r app.id sid user.id refresh [] [] stamp (session_ttl cfg app))
        session_failed
    attempt (set_oidc_granted_scopes r app.id sid (join (codes " ") scopes) (session_ttl cfg app))
    rsa_key ← or_fail key key_failed
    id_token ←
        or_fail
          (i.sign_id rsa_key (
            id_token_claims i.hash_half (id_params i app client user roles scopes nonce access)
              now))
          token_failed
    done (record {
      access_token = access;
      refresh_token = refresh;
      id_token = id_token;
      expires_in = expires_in_seconds cfg app;
    })

  -- The access token, and the seconds that it is good for. `t` holds the clients.
  unfoldable pub client_credentials_grant :
      Library
      → Tables
      → Fate
      → Application
      → Text
      → Text
      → Text
      → ℕ
      → Text
      → Flow OidcError Db (Text × ℕ)
  client_credentials_grant lib t load app client_id secret sid now stamp = do
    client ← obtain (λ d. get_client_by_client_id load client_id t) unknown_client database_error
    guard client.is_active client_disabled
    guard (contains_grant_type client.allowed_grant_types (codes "client_credentials"))
        grant_type_not_allowed
    guard (lib.matches_hash client.client_secret_hash secret) invalid_client_secret
    access ←
        or_fail
          (generate_access_token j cfg app.id client.id sid []
            (resolve_token_ttls (some app.settings)).0 now)
          token_failed
    attempt (create_session r app.id sid client.id [] [] [] stamp (session_ttl cfg app))
    done (access, expires_in_seconds cfg app)
