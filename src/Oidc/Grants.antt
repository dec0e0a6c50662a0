-- ===== src/Oidc/Grants.antt =====
-- internal/oidc/handler.go: the three grants of the token endpoint. The request is bound, the
-- application loaded; activity log and metrics are left out.
use graaa_golang_auth_api.Common.{
  ℕ, ◌-◌, ◌*◌, not, Option, none, some, List, [], ◌∷◌, Text, codes, text_eq, any, join, fields, ltb,
  if◌then◌else◌,
}
use graaa_golang_auth_api.Redis.Interface.{Reply, ok, nil, failed, Redis}
use graaa_golang_auth_api.Redis.Sessions.{second}
use graaa_golang_auth_api.Redis.Tokens.{blacklist_access_token}
use graaa_golang_auth_api.Redis.Slots.{get_oidc_granted_scopes}
use graaa_golang_auth_api.Jwt.{Claims, Jwt, TokenConfig, parse_token, type_refresh}
use graaa_golang_auth_api.Database.{Fate}
use graaa_golang_auth_api.Flow.{accept, Flow, done, obtain, attempt, guard, ◌>>=◌, ◌>>◌}
use graaa_golang_auth_api.Oidc.{
  Application, OidcAuthCode, OidcError, Tables, Library, contains_scope, slice_contains,
  invalid_refresh_token, not_a_refresh_token, user_not_found, scope_not_granted,
}
use graaa_golang_auth_api.Oidc.Clients.{validate_client_credentials}
use graaa_golang_auth_api.Oidc.Codes.{get_user_by_id, ExchangeRequest, exchange_code}
use graaa_golang_auth_api.Oidc.Minting.{
  Issuing, Tokens, or_fail, mint_tokens_for_user, client_credentials_grant,
}

pub record TokenRequest : Type 0 where
  pub code : Text
  pub client_id : Text
  pub client_secret : Text
  pub redirect_uri : Text
  pub code_verifier : Text
  pub refresh_token : Text
  pub scope : Text

-- An empty refresh token is left out of the answer.
pub record TokenResponse : Type 0 where
  pub access_token : Text
  pub expires_in : ℕ
  pub id_token : Text
  pub refresh_token : Text
  pub scope : Text

-- A part of a call that reads and writes one of the two stores.
module _ {E S T A : Type 0} where
  abbrev pub on_tables : Flow E S A → Flow E (S × T) A
  on_tables m (s, t) = ((m s).0, ((m s).1, t))

  abbrev pub on_server : Flow E T A → Flow E (S × T) A
  on_server m (s, t) = ((m t).0, (s, (m t).1))

module _ (r : Redis) (j : Jwt) (cfg : TokenConfig) (i : Issuing) (lib : Library) (app : Application)
    (load_client load_code mark_code load_user : Fate) (roles : List Text) (key : Option Text)
    (sid : Text) (now : ℕ) (stamp : Text) where
  open r use {Db}

  abbrev pub exchange_request : TokenRequest → ExchangeRequest
  exchange_request q = record {
    code = q.code;
    client_id = q.client_id;
    redirect_uri = q.redirect_uri;
    code_verifier = q.code_verifier;
  }

  abbrev pub code_response : OidcAuthCode → Tokens → TokenResponse
  code_response ac minted = record {
    access_token = minted.access_token;
    expires_in = minted.expires_in;
    id_token = minted.id_token;
    refresh_token =
        if contains_scope ac.scopes (codes "offline_access") then minted.refresh_token else [];
    scope = ac.scopes;
  }

  unfoldable pub handle_auth_code_grant : TokenRequest → Flow OidcError (Tables × Db) TokenResponse
  handle_auth_code_grant q = do
    client ← on_tables (validate_client_credentials lib load_client q.client_id q.client_secret)
    exchanged ← on_tables (exchange_code lib load_code mark_code load_user (exchange_request q) now)
    minted ← on_server (
        mint_tokens_for_user r j cfg i app client exchanged.1 roles (fields exchanged.0.scopes)
          exchanged.0.nonce key sid now stamp)
    done (code_response exchanged.0 minted)

  unfoldable pub handle_client_credentials_grant :
      TokenRequest → Flow OidcError (Tables × Db) TokenResponse
  handle_client_credentials_grant q (t, d) =
      on_server
        (do
          issued ←
              client_credentials_grant r j cfg i lib t load_client app q.client_id q.client_secret
                sid now stamp
          done (record {
            access_token = issued.0;
            expires_in = issued.1;
            id_token = [];
            refresh_token = [];
            scope = q.scope;
          }))
        (t, d)

  -- The old token is blacklisted for the time that it has left.
  unfoldable pub blacklist_old : Text → Claims → Db → Reply (Unit {0}) × Db
  blacklist_old token c d =
      if ltb now (c.expires_at * second)
      then blacklist_access_token r app.id token c.user_id (c.expires_at * second - now) d
      else (ok tt, d)

  abbrev pub granted : Reply Text → List Text
  granted (ok scopes) = fields scopes
  granted nil = []
  granted failed = []

  abbrev standard_scopes : List Text
  standard_scopes = codes "openid" ∷ codes "profile" ∷ codes "email" ∷ []

  -- The scopes of the new tokens: those that are asked for, each among the original ones where these
  -- are known, or the original ones.
  unfoldable pub refreshed_scopes : List Text → List Text → Option (List Text)
  refreshed_scopes [] [] = some standard_scopes
  refreshed_scopes (s ∷ original) [] = some (s ∷ original)
  refreshed_scopes [] (q ∷ requested) = some (q ∷ requested)
  refreshed_scopes (s ∷ original) (q ∷ requested) =
      if any (λ x. not (slice_contains (s ∷ original) x)) (q ∷ requested)
      then none
      else some (q ∷ requested)

  unfoldable pub handle_refresh_token_grant :
      TokenRequest → Flow OidcError (Tables × Db) TokenResponse
  handle_refresh_token_grant q = do
    client ← on_tables (validate_client_credentials lib load_client q.client_id q.client_secret)
    c ← or_fail (parse_token j now q.refresh_token) invalid_refresh_token
    guard (text_eq c.token_type type_refresh) not_a_refresh_token
    on_server (attempt (blacklist_old q.refresh_token c))
    user ← on_tables (obtain (get_user_by_id load_user c.user_id) user_not_found user_not_found)
    original ← λ s. (accept (granted (get_oidc_granted_scopes r app.id c.session_id s.1).0), s)
    scopes ← or_fail (refreshed_scopes original (fields q.scope)) scope_not_granted
    minted ←
        on_server (mint_tokens_for_user r j cfg i app client user roles scopes [] key sid now stamp)
    done (record {
      access_token = minted.access_token;
      expires_in = minted.expires_in;
      id_token = minted.id_token;
      refresh_token = minted.refresh_token;
      scope = join (codes " ") scopes;
    })
