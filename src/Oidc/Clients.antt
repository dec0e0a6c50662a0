-- ===== src/Oidc/Clients.antt =====
-- internal/oidc/service.go: the clients and their secrets; `validateClientCredentials` of handler.go.
-- Fresh identifiers and secrets are arguments.
pub mod Admission
use graaa_golang_auth_api.Common.{
  Bool, true, false, not, ◌&&◌, ◌||◌, Option, none, some, List, ◌∷◌, Text, codes, text_eq, is_empty,
  any, if◌then◌else◌,
}
use graaa_golang_auth_api.Redis.Interface.{Reply, ok, nil, failed}
use graaa_golang_auth_api.Database.{
  Fate, served, refused, lost, first_where, first, first_reply, update_where, delete_where, written,
  write_reply,
}
use graaa_golang_auth_api.Flow.{Flow, done, obtain, call, guard, ◌>>=◌, ◌>>◌}
use graaa_golang_auth_api.Oidc.{
  OidcClient, Tables, Library, OidcError, contains_scope, slice_contains, is_redirect_uri_allowed,
  unknown_client, client_disabled, unsupported_response_type, redirect_uri_not_allowed,
  missing_openid, scope_not_allowed, code_challenge_required, database_error, client_id_required,
  client_secret_required, invalid_client_secret,
}

abbrev pub has_client_id : Text → OidcClient → Bool
has_client_id client_id c = text_eq c.client_id client_id

abbrev pub has_id : Text → OidcClient → Bool
has_id id c = text_eq c.id id

unfoldable pub get_client_by_client_id : Fate → Text → Tables → Reply OidcClient
get_client_by_client_id fate client_id t = first fate (has_client_id client_id) t.clients

unfoldable pub get_client_by_id : Fate → Text → Tables → Reply OidcClient
get_client_by_id fate id t = first fate (has_id id) t.clients

-- The insert, which the unique index on client_id may refuse.
unfoldable pub insert_client : Fate → OidcClient → Tables → Reply (Unit {0}) × Tables
insert_client fate c t =
    if any (has_client_id c.client_id) t.clients
    then (failed, t)
    else (write_reply fate, record t { clients = written fate t.clients (c ∷ t.clients) })

-- `Save`, by the primary key.
unfoldable pub save_client : Fate → OidcClient → Tables → Reply (Unit {0}) × Tables
save_client fate c t = (
  write_reply fate,
  record t { clients = written fate t.clients (update_where (has_id c.id) (λ _. c) t.clients) },
)

unfoldable pub delete_client : Fate → Text → Tables → Reply (Unit {0}) × Tables
delete_client fate id t = (
  write_reply fate,
  record t { clients = written fate t.clients (delete_where (has_id id) t.clients) },
)

-- What a caller asks of a new client.
pub record ClientRequest : Type 0 where
  pub app_id : Text
  pub name : Text
  pub description : Text
  pub redirect_uris : Text
  pub grant_types : Text
  pub scopes : Text
  pub require_consent : Bool
  pub is_confidential : Bool
  pub pkce_required : Bool
  pub logo_url : Text
  pub login_theme : Text
  pub login_primary_color : Text

unfoldable pub new_client : Library → Text → Text → Text → ClientRequest → OidcClient
new_client lib id client_id plain_secret q = record {
  id = id;
  app_id = q.app_id;
  name = q.name;
  description = q.description;
  client_id = client_id;
  client_secret_hash = lib.hash_secret plain_secret;
  redirect_uris = q.redirect_uris;
  allowed_grant_types = q.grant_types;
  allowed_scopes = q.scopes;
  require_consent = q.require_consent;
  is_confidential = q.is_confidential;
  pkce_required = q.pkce_required;
  logo_url = q.logo_url;
  login_theme = if is_empty q.login_theme then codes "auto" else q.login_theme;
  login_primary_color = q.login_primary_color;
  is_active = true;
}

-- The parameters of UpdateClient: an empty text or an absent flag keeps what is there.
pub record ClientChange : Type 0 where
  pub name : Text
  pub description : Text
  pub redirect_uris : Text
  pub grant_types : Text
  pub scopes : Text
  pub logo_url : Text
  pub login_theme : Text
  pub login_primary_color : Text
  pub require_consent : Option Bool
  pub is_confidential : Option Bool
  pub pkce_required : Option Bool
  pub is_active : Option Bool

abbrev changed : Text → Text → Text
changed new old = if is_empty new then old else new

abbrev flagged : Option Bool → Bool → Bool
flagged none old = old
flagged (some new) old = new

unfoldable pub apply_change : ClientChange → OidcClient → OidcClient
apply_change u c = record c {
  name = changed u.name c.name;
  description = changed u.description c.description;
  redirect_uris = changed u.redirect_uris c.redirect_uris;
  allowed_grant_types = changed u.grant_types c.allowed_grant_types;
  allowed_scopes = changed u.scopes c.allowed_scopes;
  logo_url = changed u.logo_url c.logo_url;
  login_theme = changed u.login_theme c.login_theme;
  login_primary_color = u.login_primary_color;
  require_consent = flagged u.require_consent c.require_consent;
  is_confidential = flagged u.is_confidential c.is_confidential;
  pkce_required = flagged u.pkce_required c.pkce_required;
  is_active = flagged u.is_active c.is_active;
}

unfoldable pub update_client : Fate → Fate → Text → ClientChange → Flow OidcError Tables OidcClient
update_client load save id u = do
  client ← obtain (get_client_by_id load id) unknown_client database_error
  call (save_client save (apply_change u client)) database_error
  done (apply_change u client)

module _ (lib : Library) where
  -- The client, and its secret in plain text.
  unfoldable pub create_client :
      Fate → Text → Text → Text → ClientRequest → Flow OidcError Tables (OidcClient × Text)
  create_client save id client_id plain q = do
    call (insert_client save (new_client lib id client_id plain q)) database_error
    done (new_client lib id client_id plain q, plain)

  abbrev pub with_secret : Text → OidcClient → OidcClient
  with_secret plain c = record c { client_secret_hash = lib.hash_secret plain }

  unfoldable pub rotate_client_secret :
      Fate → Fate → Text → Text → Flow OidcError Tables (OidcClient × Text)
  rotate_client_secret load save id plain = do
    client ← obtain (get_client_by_id load id) unknown_client database_error
    call (save_client save (with_secret plain client)) database_error
    done (with_secret plain client, plain)

  unfoldable pub validate_client_credentials : Fate → Text → Text → Flow OidcError Tables OidcClient
  validate_client_credentials load client_id secret = do
    guard (not (is_empty client_id)) client_id_required
    client ← obtain (get_client_by_client_id load client_id) unknown_client unknown_client
    guard client.is_active client_disabled
    guard (not (client.is_confidential && is_empty secret)) client_secret_required
    guard (not client.is_confidential || lib.matches_hash client.client_secret_hash secret)
        invalid_client_secret
    done client

unfoldable pub validate_auth_request :
    Fate → Text → Text → Text → List Text → Text → Flow OidcError Tables OidcClient
validate_auth_request load client_id redirect_uri response_type scopes code_challenge = do
  client ← obtain (get_client_by_client_id load client_id) unknown_client database_error
  guard client.is_active client_disabled
  guard (text_eq response_type (codes "code")) unsupported_response_type
  guard (is_redirect_uri_allowed client.redirect_uris redirect_uri) redirect_uri_not_allowed
  guard
      (contains_scope client.allowed_scopes (codes "openid")
        && slice_contains scopes (codes "openid"))
      missing_openid
  guard (not (any (λ s. not (contains_scope client.allowed_scopes s)) scopes)) scope_not_allowed
  guard (not (not client.is_confidential && is_empty code_challenge)) code_challenge_required
  done client
