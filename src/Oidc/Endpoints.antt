-- ===== src/Oidc/Endpoints.antt =====
-- internal/oidc/service.go and handler.go: the endpoints that take a token, UserInfo, Introspect,
-- Revoke, and EndSession. The application is loaded and the request bound; the ID token is checked by
-- the library, the redirect built by package net/url.
pub mod Revocation
use graaa_golang_auth_api.Common.{
  ℕ, ◌-◌, ◌*◌, Bool, true, false, not, ◌&&◌, ◌||◌, Option, none, some, List, [], ◌∷◌, Text, codes,
  text_eq, is_empty, any, fields, ltb, if◌then◌else◌,
}
use graaa_golang_auth_api.Redis.Interface.{Reply, ok, nil, failed, Redis}
use graaa_golang_auth_api.Redis.Sessions.{second, delete_all_user_sessions}
use graaa_golang_auth_api.Redis.Tokens.{blacklist_access_token, blacklist_all_user_tokens}
use graaa_golang_auth_api.Redis.Slots.{
  get_oidc_granted_scopes, get_oidc_browser_session, delete_oidc_browser_session,
}
use graaa_golang_auth_api.Jwt.{Claims, Jwt, TokenConfig, parse_token}
use graaa_golang_auth_api.Database.{Fate}
use graaa_golang_auth_api.Flow.{Verdict, accept, reject}
use graaa_golang_auth_api.Oidc.{
  Application, OidcClient, OidcError, User, Tables, Library, is_redirect_uri_allowed,
  slice_contains, invalid_token, user_not_found,
}
use graaa_golang_auth_api.Oidc.Clients.{validate_client_credentials}
use graaa_golang_auth_api.Oidc.Codes.{get_user_by_id}
use graaa_golang_auth_api.Oidc.Minting.{Issuing, issuer_url}

pub data Introspection : Type 0 where
  invalid_client inactive : Introspection
  active : Text → Text → Text → ℕ → ℕ → Introspection

-- What EndSession answers.
pub data LogoutPage : Type 0 where
  hint_error : LogoutPage
  signed_out : LogoutPage
  redirected : Text → LogoutPage

module _ (r : Redis) (j : Jwt) where
  open r use {Db}

  abbrev stored_or : List Text → Reply Text → List Text
  stored_or fallback (ok scopes) = if is_empty scopes then fallback else fields scopes
  stored_or fallback nil = fallback
  stored_or fallback failed = fallback

  abbrev scopes_of : Option Claims → List Text → Db → Option (List Text)
  scopes_of none fallback d = none
  scopes_of (some c) fallback d =
      if is_empty c.session_id || is_empty c.app_id
      then some fallback
      else some (stored_or fallback (get_oidc_granted_scopes r c.app_id c.session_id d).0)

  unfoldable pub get_granted_scopes : Text → List Text → ℕ → Db → Option (List Text)
  get_granted_scopes token fallback now d = scopes_of (parse_token j now token) fallback d

  abbrev pub of_own_app : Application → Reply User → Verdict OidcError User
  of_own_app app nil = reject user_not_found
  of_own_app app failed = reject user_not_found
  of_own_app app (ok u) = if text_eq u.app_id app.id then accept u else reject invalid_token

  abbrev pub user_of : Option Claims → Application → Fate → Tables → Verdict OidcError User
  user_of none app load t = reject invalid_token
  user_of (some c) app load t = of_own_app app (get_user_by_id load c.user_id t)

  unfoldable pub get_user_info : Application → Text → ℕ → Fate → Tables → Verdict OidcError User
  get_user_info app token now load t = user_of (parse_token j now token) app load t

  abbrev pub introspected : Issuing → Application → Option Claims → Introspection
  introspected i app none = inactive
  introspected i app (some c) =
      if text_eq c.app_id app.id
      then active c.user_id (issuer_url i app)
          (if is_empty c.token_type then codes "Bearer" else c.token_type) c.expires_at c.issued_at
      else inactive

  abbrev for_caller : Verdict OidcError OidcClient → Introspection → Introspection
  for_caller (accept client) answer = answer
  for_caller (reject e) answer = invalid_client

  unfoldable pub introspect :
      Library → Issuing → Fate → Application → Text → Text → Text → ℕ → Tables → Introspection
  introspect lib i load app client_id secret token now t =
      for_caller (validate_client_credentials lib load client_id secret t).0
        (introspected i app (parse_token j now token))

  abbrev pub blacklisted : Application → Text → Option Claims → ℕ → Db → Db
  blacklisted app token none now d = d
  blacklisted app token (some c) now d =
      if text_eq c.app_id app.id
      then (blacklist_access_token r app.id token c.user_id (c.expires_at * second - now) d).1
      else d

  abbrev allowed_caller : Verdict OidcError OidcClient → Bool
  allowed_caller (accept client) = true
  allowed_caller (reject e) = false

  -- False is the answer 401, true the answer 200.
  unfoldable pub revoke :
      Library → Fate → Application → Text → Text → Text → ℕ → Tables → Db → Bool × Db
  revoke lib load app client_id secret token now t d =
      if is_empty client_id
        || allowed_caller (validate_client_credentials lib load client_id secret t).0
      then (true, blacklisted app token (parse_token j now token) now d)
      else (false, d)

  -- The user to log out: the subject of the ID token, or the user of the browser's session.
  abbrev logout_user : Option Text → Reply Text → Option Text
  logout_user (some subject) browser = some subject
  logout_user none nil = none
  logout_user none failed = none
  logout_user none (ok user) = if is_empty user then none else some user

  unfoldable pub drop_browser_session : Application → Text → Db → Db
  drop_browser_session app cookie d =
      if is_empty cookie then d else (delete_oidc_browser_session r app.id cookie d).1

  -- The sessions of the user in this application; the other ones of its group are left to a callback.
  unfoldable pub revoke_user : TokenConfig → Application → Option Text → Db → Db
  revoke_user cfg app none d = d
  revoke_user cfg app (some user) d =
      (blacklist_all_user_tokens r app.id user cfg.default_access_ttl
        (delete_all_user_sessions r app.id user [] d).1).1

  abbrev browser_user : Application → Text → Db → Reply Text
  browser_user app cookie d =
      if is_empty cookie then nil else (get_oidc_browser_session r app.id cookie d).0

  unfoldable pub logout_page : List OidcClient → Text → LogoutPage
  logout_page clients uri =
      if is_empty uri
      then signed_out
      else if any (λ c. is_redirect_uri_allowed c.redirect_uris uri) clients
      then redirected uri
      else signed_out

  -- `hint` is the subject of a valid ID token of a user that exists; `bad_hint` that one was sent and
  -- is not valid; `clients` are those of the application.
  unfoldable pub end_session :
      TokenConfig
      → Application
      → Bool
      → Option Text
      → Text
      → Text
      → List OidcClient
      → Db
      → LogoutPage × Db
  end_session cfg app bad_hint hint cookie uri clients d = if bad_hint then (hint_error, d) else (
    logout_page clients uri,
    revoke_user cfg app (logout_user hint (browser_user app cookie d))
        (drop_browser_session app cookie d),
  )
