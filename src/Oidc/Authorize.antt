-- ===== src/Oidc/Authorize.antt =====
-- internal/oidc/handler.go: the authorization endpoint, GET and POST. The application is loaded; pages
-- are named by what they show. uuid.Parse is a parameter; the fates of the queries, the fresh
-- identifiers and the clock are arguments. `strings.Fields(scope)` is given with the request.
pub mod Consent
use graaa_golang_auth_api.Common.{
  ℕ, ◌*◌, Bool, true, false, not, ◌&&◌, ◌||◌, Option, none, some, List, Text, codes, text_eq,
  is_empty, if◌then◌else◌,
}
use graaa_golang_auth_api.Redis.Interface.{Reply, ok, nil, failed, Redis}
use graaa_golang_auth_api.Redis.Sessions.{second, minute}
use graaa_golang_auth_api.Redis.Slots.{
  set_temp_user_session, set_oidc_browser_session, get_oidc_browser_session,
}
use graaa_golang_auth_api.Database.{Fate, first_where, first, first_reply, served, refused, lost}
use graaa_golang_auth_api.Flow.{Verdict, accept, reject}
use graaa_golang_auth_api.Oidc.{
  Application, OidcClient, OidcAuthCode, OidcError, User, Tables, Library,
}
use graaa_golang_auth_api.Oidc.Clients.{get_client_by_client_id, validate_auth_request}
use graaa_golang_auth_api.Oidc.Codes.{get_user_by_id, CodeRequest, issue_auth_code}
use graaa_golang_auth_api.Oidc.ConsentToken.{AuthorizeRequest, Codec, parse_consent_token}

-- What the browser is shown, or where it is sent: to the redirect URI with a code, with a token for
-- the second factor, or with the error access_denied.
pub data Page : Type 0 where
  error_page login_page denied : Page
  consent_page two_factor : Text → Page
  code_redirect : OidcAuthCode → Page

-- The fields of the form beside the consent token.
pub record Form : Type 0 where
  pub consent_token : Text
  pub email : Text
  pub password : Text
  pub user_id : Text
  pub action : Text

-- What each query of a request meets.
pub record Fates : Type 0 where
  pub load_client : Fate
  pub load_email : Fate
  pub load_user : Fate
  pub save_code : Fate

-- The identifiers that a request draws.
pub record Fresh : Type 0 where
  pub temp_token : Text
  pub code_id : Text
  pub code : Text
  pub session_token : Text

abbrev pub has_email : Text → Text → User → Bool
has_email app_id email u = text_eq u.app_id app_id && text_eq u.email email

unfoldable pub get_user_by_email : Fate → Text → Text → Tables → Reply User
get_user_by_email fate app_id email t = first fate (has_email app_id email) t.users

abbrev checked : Library → Text → Reply User → Option User
checked lib password nil = none
checked lib password failed = none
checked lib password (ok u) =
    if u.is_active && lib.matches_hash u.password_hash password then some u else none

unfoldable pub authenticate_user : Library → Fate → Text → Text → Text → Tables → Option User
authenticate_user lib fate app_id email password t =
    checked lib password (get_user_by_email fate app_id email t)

-- Whether a user that was looked up has a second factor; where the query fails, none is asked for.
abbrev pub needs_second_factor : Reply User → Bool
needs_second_factor (ok u) = u.two_fa_enabled
needs_second_factor nil = false
needs_second_factor failed = false

unfoldable pub code_request : Application → OidcClient → Text → AuthorizeRequest → CodeRequest
code_request app client user_id req = record {
  app_id = app.id;
  client_id = client.client_id;
  user_id = user_id;
  redirect_uri = req.redirect_uri;
  scopes = req.scope;
  nonce = req.nonce;
  code_challenge = req.code_challenge;
  code_challenge_method = req.code_challenge_method;
}

module _ (r : Redis) (lib : Library) (k : Codec) (valid_uuid : Text → Bool) (minutes : ℕ)
    (app : Application) (f : Fates) (x : Fresh) (now : ℕ) where
  open r use {Db}

  abbrev pub Site : Type 0
  Site = Tables × Db

  abbrev pub after_issue : Text → Verdict OidcError OidcAuthCode → Tables → Db → Page × Site
  after_issue user_id (reject e) t d = (error_page, (t, d))
  after_issue user_id (accept ac) t d = (
    code_redirect ac,
    (t, (set_oidc_browser_session r app.id x.session_token user_id (3600 * second) d).1),
  )

  unfoldable pub issue_code_and_redirect_for_user :
      OidcClient → Text → AuthorizeRequest → Tables → Db → Page × Site
  issue_code_and_redirect_for_user client user_id req t d =
      let issued =
        issue_auth_code minutes f.save_code x.code_id x.code (code_request app client user_id req)
          now t in
      if valid_uuid user_id then after_issue user_id issued.0 issued.1 d else (error_page, (t, d))

  abbrev pub ask_second_factor : Reply (Unit {0}) → Page
  ask_second_factor (ok u) = two_factor x.temp_token
  ask_second_factor nil = error_page
  ask_second_factor failed = error_page

  -- The redirect with a temporary token, for ten minutes.
  unfoldable pub second_factor : Text → Tables → Db → Page × Site
  second_factor user_id t d =
      let stored = set_temp_user_session r app.id x.temp_token user_id (10 * minute) d in
      (ask_second_factor stored.0, (t, stored.1))

  abbrev pub after_login : OidcClient → AuthorizeRequest → Option User → Tables → Db → Page × Site
  after_login client req none t d = (login_page, (t, d))
  after_login client req (some u) t d =
      if u.two_fa_enabled
      then second_factor u.id t d
      else if client.require_consent
      then (consent_page u.id, (t, d))
      else issue_code_and_redirect_for_user client u.id req t d

  unfoldable pub submit_login : OidcClient → AuthorizeRequest → Form → Tables → Db → Page × Site
  submit_login client req form t d =
      after_login client req (authenticate_user lib f.load_email app.id form.email form.password t)
        t d

  -- The identifiers of the form are compared as texts: they are taken in the spelling of uuid.String.
  unfoldable pub submit_consent : OidcClient → AuthorizeRequest → Form → Tables → Db → Page × Site
  submit_consent client req form t d =
      if text_eq form.action (codes "deny")
      then (denied, (t, d))
      else if needs_second_factor (get_user_by_id f.load_user form.user_id t)
      then second_factor form.user_id t d
      else issue_code_and_redirect_for_user client form.user_id req t d

  abbrev pub for_client : Reply OidcClient → AuthorizeRequest → Form → Tables → Db → Page × Site
  for_client nil req form t d = (error_page, (t, d))
  for_client failed req form t d = (error_page, (t, d))
  for_client (ok client) req form t d =
      if not (is_empty form.email) && not (is_empty form.password)
      then submit_login client req form t d
      else submit_consent client req form t d

  abbrev pub for_request : Option AuthorizeRequest → Form → Tables → Db → Page × Site
  for_request none form t d = (error_page, (t, d))
  for_request (some req) form t d =
      for_client (get_client_by_client_id f.load_client req.client_id t) req form t d

  unfoldable pub authorize_submit : Form → Tables → Db → Page × Site
  authorize_submit form t d =
      if app.oidc_enabled
      then for_request (parse_consent_token k form.consent_token now) form t d
      else (error_page, (t, d))

  -- The cookie's token, as the user that it stands for.
  unfoldable pub session_user_id : Text → Db → Text
  session_user_id cookie d =
      if is_empty cookie then codes "" else elim ((get_oidc_browser_session r app.id cookie d).0) [
        | ok user_id ↦ user_id
        | nil ↦ codes ""
        | failed ↦ codes ""
      ]

  abbrev pub for_session : OidcClient → Text → AuthorizeRequest → Tables → Db → Page × Site
  for_session client user_id req t d =
      if is_empty user_id
      then (login_page, (t, d))
      else if client.require_consent
      then (consent_page user_id, (t, d))
      else if needs_second_factor (get_user_by_id f.load_user user_id t)
      then second_factor user_id t d
      else issue_code_and_redirect_for_user client user_id req t d

  abbrev pub for_valid :
      Verdict OidcError OidcClient → Text → AuthorizeRequest → Tables → Db → Page × Site
  for_valid (reject e) cookie req t d = (error_page, (t, d))
  for_valid (accept client) cookie req t d = for_session client (session_user_id cookie d) req t d

  unfoldable pub authorize : AuthorizeRequest → Text → List Text → Text → Tables → Db → Page × Site
  authorize req response_type scopes cookie t d =
      if app.oidc_enabled
      then for_valid
          (validate_auth_request f.load_client req.client_id req.redirect_uri response_type scopes
            req.code_challenge t).0
          cookie req t d
      else (error_page, (t, d))
