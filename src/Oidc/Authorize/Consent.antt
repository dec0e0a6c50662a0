-- ===== src/Oidc/Authorize/Consent.antt =====
-- For whom the authorization endpoint issues a code.
use mathlib.Core.Path.{subst}
use graaa_golang_auth_api.Common.{
  ℕ, ◌≡◌, refl, ◌≢◌, ◌∙◌, ap, Bool, true, false, Option, none, some, List, Text, codes, text_eq,
  text_eq_iff, is_empty, arith,
}
use graaa_golang_auth_api.Redis.Interface.{Reply, ok, nil, failed, Redis}
use graaa_golang_auth_api.Redis.Slots.{get_oidc_browser_session}
use graaa_golang_auth_api.Database.{first}
use graaa_golang_auth_api.Database.Laws.{first_where-satisfies, first-ok}
use graaa_golang_auth_api.Flow.{Verdict, accept, reject}
use graaa_golang_auth_api.Oidc.{
  Application, OidcClient, OidcAuthCode, OidcError, User, Tables, Library,
}
use graaa_golang_auth_api.Oidc.Clients.{get_client_by_client_id, validate_auth_request}
use graaa_golang_auth_api.Oidc.Codes.{
  get_user_by_id, issue_auth_code, create_auth_code, new_auth_code,
}
use graaa_golang_auth_api.Oidc.ConsentToken.{AuthorizeRequest, Codec, parse_consent_token}
use graaa_golang_auth_api.Oidc.Authorize.{
  code_redirect, Form, Fates, Fresh, has_email, get_user_by_email, authenticate_user, checked,
  needs_second_factor, code_request, issue_code_and_redirect_for_user, second_factor, after_login,
  submit_login, submit_consent, for_client, for_request, authorize_submit, session_user_id,
  for_valid, authorize,
}

module _ (r : Redis) (lib : Library) (k : Codec) (valid_uuid : Text → Bool) (minutes : ℕ)
    (app : Application) (f : Fates) (x : Fresh) (now : ℕ) where
  open r use {Db}

  -- The code that is issued for a user.
  abbrev code_for : OidcClient → Text → AuthorizeRequest → OidcAuthCode
  code_for client user_id req =
      new_auth_code minutes x.code_id x.code (code_request app client user_id req) now

  issue-code :
      (client : OidcClient) (user_id : Text) (req : AuthorizeRequest) (t : Tables)
      (ac : OidcAuthCode)
      → (issue_auth_code minutes f.save_code x.code_id x.code
          (code_request app client user_id req)
          now
          t).0
        ≡ accept ac
      → ac ≡ code_for client user_id req
  unfolding issue_auth_code
  issue-code client user_id req t ac h = ground (arith, h)

  user_of :
      (client : OidcClient) (user_id : Text) (req : AuthorizeRequest)
      → (code_for client user_id req).user_id ≡ user_id
  unfolding new_auth_code code_request
  user_of client user_id req = refl

  issued_for :
      (client : OidcClient) (user_id : Text) (req : AuthorizeRequest) (t : Tables) (d : Db)
      (ac : OidcAuthCode)
      → (issue_code_and_redirect_for_user r lib k valid_uuid minutes app f x now client user_id req
          t d).0
        ≡ code_redirect ac
      → ac ≡ code_for client user_id req
  unfolding issue_code_and_redirect_for_user
  issued_for client user_id req t d ac h =
      let stored : (issue_auth_code minutes f.save_code x.code_id x.code
            (code_request app client user_id req) now t).0
          ≡ accept ac =
        ground (arith, h) in
      issue-code client user_id req t ac stored

  no_code :
      (user_id : Text) (t : Tables) (d : Db) (ac : OidcAuthCode)
      → (second_factor r lib k valid_uuid minutes app f x now user_id t d).0 ≢ code_redirect ac
  unfolding second_factor
  no_code user_id t d ac h = ground (arith, h)

  -- A user of the application whose e-mail address and password were given.
  pub record LoggedIn (form : Form) (t : Tables) (u : User) : Type 0 where
    pub own_app : u.app_id ≡ app.id
    pub own_email : u.email ≡ form.email
    pub active : u.is_active ≡ true
    pub password_matches : lib.matches_hash u.password_hash form.password ≡ true

  authenticated :
      (form : Form) (t : Tables) (u : User)
      → authenticate_user lib f.load_email app.id form.email form.password t ≡ some u
      → LoggedIn form t u
  unfolding authenticate_user get_user_by_email
  authenticated form t u h = found (first f.load_email (has_email app.id form.email) t.users) refl h
    where
      found :
          (o : Reply User)
          → first f.load_email (has_email app.id form.email) t.users ≡ o
          → checked lib form.password o ≡ some u
          → LoggedIn form t u
      found nil e c = cc
      found failed e c = cc
      found (ok v) e c =
          let same : v ≡ u = ground (arith, c) in
          let held =
            first_where-satisfies (has_email app.id form.email) v t.users
              (first-ok f.load_email (has_email app.id form.email) t.users v e) in
          subst (λ y. LoggedIn form t y) same
            (record {
              own_app = (text_eq_iff v.app_id app.id).0 (ground (arith, held));
              own_email = (text_eq_iff v.email form.email).0 (ground (arith, held));
              active = ground (arith, c);
              password_matches = ground (arith, c);
            })

  logged_in :
      (client : OidcClient) (req : AuthorizeRequest) (form : Form) (t : Tables) (d : Db)
      (ac : OidcAuthCode)
      → (submit_login r lib k valid_uuid minutes app f x now client req form t d).0
        ≡ code_redirect ac
      → (u : User) × LoggedIn form t u
        × (u.two_fa_enabled ≡ false)
        × (client.require_consent ≡ false)
        × (ac ≡ code_for client u.id req)
  unfolding submit_login
  logged_in client req form t d ac h =
      login (authenticate_user lib f.load_email app.id form.email form.password t) refl h
    where
      login :
          (o : Option User)
          → authenticate_user lib f.load_email app.id form.email form.password t ≡ o
          → (after_login r lib k valid_uuid minutes app f x now client req o t d).0
            ≡ code_redirect ac
          → (u : User) × LoggedIn form t u
            × (u.two_fa_enabled ≡ false)
            × (client.require_consent ≡ false)
            × (ac ≡ code_for client u.id req)
      login none e c = cc
      login (some u) e c =
          let single : u.two_fa_enabled ≡ false = ground (arith, c, no_code u.id t d ac) in
          let waived : client.require_consent ≡ false = ground (arith, c, single) in
          (
            u,
            authenticated form t u e,
            single,
            waived,
            issued_for client u.id req t d ac (ground (arith, c, single, waived)),
          )

  -- A code that the login form of AuthorizeSubmit issues is for a user of the application whose e-mail
  -- address and password the form gave, who is active and has no second factor, and for the request
  -- of a consent token that was signed; the client waives consent.
  pub authorize_submit-login :
      (form : Form) (t : Tables) (d : Db) (ac : OidcAuthCode)
      → is_empty form.email ≡ false
      → is_empty form.password ≡ false
      → (authorize_submit r lib k valid_uuid minutes app f x now form t d).0 ≡ code_redirect ac
      → (client : OidcClient) × (req : AuthorizeRequest) × (u : User) × (parse_consent_token k
            form.consent_token now
          ≡ some req)
        × (get_client_by_client_id f.load_client req.client_id t ≡ ok client)
        × (client.require_consent ≡ false)
        × LoggedIn form t u
        × (u.two_fa_enabled ≡ false)
        × (ac ≡ code_for client u.id req)
  unfolding authorize_submit
  authorize_submit-login form t d ac email password h =
      let asked : (for_request r lib k valid_uuid minutes app f x now
            (parse_consent_token k form.consent_token now) form t d).0
          ≡ code_redirect ac =
        ground (arith, h) in
      parsed (parse_consent_token k form.consent_token now) refl asked
    where
      parsed :
          (o : Option AuthorizeRequest)
          → parse_consent_token k form.consent_token now ≡ o
          → (for_request r lib k valid_uuid minutes app f x now o form t d).0 ≡ code_redirect ac
          → (client : OidcClient) × (req : AuthorizeRequest) × (u : User) × (parse_consent_token k
                form.consent_token now
              ≡ some req)
            × (get_client_by_client_id f.load_client req.client_id t ≡ ok client)
            × (client.require_consent ≡ false)
            × LoggedIn form t u
            × (u.two_fa_enabled ≡ false)
            × (ac ≡ code_for client u.id req)
      parsed none e c = cc
      parsed (some req) e c = loaded (get_client_by_client_id f.load_client req.client_id t) refl c
        where
          loaded :
              (o : Reply OidcClient)
              → get_client_by_client_id f.load_client req.client_id t ≡ o
              → (for_client r lib k valid_uuid minutes app f x now o req form t d).0
                ≡ code_redirect ac
              → (client : OidcClient) × (req : AuthorizeRequest) × (u : User) × (parse_consent_token
                    k form.consent_token now
                  ≡ some req)
                × (get_client_by_client_id f.load_client req.client_id t ≡ ok client)
                × (client.require_consent ≡ false)
                × LoggedIn form t u
                × (u.two_fa_enabled ≡ false)
                × (ac ≡ code_for client u.id req)
          loaded nil g b = cc
          loaded failed g b = cc
          loaded (ok client) g b =
              let (u, who, single, waived, code) =
                logged_in client req form t d ac (rw (email, password) at b) in
              (client, req, u, e, g, waived, who, single, code)

  -- The consent form of AuthorizeSubmit takes the user from the form: with any consent token that
  -- parses, no e-mail address, an action other than deny, and the identifier of a user without a
  -- second factor, the answer is a code for that user, whatever the state of Redis, so without a
  -- login, a password or a browser session.
  pub authorize_submit-trusts_form :
      (form : Form) (t : Tables) (d : Db) (client : OidcClient) (req : AuthorizeRequest)
      (ac : OidcAuthCode)
      → app.oidc_enabled ≡ true
      → parse_consent_token k form.consent_token now ≡ some req
      → get_client_by_client_id f.load_client req.client_id t ≡ ok client
      → is_empty form.email ≡ true
      → text_eq form.action (codes "deny") ≡ false
      → needs_second_factor (get_user_by_id f.load_user form.user_id t) ≡ false
      → valid_uuid form.user_id ≡ true
      → (issue_auth_code minutes f.save_code x.code_id x.code
          (code_request app client form.user_id req)
          now
          t).0
        ≡ accept ac
      → ((authorize_submit r lib k valid_uuid minutes app f x now form t d).0 ≡ code_redirect ac)
        × (ac.user_id ≡ form.user_id)
  unfolding authorize_submit submit_consent issue_code_and_redirect_for_user issue_auth_code
      create_auth_code new_auth_code code_request
  authorize_submit-trusts_form form t d client req ac enabled parsed loaded email action single
        valid issued =
      (
        rw enabled
            (rw parsed (rw loaded (rw email (rw action (rw single (rw valid (rw issued refl))))))),
        ap (λ c. c.user_id) (issue-code client form.user_id req t ac issued)
            ∙ user_of client form.user_id req,
      )

  -- What a request without a form shows when it is given a code.
  pub record Entitled (req : AuthorizeRequest) (response_type : Text) (scopes : List Text)
      (cookie : Text) (t : Tables) (d : Db) (ac : OidcAuthCode) : Type 0 where
    pub client : OidcClient
    pub user_id : Text
    pub validated :
        (validate_auth_request f.load_client req.client_id req.redirect_uri response_type scopes
          req.code_challenge t).0
        ≡ accept client
    pub browser : (get_oidc_browser_session r app.id cookie d).0 ≡ ok user_id
    pub known : is_empty user_id ≡ false
    pub waived : client.require_consent ≡ false
    pub single : (u : User) → get_user_by_id f.load_user user_id t ≡ ok u → u.two_fa_enabled ≡ false
    pub code : ac ≡ code_for client user_id req

  single_factor :
      (o : Reply User)
      → needs_second_factor o ≡ false
      → (u : User) → o ≡ ok u
      → u.two_fa_enabled ≡ false
  single_factor (ok v) h u e = ground (arith, h, e)
  single_factor nil h u e = cc
  single_factor failed h u e = cc

  session_user :
      (cookie : Text) (d : Db)
      → is_empty (session_user_id r lib k valid_uuid minutes app f x now cookie d) ≡ false
      → (get_oidc_browser_session r app.id cookie d).0
        ≡ ok (session_user_id r lib k valid_uuid minutes app f x now cookie d)
  unfolding session_user_id
  session_user cookie d h = ground (arith, h)

  -- Authorize issues a code on GET just for the user of a browser session that Redis holds, for a request
  -- that ValidateAuthRequest accepts and a client that waives consent; where the user can be loaded the
  -- user has no second factor.
  pub authorize_sound :
      (req : AuthorizeRequest) (response_type : Text) (scopes : List Text) (cookie : Text)
      (t : Tables) (d : Db) (ac : OidcAuthCode)
      → (authorize r lib k valid_uuid minutes app f x now req response_type scopes cookie t d).0
        ≡ code_redirect ac
      → Entitled req response_type scopes cookie t d ac
  unfolding authorize
  authorize_sound req response_type scopes cookie t d ac h =
      let asked : (for_valid r lib k valid_uuid minutes app f x now
            (validate_auth_request f.load_client req.client_id req.redirect_uri response_type scopes
              req.code_challenge t).0
            cookie req t d).0
          ≡ code_redirect ac =
        ground (arith, h) in
      valid _ refl asked
    where
      valid :
          (v : Verdict OidcError OidcClient)
          → (validate_auth_request f.load_client req.client_id req.redirect_uri response_type scopes
              req.code_challenge t).0
            ≡ v
          → (for_valid r lib k valid_uuid minutes app f x now v cookie req t d).0 ≡ code_redirect ac
          → Entitled req response_type scopes cookie t d ac
      valid (reject e) g c = cc
      valid (accept client) g c =
          let user_id = session_user_id r lib k valid_uuid minutes app f x now cookie d in
          let known : is_empty user_id ≡ false = ground (arith, c) in
          let waived : client.require_consent ≡ false = ground (arith, c, known) in
          let single : needs_second_factor (get_user_by_id f.load_user user_id t) ≡ false =
            ground (arith, c, known, waived, no_code user_id t d ac) in
          record {
            client = client;
            user_id = user_id;
            validated = g;
            browser = session_user cookie d known;
            known = known;
            waived = waived;
            single = single_factor (get_user_by_id f.load_user user_id t) single;
            code = issued_for client user_id req t d ac (ground (arith, c, known, waived, single));
          }
