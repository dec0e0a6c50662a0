-- ===== src/Tests/Provider.antt =====
-- The OIDC provider at concrete inputs: a client, a user and an authorization code.
use graaa_golang_auth_api.Common.{
  ℕ, ◌+◌, ◌*◌, ◌≡◌, refl, ◌≢◌, inl, true, false, Option, none, some, List, [], ◌∷◌, Text, codes,
  text_eq, length, arith, split, split_step, trim, trim_left, trim_space, is_space, has_prefix,
  has_suffix,
}
use graaa_golang_auth_api.Redis.Interface.{ok}
use graaa_golang_auth_api.Redis.Sample.{sample, running, Rows}
use graaa_golang_auth_api.Redis.Sessions.{second}
use graaa_golang_auth_api.Redis.Slots.{get_oidc_browser_session, set_oidc_browser_session}
use graaa_golang_auth_api.Database.{served}
use graaa_golang_auth_api.Flow.{accept, guard}
use graaa_golang_auth_api.Oidc.{
  OidcClient, OidcAuthCode, User, Tables, Library, Application, contains_scope, slice_contains,
  is_redirect_uri_allowed, verify_pkce,
}
use graaa_golang_auth_api.Oidc.Clients.{get_client_by_client_id, validate_auth_request}
use graaa_golang_auth_api.Oidc.Clients.Admission.{Admissible, validate_auth_request_sound}
use graaa_golang_auth_api.Oidc.RedirectUris.{json_array, is_redirect_uri_allowed_exact}
use graaa_golang_auth_api.Oidc.Codes.{
  CodeRequest, ExchangeRequest, new_auth_code, create_auth_code, issue_auth_code, get_auth_code,
  mark_auth_code_used, delete_expired_auth_codes, get_user_by_id, check_code, redeem, exchange_code,
}
use graaa_golang_auth_api.Oidc.Codes.Replay.{purge, start, follow}
use graaa_golang_auth_api.Oidc.Codes.Exchange.{
  exchange_code-single_use, exchange_code-races, exchange_code-issued,
}
use graaa_golang_auth_api.Oidc.ConsentToken.{
  AuthorizeRequest, Codec, build_consent_token, parse_consent_token, split_last_dot,
}
use graaa_golang_auth_api.Oidc.Authorize.{
  Form, Fates, Fresh, code_redirect, get_user_by_email, authenticate_user, code_request,
  issue_code_and_redirect_for_user, second_factor, submit_login, submit_consent, authorize_submit,
  session_user_id, authorize,
}
use graaa_golang_auth_api.Oidc.Authorize.Consent.{
  LoggedIn, Entitled, authorize_submit-login, authorize_submit-trusts_form, authorize_sound,
}
use graaa_golang_auth_api.Oidc.Keys.{
  KeyRow, Pem, IsPem, create_key, stored_key, save_key, missing, after_read, get_or_create_rsa_key,
}
use graaa_golang_auth_api.Oidc.Keys.Agreement.{idle, call, get_or_create_rsa_key-agrees}
use graaa_golang_auth_api.Tests.SampleJwt.{put_texts, get_texts}

-- Unfolding this name opens what the runs of this file compute with.
unfoldable run : Unit {0}
unfolding running guard contains_scope slice_contains is_redirect_uri_allowed verify_pkce
    get_client_by_client_id validate_auth_request new_auth_code create_auth_code issue_auth_code
    get_auth_code mark_auth_code_used delete_expired_auth_codes get_user_by_id check_code redeem
    exchange_code build_consent_token parse_consent_token split_last_dot get_user_by_email
    authenticate_user code_request issue_code_and_redirect_for_user second_factor submit_login
    submit_consent authorize_submit session_user_id authorize create_key stored_key save_key
    get_or_create_rsa_key get_oidc_browser_session set_oidc_browser_session split split_step trim
    trim_left trim_space is_space has_prefix has_suffix
run = tt

-- Hashes are the passwords, the hash of a verifier is the verifier, and methods are in upper case.
abbrev pub plain : Library
plain = record {
  matches_hash = text_eq;
  hash_secret = λ secret. secret;
  s256 = λ verifier. verifier;
  to_upper = λ method. method;
}

abbrev pub callback : Text
callback = codes "https://a/cb"

abbrev pub client : OidcClient
client = record {
  id = codes "1";
  app_id = codes "a";
  name = codes "shop";
  description = [];
  client_id = codes "c";
  client_secret_hash = codes "secret";
  redirect_uris = codes "[\"https://a/cb\"]";
  allowed_grant_types = codes "authorization_code";
  allowed_scopes = codes "openid,email";
  require_consent = false;
  is_confidential = true;
  pkce_required = false;
  logo_url = [];
  login_theme = codes "auto";
  login_primary_color = [];
  is_active = true;
}

abbrev pub alice : User
alice = record {
  id = codes "u";
  app_id = codes "a";
  email = codes "alice@a";
  password_hash = codes "pw";
  is_active = true;
  two_fa_enabled = false;
  name = codes "Alice";
  first_name = codes "Alice";
  last_name = [];
  profile_picture = [];
  locale = [];
  email_verified = true;
}

abbrev pub no_codes : Tables
no_codes = record { clients = client ∷ []; auth_codes = []; users = alice ∷ [] }

abbrev asked : CodeRequest
asked = record {
  app_id = codes "a";
  client_id = codes "c";
  user_id = codes "u";
  redirect_uri = callback;
  scopes = codes "openid email";
  nonce = [];
  code_challenge = [];
  code_challenge_method = [];
}

abbrev issued : OidcAuthCode
issued = record {
  id = codes "k";
  app_id = codes "a";
  client_id = codes "c";
  user_id = codes "u";
  code = codes "x";
  redirect_uri = callback;
  scopes = codes "openid email";
  nonce = [];
  code_challenge = [];
  code_challenge_method = [];
  expires_at = 700 * second;
  used = false;
}

abbrev one_code : Tables
one_code = record no_codes { auth_codes = issued ∷ [] }

abbrev exchange : ExchangeRequest
exchange = record {
  code = codes "x";
  client_id = codes "c";
  redirect_uri = callback;
  code_verifier = [];
}

exchange_code-issued_example :
    (exchange_code plain served served served exchange
      (200 * second)
      (issue_auth_code 0 served (codes "k") (codes "x") asked (100 * second) no_codes).1).0
    ≡ accept (issued, alice)
unfolding run
exchange_code-issued_example =
    exchange_code-issued plain 0 (codes "k") asked (100 * second) (200 * second) exchange no_codes
      issued alice refl (omega arith) refl refl (inl refl) refl

-- The tables once the code has been exchanged, and once a purge has run.
abbrev spent : Tables
spent = (exchange_code plain served served served exchange (200 * second) one_code).1

abbrev purged : Tables
purged = (delete_expired_auth_codes served (300 * second) spent).1

exchange_code-single_use_example :
    (exchange_code plain served served served exchange (300 * second) purged).0
    ≢ accept (issued, alice)
unfolding run
exchange_code-single_use_example =
    exchange_code-single_use plain served served served served served served exchange exchange
      (200 * second) (300 * second) one_code purged (issued, alice) (issued, alice) (tt, tt) refl
      (follow start (purge served (300 * second) refl)) refl

exchange_code-races_example :
    (ac : OidcAuthCode) × (ac' : OidcAuthCode) × ((check_code plain served exchange
        (200 * second)
        one_code).0
      ≡ accept ac)
    × ((check_code plain served exchange (200 * second) one_code).0 ≡ accept ac')
    × ((redeem served served ac one_code).0 ≡ accept (issued, alice))
    × ((redeem served served ac' (redeem served served ac one_code).1).0 ≡ accept (issued, alice))
unfolding run
exchange_code-races_example =
    exchange_code-races plain served served served served served served exchange exchange
      (200 * second) (200 * second) one_code (issued, alice) (issued, alice) refl refl

validate_auth_request_sound_example :
    Admissible no_codes (codes "c") callback (codes "code") (codes "openid" ∷ []) (codes "v") client
unfolding run
validate_auth_request_sound_example =
    validate_auth_request_sound (codes "c") callback (codes "code") (codes "openid" ∷ [])
      (codes "v") no_codes client refl

is_redirect_uri_allowed_exact_example :
    is_redirect_uri_allowed (json_array (codes "x" ∷ codes "y" ∷ [])) (codes "y") ≡ true
unfolding text_eq
is_redirect_uri_allowed_exact_example =
    is_redirect_uri_allowed_exact (codes "x" ∷ codes "y" ∷ []) (codes "y")
      (
        (((λ e. omega (arith, e)), tt), (refl, tt)),
        ((((λ e. omega (arith, e)), tt), (refl, tt)), tt),
      )
      refl

-- Texts with their lengths in front, and a signature that depends on the payload.
abbrev request_texts : AuthorizeRequest → List Text
request_texts q =
    q.client_id ∷ q.redirect_uri ∷ q.scope ∷ q.state ∷ q.nonce ∷ q.code_challenge
    ∷ q.code_challenge_method ∷ []

abbrev request_of : List Text → Option AuthorizeRequest
request_of (a ∷ b ∷ c ∷ d ∷ e ∷ f ∷ g ∷ []) = some (record {
  client_id = a;
  redirect_uri = b;
  scope = c;
  state = d;
  nonce = e;
  code_challenge = f;
  code_challenge_method = g;
})
request_of _ = none

abbrev with_expiry : ℕ → Option AuthorizeRequest → Option (AuthorizeRequest × Option ℕ)
with_expiry exp none = none
with_expiry exp (some q) = some (q, some exp)

abbrev read_request : Text → Option (AuthorizeRequest × Option ℕ)
read_request [] = none
read_request (exp ∷ t) = with_expiry exp (request_of (get_texts 7 t))

abbrev codec : Codec
codec = record {
  sign = λ payload. (length payload + 1000) ∷ [];
  write = λ app q random exp. exp ∷ put_texts (request_texts q);
  read = read_request;
}

abbrev request : AuthorizeRequest
request = record {
  client_id = codes "c";
  redirect_uri = callback;
  scope = codes "openid";
  state = [];
  nonce = [];
  code_challenge = [];
  code_challenge_method = [];
}

abbrev pub app : Application
app = record {
  id = codes "a";
  oidc_enabled = true;
  oidc_issuer_url = [];
  oidc_id_token_ttl = 0;
  settings = record {
    pw_min_length = 0;
    pw_max_length = 0;
    pw_require_upper = false;
    pw_require_lower = false;
    pw_require_digit = false;
    pw_require_symbol = false;
    access_token_ttl_minutes = 0;
    refresh_token_ttl_hours = 0;
  };
}

abbrev fates : Fates
fates = record { load_client = served; load_email = served; load_user = served; save_code = served }

abbrev fresh : Fresh
fresh = record {
  temp_token = codes "t";
  code_id = codes "k";
  code = codes "x";
  session_token = codes "b";
}

abbrev login_form : Form
login_form = record {
  consent_token = build_consent_token codec (codes "a") request [] (100 * second);
  email = codes "alice@a";
  password = codes "pw";
  user_id = [];
  action = [];
}

abbrev consent_form : Form
consent_form = record login_form {
  email = [];
  password = [];
  user_id = codes "u";
  action = codes "allow";
}

abbrev logged_in_code : OidcAuthCode
logged_in_code =
    new_auth_code 0 (codes "k") (codes "x") (code_request app client (codes "u") request)
      (200 * second)

authorize_submit-login_example :
    (c : OidcClient) × (q : AuthorizeRequest) × (u : User) × (parse_consent_token codec
        login_form.consent_token
        (200 * second)
      ≡ some q)
    × (get_client_by_client_id served q.client_id no_codes ≡ ok c)
    × (c.require_consent ≡ false)
    × LoggedIn sample plain codec
        (λ id. true)
        0
        app
        fates
        fresh
        (200 * second)
        login_form
        no_codes
        u
    × (u.two_fa_enabled ≡ false)
    × (logged_in_code
        ≡ new_auth_code 0 (codes "k") (codes "x") (code_request app c u.id q) (200 * second))
unfolding run
authorize_submit-login_example =
    authorize_submit-login sample plain codec (λ id. true) 0 app fates fresh (200 * second)
      login_form no_codes [] logged_in_code refl refl refl

authorize_submit-trusts_form_example :
    ((authorize_submit sample plain codec
        (λ id. true)
        0
        app
        fates
        fresh
        (200 * second)
        consent_form
        no_codes
        []).0
      ≡ code_redirect logged_in_code)
    × (logged_in_code.user_id ≡ codes "u")
unfolding run
authorize_submit-trusts_form_example =
    authorize_submit-trusts_form sample plain codec (λ id. true) 0 app fates fresh (200 * second)
      consent_form no_codes [] client request logged_in_code refl refl refl refl refl refl refl refl

-- A browser whose session is Alice's.
abbrev browser : Rows
browser = (set_oidc_browser_session sample (codes "a") (codes "b") (codes "u") second []).1

authorize_sound_example :
    Entitled sample plain codec
      (λ id. true)
      0
      app
      fates
      fresh
      (200 * second)
      request
      (codes "code")
      (codes "openid" ∷ [])
      (codes "b")
      no_codes
      browser
      logged_in_code
unfolding run
authorize_sound_example =
    authorize_sound sample plain codec (λ id. true) 0 app fates fresh (200 * second) request
      (codes "code") (codes "openid" ∷ []) (codes "b") no_codes browser logged_in_code refl

-- Keys that are numbers, written as themselves.
abbrev number : Text → Option ℕ
number (n ∷ []) = some n
number _ = none

abbrev pem : Pem
pem = record { Key = ℕ; parse = number; print = λ key. key ∷ [] }

pem-IsPem : IsPem pem
pem-IsPem = record { parse_print = λ key. refl; print_nonempty = λ key. refl }

abbrev no_key : List KeyRow
no_key =
    record { id = codes "a"; oidc_rsa_private_key = [] }
    ∷ record { id = codes "b"; oidc_rsa_private_key = [] }
    ∷ []

abbrev first_call : List KeyRow
first_call = (get_or_create_rsa_key pem served served served (codes "a") 7 no_key).1

-- The call of another application comes in between.
abbrev second_call : List KeyRow
second_call = (after_read pem missing served served (codes "b") 9 first_call).1

get_or_create_rsa_key-agrees_example :
    ((get_or_create_rsa_key pem served served served (codes "a") 8 second_call).0 ≡ accept 7
      → ◌≡◌ {A = ℕ} 7 7)
    × ((after_read pem missing served served (codes "a") 8 second_call).0 ≡ accept 7
        → ◌≡◌ {A = ℕ} 7 7)
unfolding run
get_or_create_rsa_key-agrees_example =
    get_or_create_rsa_key-agrees pem pem-IsPem (codes "a") served served served served served served
      7 8 7 7 no_key second_call refl (call missing served served (codes "b") 9 idle)
