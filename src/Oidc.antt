-- ===== src/Oidc.antt =====
-- internal/oidc: the rows that the provider keeps (pkg/models/oidc_client.go, oidc_auth_code.go, and
-- what it reads of a user), and the tests on the texts in them.
pub mod Clients
pub mod Codes
pub mod RedirectUris
pub mod ConsentToken
pub mod Authorize
pub mod Keys
pub mod IdToken
pub mod Minting
pub mod Grants
pub mod Endpoints
use mathlib.Core.List.{reverse}
use graaa_golang_auth_api.Password as Password
use graaa_golang_auth_api.Common.{
  ℕ, Bool, true, false, not, ◌&&◌, ◌||◌, List, [], ◌∷◌, Text, codes, text_eq, is_empty, length, any,
  drop, has_prefix, has_suffix, split, trim, trim_space, leb, ◌==◌, if◌then◌else◌,
}

pub record OidcClient : Type 0 where
  pub id : Text
  pub app_id : Text
  pub name : Text
  pub description : Text
  pub client_id : Text
  pub client_secret_hash : Text
  pub redirect_uris : Text
  pub allowed_grant_types : Text
  pub allowed_scopes : Text
  pub require_consent : Bool
  pub is_confidential : Bool
  pub pkce_required : Bool
  pub logo_url : Text
  pub login_theme : Text
  pub login_primary_color : Text
  pub is_active : Bool

pub record OidcAuthCode : Type 0 where
  pub id : Text
  pub app_id : Text
  pub client_id : Text
  pub user_id : Text
  pub code : Text
  pub redirect_uri : Text
  pub scopes : Text
  pub nonce : Text
  pub code_challenge : Text
  pub code_challenge_method : Text
  pub expires_at : ℕ
  pub used : Bool

pub record User : Type 0 where
  pub id : Text
  pub app_id : Text
  pub email : Text
  pub password_hash : Text
  pub is_active : Bool
  pub two_fa_enabled : Bool
  pub name : Text
  pub first_name : Text
  pub last_name : Text
  pub profile_picture : Text
  pub locale : Text
  pub email_verified : Bool

-- The columns of an application that the provider reads. `settings` has the times to live.
pub record Application : Type 0 where
  pub id : Text
  pub oidc_enabled : Bool
  pub oidc_issuer_url : Text
  pub oidc_id_token_ttl : ℕ
  pub settings : Password.Application

pub record Tables : Type 0 where
  pub clients : List OidcClient
  pub auth_codes : List OidcAuthCode
  pub users : List User

-- bcrypt's comparison and hash, the hash of a verifier (SHA-256 in base64url) and strings.ToUpper.
pub record Library : Type 0 where
  pub matches_hash : Text → Text → Bool
  pub hash_secret : Text → Text
  pub s256 : Text → Text
  pub to_upper : Text → Text

-- The errors of the service and the handler, named after their messages.
pub data OidcError : Type 0 where
  unknown_client client_disabled unsupported_response_type redirect_uri_not_allowed : OidcError
  missing_openid scope_not_allowed code_challenge_required database_error : OidcError
  code_not_found code_already_used code_expired client_mismatch redirect_uri_mismatch : OidcError
  code_verifier_required code_verifier_mismatch mark_failed user_not_found : OidcError
  client_id_required client_secret_required invalid_client_secret : OidcError
  grant_type_not_allowed invalid_refresh_token not_a_refresh_token scope_not_granted : OidcError
  token_failed session_failed key_failed invalid_token : OidcError

-- One of the parts of a comma-separated text, trimmed, is the name.
abbrev pub in_csv : Text → Text → Bool
in_csv csv name = any (λ s. text_eq (trim_space s) name) (split b',' csv)

unfoldable pub contains_scope : Text → Text → Bool
contains_scope allowed scope = in_csv allowed scope

unfoldable pub contains_grant_type : Text → Text → Bool
contains_grant_type allowed grant_type = in_csv allowed grant_type

unfoldable pub slice_contains : List Text → Text → Bool
slice_contains slice val = any (λ s. text_eq (trim_space s) val) slice

abbrev pub quote : ℕ → Bool
quote c = c == b'"'

-- s[1 : len(s)-1]
abbrev pub inner : Text → Text
inner s = reverse (drop 1 (reverse (drop 1 s)))

unfoldable pub is_redirect_uri_allowed : Text → Text → Bool
is_redirect_uri_allowed allowed uri =
    if is_empty allowed || is_empty uri
    then false
    else if leb 2 (length (trim_space allowed))
        && has_prefix (trim_space allowed) (codes "[")
        && has_suffix (trim_space allowed) (codes "]")
    then any (λ part. text_eq (trim quote (trim_space part)) uri)
        (split b',' (inner (trim_space allowed)))
    else text_eq (trim_space allowed) uri

unfoldable pub verify_pkce : Library → Text → Text → Text → Bool
verify_pkce lib challenge method verifier =
    text_eq (lib.to_upper method) (codes "S256") && text_eq (lib.s256 verifier) challenge
