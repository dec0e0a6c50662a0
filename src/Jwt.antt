-- ===== src/Jwt.antt =====
-- pkg/jwt/jwt.go. The library golang-jwt is the record `Jwt`; its documented behaviour is `IsJwt`.
-- Times are nanoseconds; a NumericDate keeps whole seconds. A time to live of 0 asks for the
-- configured default, as a value that is not positive does in the source.
use graaa_golang_auth_api.Common.{
  ℕ, ◌+◌, ◌*◌, ◌/◌, ◌<◌, ◌≡◌, Option, some, List, Text, codes, ltb, if◌then◌else◌,
}
use graaa_golang_auth_api.Redis.Sessions.{second}

pub record Claims : Type 0 where
  pub user_id : Text
  pub app_id : Text
  pub session_id : Text
  pub token_type : Text
  pub roles : List Text
  pub expires_at : ℕ
  pub issued_at : ℕ

-- Signing may fail; verification at a time gives the claims of a valid token.
pub record Jwt : Type 0 where
  pub sign : Claims → Option Text
  pub verify : ℕ → Text → Option Claims

pub record IsJwt (j : Jwt) : Type 0 where
  pub verify_signed :
      (c : Claims) (token : Text) (now : ℕ)
      → j.sign c ≡ some token
      → now < c.expires_at * second
      → j.verify now token ≡ some c
  -- The claims are those of the token, whenever it is verified.
  pub verify_agrees :
      (token : Text) (now later : ℕ) (c c' : Claims)
      → j.verify now token ≡ some c
      → j.verify later token ≡ some c'
      → c ≡ c'

-- ACCESS_TOKEN_EXPIRATION_MINUTES and REFRESH_TOKEN_EXPIRATION_HOURS, as durations.
pub record TokenConfig : Type 0 where
  pub default_access_ttl : ℕ
  pub default_refresh_ttl : ℕ

abbrev pub type_access : Text
type_access = codes "access"

abbrev pub type_refresh : Text
type_refresh = codes "refresh"

abbrev pub effective_ttl : ℕ → ℕ → ℕ
effective_ttl ttl default = if ltb 0 ttl then ttl else default

unfoldable pub access_claims : TokenConfig → Text → Text → Text → List Text → ℕ → ℕ → Claims
access_claims cfg app user sid roles ttl now = record {
  user_id = user;
  app_id = app;
  session_id = sid;
  token_type = type_access;
  roles = roles;
  expires_at = (now + effective_ttl ttl cfg.default_access_ttl) / second;
  issued_at = now / second;
}

unfoldable pub refresh_claims : TokenConfig → Text → Text → Text → List Text → ℕ → ℕ → Claims
refresh_claims cfg app user sid roles ttl now = record {
  user_id = user;
  app_id = app;
  session_id = sid;
  token_type = type_refresh;
  roles = roles;
  expires_at = (now + effective_ttl ttl cfg.default_refresh_ttl) / second;
  issued_at = now / second;
}

module _ (j : Jwt) (cfg : TokenConfig) where
  unfoldable pub generate_access_token : Text → Text → Text → List Text → ℕ → ℕ → Option Text
  generate_access_token app user sid roles ttl now =
      j.sign (access_claims cfg app user sid roles ttl now)

  unfoldable pub generate_refresh_token : Text → Text → Text → List Text → ℕ → ℕ → Option Text
  generate_refresh_token app user sid roles ttl now =
      j.sign (refresh_claims cfg app user sid roles ttl now)

-- The token must be valid and its claims of the right form; both are the library's test.
unfoldable pub parse_token : Jwt → ℕ → Text → Option Claims
parse_token j now token = j.verify now token
