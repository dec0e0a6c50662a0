-- ===== src/Oidc/IdToken.antt =====
-- internal/oidc/id_token.go: MintIDToken up to the signature.
use graaa_golang_auth_api.Common.{
  ℕ, ◌+◌, ◌/◌, Bool, false, List, [], Text, codes, text_eq, is_empty, any, trim_space,
  if◌then◌else◌,
}
use graaa_golang_auth_api.Redis.Sessions.{second}
use graaa_golang_auth_api.Oidc.{User}

-- An empty text, list or false is left out of the token.
pub record IdTokenClaims : Type 0 where
  pub issuer : Text
  pub subject : Text
  pub audience : Text
  pub issued_at : ℕ
  pub expires_at : ℕ
  pub nonce : Text
  pub at_hash : Text
  pub name : Text
  pub given_name : Text
  pub family_name : Text
  pub picture : Text
  pub locale : Text
  pub email : Text
  pub email_verified : Bool
  pub roles : List Text

pub record MintIdTokenParams : Type 0 where
  pub issuer : Text
  pub audience : Text
  pub user : User
  pub roles : List Text
  pub scopes : List Text
  pub nonce : Text
  pub access_token : Text
  pub ttl : ℕ

abbrev pub in_scope : MintIdTokenParams → Text → Bool
in_scope p scope = any (λ s. text_eq (trim_space s) scope) p.scopes

abbrev pub given_if : {A : Type 0} → Bool → A → A → A
given_if allowed value empty = if allowed then value else empty

-- `hash_half` is the left half of the SHA-256 of the access token, in base64url.
unfoldable pub id_token_claims : (Text → Text) → MintIdTokenParams → ℕ → IdTokenClaims
id_token_claims hash_half p now = record {
  issuer = p.issuer;
  subject = p.user.id;
  audience = p.audience;
  issued_at = now / second;
  expires_at = (now + p.ttl) / second;
  nonce = p.nonce;
  at_hash = if is_empty p.access_token then [] else hash_half p.access_token;
  name = given_if (in_scope p (codes "profile")) p.user.name [];
  given_name = given_if (in_scope p (codes "profile")) p.user.first_name [];
  family_name = given_if (in_scope p (codes "profile")) p.user.last_name [];
  picture = given_if (in_scope p (codes "profile")) p.user.profile_picture [];
  locale = given_if (in_scope p (codes "profile")) p.user.locale [];
  email = given_if (in_scope p (codes "email")) p.user.email [];
  email_verified = given_if (in_scope p (codes "email")) p.user.email_verified false;
  roles = given_if (in_scope p (codes "roles")) p.roles [];
}
