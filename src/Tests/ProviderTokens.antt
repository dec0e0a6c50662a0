-- ===== src/Tests/ProviderTokens.antt =====
-- Tokens of the OIDC provider on the sample server: minted, revoked.
use graaa_golang_auth_api.Common.{
  ◌*◌, refl, ◌≢◌, true, some, [], ◌∷◌, ◌++◌, Text, codes, join, arith, has_prefix, byte_len,
}
use graaa_golang_auth_api.Redis.Interface.{str}
use graaa_golang_auth_api.Redis.Sample.{sample, running, Rows}
use graaa_golang_auth_api.Redis.Sample.Laws.{sample-IsRedis}
use graaa_golang_auth_api.Redis.Keys.{
  session_key, user_sessions_key, all_sessions_key, session_meta_key, blacklist_user_key,
  blacklist_token_key,
}
use graaa_golang_auth_api.Redis.Sessions.{second, minute, hour, index_session, create_session}
use graaa_golang_auth_api.Redis.Tokens.{blacklist_access_token}
use graaa_golang_auth_api.Redis.Slots.{set_oidc_granted_scopes}
use graaa_golang_auth_api.Jwt.{
  Claims, TokenConfig, access_claims, refresh_claims, generate_access_token, generate_refresh_token,
  parse_token,
}
use graaa_golang_auth_api.Password.{resolve_token_ttls}
use graaa_golang_auth_api.Database.{served}
use graaa_golang_auth_api.Oidc.Minting.{
  Issuing, Tokens, issuer_url, session_ttl, expires_in_seconds, id_params, mint_tokens_for_user,
}
use graaa_golang_auth_api.Oidc.Minting.Blacklist.{mint_tokens_for_user-blacklisted}
use graaa_golang_auth_api.Oidc.Endpoints.{revoke}
use graaa_golang_auth_api.Oidc.Endpoints.Revocation.{revoke-rejects}
use graaa_golang_auth_api.Middleware.Auth.{authenticated, auth_middleware, token_of_header}
use graaa_golang_auth_api.Tests.SampleJwt.{encode, sample_jwt, sample_jwt-IsJwt}
use graaa_golang_auth_api.Tests.Provider.{app, plain, client, alice, no_codes}

unfoldable run : Unit {0}
unfolding running session_key user_sessions_key all_sessions_key session_meta_key blacklist_user_key
    blacklist_token_key index_session create_session blacklist_access_token set_oidc_granted_scopes
    access_claims refresh_claims generate_access_token generate_refresh_token parse_token
    resolve_token_ttls issuer_url session_ttl expires_in_seconds id_params mint_tokens_for_user
    revoke token_of_header has_prefix byte_len join
run = tt

abbrev cfg : TokenConfig
cfg = record { default_access_ttl = 15 * minute; default_refresh_ttl = 720 * hour }

abbrev issuing : Issuing
issuing = record {
  sign_id = λ key c. some (codes "id");
  hash_half = λ token. codes "h";
  default_id_minutes = 60;
  public_url = codes "https://a";
}

abbrev access : Claims
access = access_claims cfg (codes "a") (codes "u") (codes "s") [] 0 (100 * second)

abbrev refresh : Claims
refresh = refresh_claims cfg (codes "a") (codes "u") (codes "s") [] 0 (100 * second)

abbrev minted : Tokens
minted = record {
  access_token = encode access;
  refresh_token = encode refresh;
  id_token = codes "id";
  expires_in = 900;
}

-- The server after a logout of Alice.
abbrev logged_out : Rows
logged_out = (blacklist_user_key (codes "a") (codes "u"), str (codes "all_tokens_revoked")) ∷ []

abbrev header : Text
header = codes "Bearer " ++ encode access

mint_tokens_for_user-blacklisted_example :
    auth_middleware sample sample_jwt true header
      (200 * second)
      (mint_tokens_for_user sample sample_jwt cfg issuing app client alice []
        (codes "openid" ∷ [])
        []
        (some (codes "key"))
        (codes "s")
        (100 * second)
        (codes "t")
        logged_out).1
    ≢ authenticated access
unfolding run
mint_tokens_for_user-blacklisted_example =
    mint_tokens_for_user-blacklisted sample sample-IsRedis sample_jwt cfg issuing app client alice
      [] (codes "openid" ∷ []) [] (some (codes "key")) (codes "s") (100 * second) (codes "t")
      logged_out sample_jwt-IsJwt minted (str (codes "all_tokens_revoked")) true header
      (200 * second) access (omega arith) refl refl refl (omega arith)

revoke-rejects_example :
    auth_middleware sample sample_jwt true header
      (300 * second)
      (revoke sample sample_jwt plain served app [] [] (encode access) (200 * second) no_codes []).1
    ≢ authenticated access
unfolding run
revoke-rejects_example =
    revoke-rejects sample sample-IsRedis sample_jwt sample_jwt-IsJwt app plain served [] []
      (encode access) (200 * second) (300 * second) no_codes [] true header access access refl refl
      refl refl refl
