-- ===== src/Middleware/Auth.antt =====
-- internal/middleware/auth.go: AuthMiddleware, over a server that is configured (`Rdb` is set).
pub mod Decision
use graaa_golang_auth_api.Common.{
  ℕ, Bool, true, false, not, ◌&&◌, ◌||◌, Option, none, some, List, Text, codes, text_eq, is_empty,
  ltb, has_prefix, byte_len, if◌then◌else◌,
}
use graaa_golang_auth_api.Redis.Interface.{Reply, ok, nil, failed, Redis}
use graaa_golang_auth_api.Redis.Sessions.{session_exists}
use graaa_golang_auth_api.Redis.Tokens.{
  is_access_token_blacklisted, is_user_tokens_blacklisted, drop_text,
}
use graaa_golang_auth_api.Jwt.{Claims, Jwt, parse_token, type_access}

-- The JSON errors of the 401 and 500 answers, or the claims that go into the context.
pub data AuthResponse : Type 0 where
  header_required invalid_or_expired wrong_type token_revoked all_tokens_revoked : AuthResponse
  session_revoked : AuthResponse
  token_validation_error session_validation_error service_unavailable : AuthResponse
  authenticated : Claims → AuthResponse

abbrev pub bearer : Text
bearer = codes "Bearer "

unfoldable pub token_of_header : Text → Text
token_of_header header =
    if ltb 7 (byte_len header) && has_prefix header bearer then drop_text bearer header else header

-- A test of the server: an error ends in `e`, a hit in `hit`, else the next test is made.
abbrev pub deny_if : Reply Bool → AuthResponse → AuthResponse → AuthResponse → AuthResponse
deny_if (ok true) e hit next = hit
deny_if (ok false) e hit next = next
deny_if nil e hit next = e
deny_if failed e hit next = e

abbrev pub deny_unless : Reply Bool → AuthResponse → AuthResponse → AuthResponse → AuthResponse
deny_unless (ok true) e miss next = next
deny_unless (ok false) e miss next = miss
deny_unless nil e miss next = e
deny_unless failed e miss next = e

module _ (r : Redis) where
  -- The session is tested only where the token names one.
  unfoldable pub check_session : Claims → r.Db → AuthResponse
  check_session c d =
      if is_empty c.session_id
      then authenticated c
      else deny_unless (session_exists r c.app_id c.session_id d).0 session_validation_error
          session_revoked (authenticated c)

  unfoldable pub check_server : Text → Claims → r.Db → AuthResponse
  check_server token c d =
      deny_if (is_access_token_blacklisted r c.app_id token d).0 token_validation_error
        token_revoked
        (deny_if (is_user_tokens_blacklisted r c.app_id c.user_id d).0 token_validation_error
          all_tokens_revoked (check_session c d))

  unfoldable pub check_token : Bool → Text → Option Claims → r.Db → AuthResponse
  check_token available token none d = invalid_or_expired
  check_token available token (some c) d =
      if not (is_empty c.token_type) && not (text_eq c.token_type type_access)
      then wrong_type
      else if available
      then check_server token c d
      else service_unavailable

module _ (r : Redis) (j : Jwt) where
  -- `available` is the test `redis.Rdb != nil`.
  unfoldable pub auth_middleware : Bool → Text → ℕ → r.Db → AuthResponse
  auth_middleware available header now d =
      if is_empty header
      then header_required
      else check_token r available (token_of_header header)
          (parse_token j now (token_of_header header)) d
