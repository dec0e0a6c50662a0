-- ===== src/Tests/Sessions.antt =====
-- Logins, refreshes, logouts and revocations on the sample server.
use graaa_golang_auth_api.Common.{
  ℕ, ap, ◌*◌, ◌≡◌, refl, ◌≢◌, ◌⊎◌, inl, inr, true, false, some, List, [], ◌∷◌, ◌++◌, Text, codes,
  lookup, text_key, Option-cases, is_empty, has_prefix, byte_len, arith,
}
use graaa_golang_auth_api.Redis.Interface.{field}
use graaa_golang_auth_api.Redis.Sample.{sample, running, Rows}
use graaa_golang_auth_api.Redis.Sample.Laws.{sample-IsRedis}
use graaa_golang_auth_api.Redis.Keys.{
  session_key, user_sessions_key, all_sessions_key, session_meta_key, blacklist_user_key,
  blacklist_token_key, nth,
}
use graaa_golang_auth_api.Redis.Sessions as Sessions
use graaa_golang_auth_api.Redis.Sessions.{
  second, minute, hour, index_session, update_session_refresh_token, get_session_refresh_token,
  reset_session_ttl, touch_session, unindex_session, delete_session, session_exists, live_sessions,
  indexed_sessions, get_user_session_ids, delete_sessions, rebuild_index, delete_all_user_sessions,
}
use graaa_golang_auth_api.Redis.Tokens.{
  clear_user_token_blacklist, blacklist_access_token, is_access_token_blacklisted,
  blacklist_all_user_tokens, is_user_tokens_blacklisted,
}
use graaa_golang_auth_api.Redis.Sessions.Revocation.{Answers}
use graaa_golang_auth_api.Jwt.{
  Claims, TokenConfig, access_claims, refresh_claims, parse_token, generate_access_token,
  generate_refresh_token, type_refresh,
}
use graaa_golang_auth_api.Session.{
  Result, Issued, success, check_claims, rotate, blacklist_rest, create_session, refresh_session,
  logout_session, revoke_all_user_sessions,
}
use graaa_golang_auth_api.Session.Created.{AcceptedOrLost, create_session-accepted}
use graaa_golang_auth_api.Session.Revoked.{logout_session-rejects, revoke_all_user_sessions-rejects}
use graaa_golang_auth_api.Session.Rotation.{refresh_session_sound, refresh_session-once}
use graaa_golang_auth_api.Middleware.Auth.{
  authenticated, auth_middleware, check_token, check_server, check_session, token_of_header,
}
use graaa_golang_auth_api.Middleware.Auth.Decision.{Accepted, auth_middleware_sound}
use graaa_golang_auth_api.Tests.SampleJwt.{encode, sample_jwt, sample_jwt-IsJwt}

-- Unfolding this name opens what the runs of this file compute with.
unfoldable run : Unit {0}
unfolding running Sessions.create_session create_session refresh_session logout_session
    revoke_all_user_sessions check_claims rotate blacklist_rest auth_middleware check_token
    check_server check_session token_of_header index_session update_session_refresh_token
    get_session_refresh_token reset_session_ttl touch_session unindex_session delete_session
    session_exists live_sessions indexed_sessions get_user_session_ids delete_sessions rebuild_index
    delete_all_user_sessions session_key user_sessions_key all_sessions_key session_meta_key
    blacklist_user_key blacklist_token_key access_claims refresh_claims generate_access_token
    generate_refresh_token parse_token clear_user_token_blacklist blacklist_access_token
    is_access_token_blacklisted blacklist_all_user_tokens is_user_tokens_blacklisted has_prefix
    byte_len
run = tt

abbrev cfg : TokenConfig
cfg = record { default_access_ttl = 15 * minute; default_refresh_ttl = 720 * hour }

abbrev app : Text
app = codes "a"

abbrev user : Text
user = codes "u"

abbrev sid : Text
sid = codes "s"

abbrev admin : List Text
admin = codes "admin" ∷ []

-- A login at second 100, on an empty server.
abbrev created : Result Issued × Rows
created =
    create_session sample sample_jwt cfg app user (codes "ip") (codes "ua") admin 0 0 sid
      (100 * second) (codes "t") []

abbrev access : Claims
access = access_claims cfg app user sid admin 0 (100 * second)

abbrev refresh : ℕ → Claims
refresh now = refresh_claims cfg app user sid admin 0 now

abbrev issued : Issued
issued = record {
  access_token = encode access;
  refresh_token = encode (refresh (100 * second));
  id = sid;
}

abbrev header : Text
header = codes "Bearer " ++ encode access

up : Answers sample
up = record {
  del_answers = λ k d. refl;
  exists_answers = λ k d. elim (Option-cases (lookup k d)) [
    | inl absent ↦ (0, rw absent refl)
    | inr (e, present) ↦ (1, rw present refl)
  ];
}

-- Another session has been created since.
abbrev touched : Rows
touched =
    (Sessions.create_session sample app (codes "s9") (codes "u9") (codes "r9") (codes "ip")
      (codes "ua") (codes "t") (60 * second) created.1).1

create_session-accepted_example :
    AcceptedOrLost (auth_middleware sample sample_jwt true header (200 * second) touched) access
unfolding run
create_session-accepted_example =
    create_session-accepted sample sample-IsRedis up sample_jwt cfg app user (codes "ip")
      (codes "ua") sid admin 0 0 (100 * second) (codes "t") [] issued (omega arith) refl
      sample_jwt-IsJwt header (200 * second) touched refl refl refl refl refl refl (omega arith)

logout_session-rejects_example :
    auth_middleware sample sample_jwt true header
      (200 * second)
      (logout_session sample sample_jwt cfg app user sid (encode access) (150 * second) created.1).1
    ≢ authenticated access
unfolding run
logout_session-rejects_example =
    logout_session-rejects sample sample-IsRedis sample_jwt cfg user (encode access) (150 * second)
      (200 * second) created.1 true header access access refl refl refl

revoke_all_user_sessions-rejects_example :
    auth_middleware sample sample_jwt true header
      (200 * second)
      (revoke_all_user_sessions sample sample_jwt cfg app user created.1).1
    ≢ authenticated access
unfolding run
revoke_all_user_sessions-rejects_example =
    revoke_all_user_sessions-rejects sample sample-IsRedis sample_jwt cfg (200 * second) created.1
      true header access access refl refl

-- A refresh at second 300 with the login's refresh token.
abbrev old : Text
old = encode (refresh (100 * second))

abbrev refreshed : Result Issued × Rows
refreshed = refresh_session sample sample_jwt cfg old 0 0 (300 * second) (codes "t2") created.1

abbrev renewed : Issued
renewed = record {
  access_token = encode (access_claims cfg app user sid admin 0 (300 * second));
  refresh_token = encode (refresh (300 * second));
  id = user;
}

refresh_session_sound_example :
    (c : Claims) × (parse_token sample_jwt (300 * second) old ≡ some c)
    × ((is_empty c.token_type ≡ true) ⊎ (c.token_type ≡ type_refresh))
    × (is_empty c.session_id ≡ false)
    × (field (codes "refresh_token") (sample.entry created.1 (session_key c.app_id c.session_id))
        ≡ some old)
unfolding run
refresh_session_sound_example =
    refresh_session_sound sample sample-IsRedis sample_jwt cfg old 0 0 (300 * second) (codes "t2")
      created.1 renewed refl

refresh_session-once_example :
    (refresh_session sample sample_jwt cfg old 0 0 (400 * second) (codes "t3") refreshed.1).0
    ≢ success renewed
unfolding run
refresh_session-once_example =
    refresh_session-once sample sample-IsRedis sample_jwt cfg old sample_jwt-IsJwt 0 0
      (300 * second) (400 * second) (codes "t2") 0 0 (codes "t3") created.1 renewed renewed
      (omega arith) refl (λ same. omega (arith, ap (nth 0) same))

auth_middleware_sound_example : Accepted sample sample_jwt header (200 * second) created.1 access
unfolding run
auth_middleware_sound_example =
    auth_middleware_sound sample sample-IsRedis sample_jwt true header (200 * second) created.1
      access refl
