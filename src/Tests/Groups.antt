-- ===== src/Tests/Groups.antt =====
-- Two applications in a group, and a user of both.
use graaa_golang_auth_api.Common.{
  split_two, ◌*◌, ◌≡◌, refl, ◌≢◌, inl, inr, true, some, [], ◌∷◌, ◌++◌, Text, codes, arith,
  has_prefix, byte_len,
}
use graaa_golang_auth_api.Redis.Sample.{sample, running}
use graaa_golang_auth_api.Redis.Sample.Laws.{sample-IsRedis}
use graaa_golang_auth_api.Redis.Sessions.{second, minute, hour}
use graaa_golang_auth_api.Jwt.{Claims, TokenConfig, access_claims, parse_token}
use graaa_golang_auth_api.SessionGroup.{SessionGroup, Directory, revoke_all_user_sessions_in_group}
use graaa_golang_auth_api.SessionGroup.Logout.{revoke_all_user_sessions_in_group-rejects}
use graaa_golang_auth_api.Middleware.Auth.{authenticated, auth_middleware, token_of_header}
use graaa_golang_auth_api.Redis.Sample.{Rows}
use graaa_golang_auth_api.Redis.Slots.Handover.{
  set_sso_token, get_sso_token, delete_sso_token, three_fields,
}
use graaa_golang_auth_api.Flow.{reject}
use graaa_golang_auth_api.Sso.{SsoDirectory, Client, invalid_token, exchange}
use graaa_golang_auth_api.Sso.Exchange.{exchange-once}
use graaa_golang_auth_api.Tests.SampleJwt.{encode, sample_jwt}

unfoldable run : Unit {0}
unfolding running access_claims parse_token token_of_header has_prefix byte_len set_sso_token
    get_sso_token delete_sso_token three_fields split_two
run = tt

abbrev cfg : TokenConfig
cfg = record { default_access_ttl = 15 * minute; default_refresh_ttl = 720 * hour }

abbrev group : SessionGroup
group = record { id = codes "g"; global_logout = true }

abbrev directory : Directory
directory = record {
  get_session_group_for_app = λ app. some group;
  get_apps_in_session_group = λ id. some (codes "a" ∷ codes "b" ∷ []);
  user_by_email = λ app email. some (codes "u");
  email_of_user = λ user. some (codes "alice@a");
}

abbrev access : Claims
access = access_claims cfg (codes "b") (codes "u") (codes "s") [] 0 (100 * second)

abbrev header : Text
header = codes "Bearer " ++ encode access

revoke_all_user_sessions_in_group-rejects_example :
    auth_middleware sample sample_jwt true header (200 * second) (
      revoke_all_user_sessions_in_group sample sample_jwt cfg directory
        (codes "a")
        (codes "alice@a")
        [])
    ≢ authenticated access
unfolding run
revoke_all_user_sessions_in_group-rejects_example =
    revoke_all_user_sessions_in_group-rejects sample sample-IsRedis sample_jwt cfg directory
      (λ k v ttl d. refl) (codes "a") (codes "alice@a") (codes "b") (codes "u") group
      (codes "a" ∷ codes "b" ∷ []) [] true header (200 * second) access access refl refl refl
      (((λ h. omega arith), tt), (((λ h. omega arith), tt), tt)) ((λ h. omega arith), tt)
      (inr (inl refl)) refl refl refl refl refl

abbrev peers : SsoDirectory
peers = record {
  get_session_group_for_app = λ app. some (codes "g");
  get_apps_in_session_group = λ id. some (codes "a" ∷ codes "b" ∷ []);
  email_of_user = λ user. some (codes "alice@a");
  user_by_email = λ app email. some (record { id = codes "v"; is_active = true });
  access_ttl = λ app. 0;
  refresh_ttl = λ app. 0;
  lookup_roles = λ app user. [];
}

abbrev client : Client
client = record {
  ip = codes "10.0.0.1";
  user_agent = codes "test";
  fresh = codes "s2";
  now = 100 * second;
  stamp = codes "100";
}

-- The token `t` of the user u of the application a.
abbrev issued : Rows
issued = (set_sso_token sample (codes "t") (codes "g") (codes "a") (codes "u") []).1

exchange-once_example :
    (exchange sample peers sample_jwt cfg
      (codes "b")
      (codes "t")
      client
      (exchange sample peers sample_jwt cfg (codes "b") (codes "t") client issued).1).0
    ≡ reject invalid_token
unfolding run
exchange-once_example =
    exchange-once sample sample-IsRedis peers sample_jwt cfg (codes "b") (codes "t") client issued
      (codes "g") (codes "a") (codes "u") (codes "b") client (omega arith) refl refl
