-- ===== src/Oidc/Codes.antt =====
-- internal/oidc/service.go: authorization codes, issued and exchanged.
pub mod Replay
pub mod Exchange
use graaa_golang_auth_api.Common.{
  ℕ, ◌+◌, ◌*◌, Bool, true, false, not, ◌&&◌, ◌||◌, List, ◌∷◌, Text, text_eq, is_empty, any, ltb,
  ◌==◌, if◌then◌else◌,
}
use graaa_golang_auth_api.Redis.Interface.{Reply, ok, nil, failed}
use graaa_golang_auth_api.Redis.Sessions.{minute}
use graaa_golang_auth_api.Database.{
  Fate, served, refused, lost, first_where, first, first_reply, update_where, delete_where, written,
  write_reply,
}
use graaa_golang_auth_api.Flow.{Flow, done, obtain, call, guard, ◌>>=◌, ◌>>◌}
use graaa_golang_auth_api.Oidc.{
  OidcAuthCode, User, Tables, Library, OidcError, verify_pkce, database_error, code_not_found,
  code_already_used, code_expired, client_mismatch, redirect_uri_mismatch, code_verifier_required,
  code_verifier_mismatch, mark_failed, user_not_found,
}

abbrev pub has_code : Text → OidcAuthCode → Bool
has_code code ac = text_eq ac.code code

abbrev pub has_code_id : Text → OidcAuthCode → Bool
has_code_id id ac = text_eq ac.id id

abbrev pub mark : OidcAuthCode → OidcAuthCode
mark ac = record ac { used = true }

-- The insert, which the unique index on the code may refuse.
unfoldable pub create_auth_code : Fate → OidcAuthCode → Tables → Reply (Unit {0}) × Tables
create_auth_code fate ac t =
    if any (has_code ac.code) t.auth_codes
    then (failed, t)
    else (write_reply fate, record t { auth_codes = written fate t.auth_codes (ac ∷ t.auth_codes) })

unfoldable pub get_auth_code : Fate → Text → Tables → Reply OidcAuthCode
get_auth_code fate code t = first fate (has_code code) t.auth_codes

unfoldable pub mark_auth_code_used : Fate → Text → Tables → Reply (Unit {0}) × Tables
mark_auth_code_used fate id t = (
  write_reply fate,
  record t {
    auth_codes = written fate t.auth_codes (update_where (has_code_id id) mark t.auth_codes);
  },
)

unfoldable pub delete_expired_auth_codes : Fate → ℕ → Tables → Reply (Unit {0}) × Tables
delete_expired_auth_codes fate now t = (
  write_reply fate,
  record t {
    auth_codes =
        written fate t.auth_codes (delete_where (λ ac. ltb ac.expires_at now) t.auth_codes);
  },
)

abbrev pub has_user_id : Text → User → Bool
has_user_id id u = text_eq u.id id

unfoldable pub get_user_by_id : Fate → Text → Tables → Reply User
get_user_by_id fate id t = first fate (has_user_id id) t.users

-- What IssueAuthCode is asked for.
pub record CodeRequest : Type 0 where
  pub app_id : Text
  pub client_id : Text
  pub user_id : Text
  pub redirect_uri : Text
  pub scopes : Text
  pub nonce : Text
  pub code_challenge : Text
  pub code_challenge_method : Text

-- OIDC_AUTH_CODE_EXPIRATION_MINUTES, or 10 minutes where it is not set.
abbrev pub code_ttl : ℕ → ℕ
code_ttl minutes = if minutes == 0 then minute * 10 else minute * minutes

unfoldable pub new_auth_code : ℕ → Text → Text → CodeRequest → ℕ → OidcAuthCode
new_auth_code minutes id code q now = record {
  id = id;
  app_id = q.app_id;
  client_id = q.client_id;
  user_id = q.user_id;
  code = code;
  redirect_uri = q.redirect_uri;
  scopes = q.scopes;
  nonce = q.nonce;
  code_challenge = q.code_challenge;
  code_challenge_method = q.code_challenge_method;
  expires_at = now + code_ttl minutes;
  used = false;
}

unfoldable pub issue_auth_code :
    ℕ → Fate → Text → Text → CodeRequest → ℕ → Flow OidcError Tables OidcAuthCode
issue_auth_code minutes save id code q now = do
  call (create_auth_code save (new_auth_code minutes id code q now)) database_error
  done (new_auth_code minutes id code q now)

-- What the token endpoint is given.
pub record ExchangeRequest : Type 0 where
  pub code : Text
  pub client_id : Text
  pub redirect_uri : Text
  pub code_verifier : Text

-- ExchangeCode from MarkAuthCodeUsed on.
unfoldable pub redeem : Fate → Fate → OidcAuthCode → Flow OidcError Tables (OidcAuthCode × User)
redeem save load_user ac = do
  call (mark_auth_code_used save ac.id) mark_failed
  user ← obtain (get_user_by_id load_user ac.user_id) user_not_found user_not_found
  done (ac, user)

module _ (lib : Library) where
  -- ExchangeCode up to MarkAuthCodeUsed: the code is read and tested.
  unfoldable pub check_code : Fate → ExchangeRequest → ℕ → Flow OidcError Tables OidcAuthCode
  check_code load q now = do
    ac ← obtain (get_auth_code load q.code) code_not_found database_error
    guard (not ac.used) code_already_used
    guard (not (ltb ac.expires_at now)) code_expired
    guard (text_eq ac.client_id q.client_id) client_mismatch
    guard (text_eq ac.redirect_uri q.redirect_uri) redirect_uri_mismatch
    guard (is_empty ac.code_challenge || not (is_empty q.code_verifier)) code_verifier_required
    guard
        (is_empty ac.code_challenge
          || verify_pkce lib ac.code_challenge ac.code_challenge_method q.code_verifier)
        code_verifier_mismatch
    done ac

  unfoldable pub exchange_code :
      Fate → Fate → Fate → ExchangeRequest → ℕ → Flow OidcError Tables (OidcAuthCode × User)
  exchange_code load save load_user q now = do ac ← check_code load q now; redeem save load_user ac
