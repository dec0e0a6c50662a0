-- ===== src/Redis/Slots.antt =====
-- Codes and short-lived tokens of internal/redis/redis.go: each has one key, and is stored, read and
-- deleted by a function of its own.
pub mod Handover
use graaa_golang_auth_api.Common.{ℕ, ◌*◌, [], Text, codes}
use graaa_golang_auth_api.Redis.Interface.{Reply, ok, nil, failed, Redis}
use graaa_golang_auth_api.Redis.Exec.{Exec, read}
use graaa_golang_auth_api.Redis.Keys.{app_key}
use graaa_golang_auth_api.Redis.Sessions.{minute}

-- `redis.Nil` read as the empty text.
abbrev empty_if_nil : Reply Text → Reply Text
empty_if_nil (ok v) = ok v
empty_if_nil nil = ok []
empty_if_nil failed = failed

abbrev password_reset_token_key : Text → Text → Text
password_reset_token_key app id = app_key app (codes ":password_reset:") id

abbrev temp_two_fa_secret_key : Text → Text → Text
temp_two_fa_secret_key app id = app_key app (codes ":temp_2fa_secret:") id

abbrev temp_user_session_key : Text → Text → Text
temp_user_session_key app id = app_key app (codes ":temp_session:") id

abbrev two_fa_email_code_key : Text → Text → Text
two_fa_email_code_key app id = app_key app (codes ":2fa_email:") id

abbrev web_authn_registration_challenge_key : Text → Text → Text
web_authn_registration_challenge_key app id = app_key app (codes ":webauthn_reg:") id

abbrev web_authn_login_challenge_key : Text → Text → Text
web_authn_login_challenge_key app id = app_key app (codes ":webauthn_login:") id

abbrev phone_verification_code_key : Text → Text → Text
phone_verification_code_key app id = app_key app (codes ":phone_verify:") id

abbrev two_fa_sms_code_key : Text → Text → Text
two_fa_sms_code_key app id = app_key app (codes ":2fa_sms:") id

abbrev backup_email_two_fa_code_key : Text → Text → Text
backup_email_two_fa_code_key app id = app_key app (codes ":2fa_backup_email:") id

abbrev merge_token_key : Text → Text → Text
merge_token_key app id = app_key app (codes ":merge_token:") id

abbrev oidc_browser_session_key : Text → Text → Text
oidc_browser_session_key app id = app_key app (codes ":oidc_browser:") id

abbrev pub oidc_granted_scopes_key : Text → Text → Text
oidc_granted_scopes_key app id = app_key app (codes ":oidc_scopes:") id

module _ (r : Redis) where
  open r use {Db}

  unfoldable pub set_password_reset_token : Text → Text → Text → ℕ → Exec Db (Unit {0})
  set_password_reset_token app user token ttl = r.put (password_reset_token_key app token) user ttl

  unfoldable pub get_password_reset_token : Text → Text → Exec Db Text
  get_password_reset_token app token = read (r.get (password_reset_token_key app token))

  unfoldable pub delete_password_reset_token : Text → Text → Exec Db (Unit {0})
  delete_password_reset_token app token = r.del (password_reset_token_key app token)

  unfoldable pub set_temp_two_fa_secret : Text → Text → Text → ℕ → Exec Db (Unit {0})
  set_temp_two_fa_secret app user secret ttl = r.put (temp_two_fa_secret_key app user) secret ttl

  unfoldable pub get_temp_two_fa_secret : Text → Text → Exec Db Text
  get_temp_two_fa_secret app user = read (r.get (temp_two_fa_secret_key app user))

  unfoldable pub delete_temp_two_fa_secret : Text → Text → Exec Db (Unit {0})
  delete_temp_two_fa_secret app user = r.del (temp_two_fa_secret_key app user)

  unfoldable pub set_temp_user_session : Text → Text → Text → ℕ → Exec Db (Unit {0})
  set_temp_user_session app temp_token user ttl =
      r.put (temp_user_session_key app temp_token) user ttl

  unfoldable pub get_temp_user_session : Text → Text → Exec Db Text
  get_temp_user_session app temp_token = read (r.get (temp_user_session_key app temp_token))

  unfoldable pub delete_temp_user_session : Text → Text → Exec Db (Unit {0})
  delete_temp_user_session app temp_token = r.del (temp_user_session_key app temp_token)

  unfoldable pub set_two_fa_email_code : Text → Text → Text → Exec Db (Unit {0})
  set_two_fa_email_code app user code = r.put (two_fa_email_code_key app user) code (5 * minute)

  unfoldable pub get_two_fa_email_code : Text → Text → Exec Db Text
  get_two_fa_email_code app user = read (r.get (two_fa_email_code_key app user))

  unfoldable pub delete_two_fa_email_code : Text → Text → Exec Db (Unit {0})
  delete_two_fa_email_code app user = r.del (two_fa_email_code_key app user)

  unfoldable pub set_web_authn_registration_challenge : Text → Text → Text → ℕ → Exec Db (Unit {0})
  set_web_authn_registration_challenge app user session_json ttl =
      r.put (web_authn_registration_challenge_key app user) session_json ttl

  unfoldable pub get_web_authn_registration_challenge : Text → Text → Exec Db Text
  get_web_authn_registration_challenge app user =
      read (r.get (web_authn_registration_challenge_key app user))

  unfoldable pub delete_web_authn_registration_challenge : Text → Text → Exec Db (Unit {0})
  delete_web_authn_registration_challenge app user =
      r.del (web_authn_registration_challenge_key app user)

  unfoldable pub set_web_authn_login_challenge : Text → Text → Text → ℕ → Exec Db (Unit {0})
  set_web_authn_login_challenge app identifier session_json ttl =
      r.put (web_authn_login_challenge_key app identifier) session_json ttl

  unfoldable pub get_web_authn_login_challenge : Text → Text → Exec Db Text
  get_web_authn_login_challenge app identifier =
      read (r.get (web_authn_login_challenge_key app identifier))

  unfoldable pub delete_web_authn_login_challenge : Text → Text → Exec Db (Unit {0})
  delete_web_authn_login_challenge app identifier =
      r.del (web_authn_login_challenge_key app identifier)

  unfoldable pub set_phone_verification_code : Text → Text → Text → ℕ → Exec Db (Unit {0})
  set_phone_verification_code app user code ttl =
      r.put (phone_verification_code_key app user) code ttl

  unfoldable pub get_phone_verification_code : Text → Text → Exec Db Text
  get_phone_verification_code app user = read (r.get (phone_verification_code_key app user))

  unfoldable pub delete_phone_verification_code : Text → Text → Exec Db (Unit {0})
  delete_phone_verification_code app user = r.del (phone_verification_code_key app user)

  unfoldable pub set_two_fa_sms_code : Text → Text → Text → Exec Db (Unit {0})
  set_two_fa_sms_code app user code = r.put (two_fa_sms_code_key app user) code (5 * minute)

  unfoldable pub get_two_fa_sms_code : Text → Text → Exec Db Text
  get_two_fa_sms_code app user = read (r.get (two_fa_sms_code_key app user))

  unfoldable pub delete_two_fa_sms_code : Text → Text → Exec Db (Unit {0})
  delete_two_fa_sms_code app user = r.del (two_fa_sms_code_key app user)

  unfoldable pub set_backup_email_two_fa_code : Text → Text → Text → Exec Db (Unit {0})
  set_backup_email_two_fa_code app user code =
      r.put (backup_email_two_fa_code_key app user) code (5 * minute)

  unfoldable pub get_backup_email_two_fa_code : Text → Text → Exec Db Text
  get_backup_email_two_fa_code app user = read (r.get (backup_email_two_fa_code_key app user))

  unfoldable pub delete_backup_email_two_fa_code : Text → Text → Exec Db (Unit {0})
  delete_backup_email_two_fa_code app user = r.del (backup_email_two_fa_code_key app user)

  unfoldable pub set_merge_token : Text → Text → Text → ℕ → Exec Db (Unit {0})
  set_merge_token app token payload ttl = r.put (merge_token_key app token) payload ttl

  unfoldable pub get_merge_token : Text → Text → Exec Db Text
  get_merge_token app token = read (r.get (merge_token_key app token))

  unfoldable pub delete_merge_token : Text → Text → Exec Db (Unit {0})
  delete_merge_token app token = r.del (merge_token_key app token)

  unfoldable pub set_oidc_browser_session : Text → Text → Text → ℕ → Exec Db (Unit {0})
  set_oidc_browser_session app session_token user ttl =
      r.put (oidc_browser_session_key app session_token) user ttl

  unfoldable pub get_oidc_browser_session : Text → Text → Exec Db Text
  get_oidc_browser_session app session_token =
      read (λ d. empty_if_nil (r.get (oidc_browser_session_key app session_token) d))

  unfoldable pub delete_oidc_browser_session : Text → Text → Exec Db (Unit {0})
  delete_oidc_browser_session app session_token = r.del (oidc_browser_session_key app session_token)

  unfoldable pub set_oidc_granted_scopes : Text → Text → Text → ℕ → Exec Db (Unit {0})
  set_oidc_granted_scopes app session scopes ttl =
      r.put (oidc_granted_scopes_key app session) scopes ttl

  unfoldable pub get_oidc_granted_scopes : Text → Text → Exec Db Text
  get_oidc_granted_scopes app session =
      read (λ d. empty_if_nil (r.get (oidc_granted_scopes_key app session) d))
