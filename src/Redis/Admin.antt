-- ===== src/Redis/Admin.antt =====
-- The keys of internal/redis/redis.go that belong to the admin interface, with the counter of its logins,
-- and the cooldown of notifications.
pub mod Logins
use graaa_golang_auth_api.Common.{
  ℕ, ◌+◌, ◌*◌, Bool, true, false, ◌++◌, ◌∷◌, Text, codes, is_empty, if◌then◌else◌,
}
use graaa_golang_auth_api.Redis.Interface.{Reply, ok, nil, failed, Redis}
use graaa_golang_auth_api.Redis.Exec.{Exec, read, ◌>>◌}
use graaa_golang_auth_api.Redis.Counters.{incr_in_window, count_or_zero}
use graaa_golang_auth_api.Redis.Sessions.{second, minute}
use graaa_golang_auth_api.Redis.Tokens.{found}

unfoldable pub admin_session_key : Text → Text
admin_session_key session = codes "admin:session:" ++ session

unfoldable pub csrf_token_key : Text → Text
csrf_token_key session = codes "admin:csrf:" ++ session

unfoldable pub login_attempts_key : Text → Text
login_attempts_key ip = codes "admin:login_attempts:" ++ ip

unfoldable pub login_lockout_key : Text → Text
login_lockout_key ip = codes "admin:login_lockout:" ++ ip

unfoldable pub admin_two_fa_temp_secret_key : Text → Text
admin_two_fa_temp_secret_key admin = codes "admin:2fa_temp_secret:" ++ admin

unfoldable pub admin_two_fa_temp_session_key : Text → Text
admin_two_fa_temp_session_key token = codes "admin:2fa_temp_session:" ++ token

unfoldable pub admin_two_fa_email_code_key : Text → Text
admin_two_fa_email_code_key admin = codes "admin:2fa_email:" ++ admin

unfoldable pub admin_magic_link_key : Text → Text
admin_magic_link_key token = codes "admin:magic_link:" ++ token

unfoldable pub admin_magic_link_user_key : Text → Text
admin_magic_link_user_key admin = codes "admin:magic_link_user:" ++ admin

unfoldable pub notification_cooldown_key : Text → Text → Text → Text
notification_cooldown_key app user kind =
    codes "notify_cooldown:" ++ (app ++ (b':' ∷ (user ++ (b':' ∷ kind))))

abbrev pub both : Reply (Unit {0}) → Reply (Unit {0}) → Reply (Unit {0})
both (ok u) b = b
both nil b = nil
both failed b = failed

module _ (r : Redis) where
  open r use {Db}

  -- DEL with two keys.
  unfoldable pub del_two : Text → Text → Exec Db (Unit {0})
  del_two k l d = (both (r.del k d).0 (r.del l (r.del k d).1).0, (r.del l (r.del k d).1).1)

  unfoldable pub set_admin_session : Text → Text → ℕ → Exec Db (Unit {0})
  set_admin_session session admin ttl = r.put (admin_session_key session) admin ttl

  unfoldable pub get_admin_session : Text → Exec Db Text
  get_admin_session session = read (r.get (admin_session_key session))

  unfoldable pub delete_admin_session : Text → Exec Db (Unit {0})
  delete_admin_session session = r.del (admin_session_key session)

  unfoldable pub set_csrf_token : Text → Text → ℕ → Exec Db (Unit {0})
  set_csrf_token session token ttl = r.put (csrf_token_key session) token ttl

  unfoldable pub get_csrf_token : Text → Exec Db Text
  get_csrf_token session = read (r.get (csrf_token_key session))

  unfoldable pub incr_login_attempts : Text → Exec Db ℕ
  incr_login_attempts ip = incr_in_window r (login_attempts_key ip) (60 * second)

  unfoldable pub get_login_attempts : Text → Exec Db ℕ
  get_login_attempts ip = read (λ d. count_or_zero (r.get (login_attempts_key ip) d))

  unfoldable pub set_login_lockout : Text → ℕ → Exec Db (Unit {0})
  set_login_lockout ip ttl = r.put (login_lockout_key ip) (codes "locked") ttl

  unfoldable pub is_login_locked : Text → Exec Db Bool
  is_login_locked ip = read (λ d. found (r.get (login_lockout_key ip) d))

  unfoldable pub clear_login_attempts : Text → Exec Db (Unit {0})
  clear_login_attempts ip = del_two (login_attempts_key ip) (login_lockout_key ip)

  unfoldable pub clear_rate_limit_keys : Text → Text → Exec Db (Unit {0})
  clear_rate_limit_keys prefix identifier =
      del_two (codes "rl:" ++ (prefix ++ (codes ":attempts:" ++ identifier)))
        (codes "rl:" ++ (prefix ++ (codes ":lockout:" ++ identifier)))

  unfoldable pub set_admin_two_fa_temp_secret : Text → Text → Exec Db (Unit {0})
  set_admin_two_fa_temp_secret admin secret =
      r.put (admin_two_fa_temp_secret_key admin) secret (10 * minute)

  unfoldable pub get_admin_two_fa_temp_secret : Text → Exec Db Text
  get_admin_two_fa_temp_secret admin = read (r.get (admin_two_fa_temp_secret_key admin))

  unfoldable pub delete_admin_two_fa_temp_secret : Text → Exec Db (Unit {0})
  delete_admin_two_fa_temp_secret admin = r.del (admin_two_fa_temp_secret_key admin)

  unfoldable pub set_admin_two_fa_temp_session : Text → Text → Exec Db (Unit {0})
  set_admin_two_fa_temp_session token admin =
      r.put (admin_two_fa_temp_session_key token) admin (10 * minute)

  unfoldable pub get_admin_two_fa_temp_session : Text → Exec Db Text
  get_admin_two_fa_temp_session token = read (r.get (admin_two_fa_temp_session_key token))

  unfoldable pub delete_admin_two_fa_temp_session : Text → Exec Db (Unit {0})
  delete_admin_two_fa_temp_session token = r.del (admin_two_fa_temp_session_key token)

  unfoldable pub set_admin_two_fa_email_code : Text → Text → Exec Db (Unit {0})
  set_admin_two_fa_email_code admin code =
      r.put (admin_two_fa_email_code_key admin) code (5 * minute)

  unfoldable pub get_admin_two_fa_email_code : Text → Exec Db Text
  get_admin_two_fa_email_code admin = read (r.get (admin_two_fa_email_code_key admin))

  unfoldable pub delete_admin_two_fa_email_code : Text → Exec Db (Unit {0})
  delete_admin_two_fa_email_code admin = r.del (admin_two_fa_email_code_key admin)

  -- SetAdminMagicLinkToken drops the admin's old link, as far as it can be read.
  unfoldable pub drop_old_admin_link : Text → Db → Db
  drop_old_admin_link admin d = elim (r.get (admin_magic_link_user_key admin) d) [
    | nil ↦ d
    | failed ↦ d
    | ok old ↦ if is_empty old then d else (r.del (admin_magic_link_key old) d).1
  ]

  unfoldable pub store_admin_link : Text → Text → ℕ → Exec Db (Unit {0})
  store_admin_link admin token ttl = do
    r.put (admin_magic_link_key token) admin ttl
    r.put (admin_magic_link_user_key admin) token ttl

  unfoldable pub set_admin_magic_link_token : Text → Text → ℕ → Exec Db (Unit {0})
  set_admin_magic_link_token admin token ttl d =
      store_admin_link admin token ttl (drop_old_admin_link admin d)

  unfoldable pub get_admin_magic_link_token : Text → Exec Db Text
  get_admin_magic_link_token token = read (r.get (admin_magic_link_key token))

  -- DeleteAdminMagicLinkToken: the reverse key goes where the link names an admin.
  unfoldable pub drop_reverse_admin_link : Text → Db → Db
  drop_reverse_admin_link token d = elim (r.get (admin_magic_link_key token) d) [
    | nil ↦ d
    | failed ↦ d
    | ok admin ↦ if is_empty admin then d else (r.del (admin_magic_link_user_key admin) d).1
  ]

  unfoldable pub delete_admin_magic_link_token : Text → Exec Db (Unit {0})
  delete_admin_magic_link_token token d =
      r.del (admin_magic_link_key token) (drop_reverse_admin_link token d)

  unfoldable pub set_notification_cooldown : Text → Text → Text → ℕ → Exec Db (Unit {0})
  set_notification_cooldown app user kind cooldown =
      r.put (notification_cooldown_key app user kind) (codes "1") cooldown

  unfoldable pub is_notification_on_cooldown : Text → Text → Text → Exec Db Bool
  is_notification_on_cooldown app user kind =
      read (λ d. found (r.get (notification_cooldown_key app user kind) d))
