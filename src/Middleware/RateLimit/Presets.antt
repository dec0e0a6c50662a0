-- ===== src/Middleware/RateLimit/Presets.antt =====
-- The limiters that rate_limit.go builds for the routes.
use graaa_golang_auth_api.Common.{ℕ, ◌*◌, true, false, List, [], ◌∷◌, String, codes}
use graaa_golang_auth_api.Redis.Sessions.{second, minute}
use graaa_golang_auth_api.Middleware.RateLimit.{RateLimitConfig}

-- A limiter without a lockout that answers 429.
abbrev soft : String → ℕ → ℕ → RateLimitConfig
soft key_prefix max_attempts window = record {
  key_prefix = codes key_prefix;
  max_attempts = max_attempts;
  window = window;
  lockout_threshold = 0;
  lockout_duration = 0;
  use_context_key = false;
}

-- A limiter over 60 seconds with a lockout that answers 429.
abbrev hard : String → ℕ → ℕ → ℕ → RateLimitConfig
hard key_prefix max_attempts threshold duration = record {
  key_prefix = codes key_prefix;
  max_attempts = max_attempts;
  window = 60 * second;
  lockout_threshold = threshold;
  lockout_duration = duration;
  use_context_key = false;
}

abbrev pub login_rate_limit : RateLimitConfig
login_rate_limit = record {
  key_prefix = codes "gui:login";
  max_attempts = 5;
  window = 60 * second;
  lockout_threshold = 10;
  lockout_duration = 15 * minute;
  use_context_key = true;
}

abbrev pub api_login_rate_limit : RateLimitConfig
api_login_rate_limit = hard "api:login" 15 30 (15 * minute)

abbrev pub api_register_rate_limit : RateLimitConfig
api_register_rate_limit = soft "api:register" 3 (60 * second)

abbrev pub api_forgot_password_rate_limit : RateLimitConfig
api_forgot_password_rate_limit = soft "api:forgot-password" 3 (60 * second)

abbrev pub api_resend_verification_rate_limit : RateLimitConfig
api_resend_verification_rate_limit = soft "api:resend-verification" 3 (60 * second)

abbrev pub api_refresh_token_rate_limit : RateLimitConfig
api_refresh_token_rate_limit = soft "api:refresh-token" 10 (60 * second)

abbrev pub api_reset_password_rate_limit : RateLimitConfig
api_reset_password_rate_limit = soft "api:reset-password" 5 (60 * second)

abbrev pub api_2fa_verify_rate_limit : RateLimitConfig
api_2fa_verify_rate_limit = hard "api:2fa-verify" 5 10 (15 * minute)

abbrev pub api_passkey_login_rate_limit : RateLimitConfig
api_passkey_login_rate_limit = hard "api:passkey-login" 10 20 (15 * minute)

abbrev pub api_passkey_2fa_rate_limit : RateLimitConfig
api_passkey_2fa_rate_limit = hard "api:passkey-2fa" 10 20 (15 * minute)

abbrev pub api_magic_link_rate_limit : RateLimitConfig
api_magic_link_rate_limit = soft "api:magic-link" 5 (15 * minute)

abbrev pub api_sso_rate_limit : RateLimitConfig
api_sso_rate_limit = soft "api:sso-token" 5 (60 * second)

abbrev pub gui_magic_link_rate_limit : RateLimitConfig
gui_magic_link_rate_limit = soft "gui:magic-link" 3 (15 * minute)

abbrev pub gui_passkey_login_rate_limit : RateLimitConfig
gui_passkey_login_rate_limit = hard "gui:passkey-login" 10 20 (15 * minute)

abbrev pub oidc_authorize_rate_limit : RateLimitConfig
oidc_authorize_rate_limit = hard "oidc:authorize" 20 40 (15 * minute)

abbrev pub oidc_token_rate_limit : RateLimitConfig
oidc_token_rate_limit = hard "oidc:token" 30 60 (5 * minute)

abbrev pub oidc_user_info_rate_limit : RateLimitConfig
oidc_user_info_rate_limit = soft "oidc:userinfo" 60 (60 * second)

abbrev pub oidc_introspect_rate_limit : RateLimitConfig
oidc_introspect_rate_limit = hard "oidc:introspect" 30 60 (5 * minute)

abbrev pub oidc_revoke_rate_limit : RateLimitConfig
oidc_revoke_rate_limit = hard "oidc:revoke" 10 20 (15 * minute)

-- The limiters that have a hard lockout.
abbrev pub locking : List RateLimitConfig
locking =
    login_rate_limit ∷ api_login_rate_limit ∷ api_2fa_verify_rate_limit
    ∷ api_passkey_login_rate_limit ∷ api_passkey_2fa_rate_limit ∷ gui_passkey_login_rate_limit
    ∷ oidc_authorize_rate_limit ∷ oidc_token_rate_limit ∷ oidc_introspect_rate_limit
    ∷ oidc_revoke_rate_limit ∷ []
