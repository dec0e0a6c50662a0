-- ===== src/BruteForce/Config.antt =====
-- internal/bruteforce/service.go: the configuration of one request. Durations are nanoseconds and,
-- as the integers of the configuration, not negative.
pub mod Resolved
use graaa_golang_auth_api.Common.{
  ℕ, ◌*◌, Bool, true, false, Option, none, some, List, [], ◌∷◌, Text, codes, is_empty, split,
  trim_space,
}
use graaa_golang_auth_api.Redis.Sessions.{minute, hour}

pub record BruteForceConfig : Type 0 where
  pub lockout_enabled : Bool
  pub lockout_threshold : ℕ
  pub lockout_durations : List ℕ
  pub lockout_window : ℕ
  pub lockout_tier_ttl : ℕ
  pub delay_enabled : Bool
  pub delay_start_after : ℕ
  pub delay_max_seconds : ℕ
  pub delay_tier_ttl : ℕ
  pub captcha_enabled : Bool
  pub captcha_site_key : Text
  pub captcha_secret_key : Text
  pub captcha_threshold : ℕ

-- The columns of the application that override it.
pub record Application : Type 0 where
  pub bf_lockout_enabled : Option Bool
  pub bf_lockout_threshold : Option ℕ
  pub bf_lockout_durations : Option Text
  pub bf_lockout_window : Option Text
  pub bf_lockout_tier_ttl : Option Text
  pub bf_delay_enabled : Option Bool
  pub bf_delay_start_after : Option ℕ
  pub bf_delay_max_seconds : Option ℕ
  pub bf_delay_tier_ttl : Option Text
  pub bf_captcha_enabled : Option Bool
  pub bf_captcha_site_key : Option Text
  pub bf_captcha_secret_key : Option Text
  pub bf_captcha_threshold : Option ℕ

abbrev pub defaults : BruteForceConfig
defaults = record {
  lockout_enabled = true;
  lockout_threshold = 5;
  lockout_durations = 15 * minute ∷ 30 * minute ∷ 1 * hour ∷ 24 * hour ∷ [];
  lockout_window = 15 * minute;
  lockout_tier_ttl = 24 * hour;
  delay_enabled = true;
  delay_start_after = 2;
  delay_max_seconds = 16;
  delay_tier_ttl = 30 * minute;
  captcha_enabled = true;
  captcha_site_key = codes "6LeIxAcTAAAAAJcZVRqyHh71UMIEGNQ_MXjiZKhI";
  captcha_secret_key = codes "6LeIxAcTAAAAAGG-vFI1TnRWxMZNFuojJ4WifJWe";
  captcha_threshold = 3;
}

-- `if p != nil { x = *p }`
abbrev pub override : {A : Type 0} → Option A → A → A
override none x = x
override (some y) x = y

-- A key overrides only where it is not empty.
abbrev pub override_key : Option Text → Text → Text
override_key none x = x
override_key (some []) x = x
override_key (some (c ∷ s)) x = c ∷ s

-- A list overrides only where it is not empty.
abbrev pub or_default : List ℕ → List ℕ → List ℕ
or_default [] ds = ds
or_default (d ∷ parsed) ds = d ∷ parsed

-- `time.ParseDuration`, for durations that are not negative.
module _ (parse_duration : Text → Option ℕ) where
  -- The loop keeps the parts that parse and skips the blank ones.
  unfoldable pub keep_duration : Text → List ℕ → List ℕ
  keep_duration p durations = elim (is_empty p) [
    | true ↦ durations
    | false ↦ elim (parse_duration p) [ none ↦ durations | some d ↦ d ∷ durations ]
  ]

  unfoldable pub parse_parts : List Text → List ℕ
  unfolding keep_duration
  parse_parts [] = []
  parse_parts (p ∷ parts) = keep_duration (trim_space p) (parse_parts parts)

  unfoldable pub parse_durations : Text → List ℕ
  unfolding parse_parts
  parse_durations s = parse_parts (split b',' s)

  abbrev pub override_durations : Option Text → List ℕ → List ℕ
  override_durations none ds = ds
  override_durations (some s) ds = or_default (parse_durations s) ds

  abbrev pub override_duration : Option Text → ℕ → ℕ
  override_duration none x = x
  override_duration (some s) x = override (parse_duration s) x

  unfoldable pub resolve_config : Option Application → BruteForceConfig
  resolve_config none = defaults
  resolve_config (some app) = record {
    lockout_enabled = override app.bf_lockout_enabled defaults.lockout_enabled;
    lockout_threshold = override app.bf_lockout_threshold defaults.lockout_threshold;
    lockout_durations = override_durations app.bf_lockout_durations defaults.lockout_durations;
    lockout_window = override_duration app.bf_lockout_window defaults.lockout_window;
    lockout_tier_ttl = override_duration app.bf_lockout_tier_ttl defaults.lockout_tier_ttl;
    delay_enabled = override app.bf_delay_enabled defaults.delay_enabled;
    delay_start_after = override app.bf_delay_start_after defaults.delay_start_after;
    delay_max_seconds = override app.bf_delay_max_seconds defaults.delay_max_seconds;
    delay_tier_ttl = override_duration app.bf_delay_tier_ttl defaults.delay_tier_ttl;
    captcha_enabled = override app.bf_captcha_enabled defaults.captcha_enabled;
    captcha_site_key = override_key app.bf_captcha_site_key defaults.captcha_site_key;
    captcha_secret_key = override_key app.bf_captcha_secret_key defaults.captcha_secret_key;
    captcha_threshold = override app.bf_captcha_threshold defaults.captcha_threshold;
  }
