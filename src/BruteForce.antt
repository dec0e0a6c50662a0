-- ===== src/BruteForce.antt =====
-- internal/bruteforce/service.go: account lockout, progressive delays, when a captcha is due. The
-- reading of the clock is the argument `now`; an index out of range ends in `panicked`. The count
-- that `HandleFailedLogin` returns beside an error is left out.
pub mod Config
pub mod Columns
pub mod Lockout
pub mod Expiry
pub mod Delay
use graaa_golang_auth_api.Common.{
  ℕ, zero, suc, ◌+◌, ◌-◌, ◌^◌, Bool, true, false, not, Option, none, some, List, [], ◌∷◌, Text,
  length, get_elem?, ltb, leb, ◌==◌, if◌then◌else◌,
}
use graaa_golang_auth_api.Redis.Interface.{Reply, ok, nil, failed, Redis}
use graaa_golang_auth_api.Redis.Counters.{
  incr_failed_login, get_failed_login_count, reset_failed_logins, incr_lockout_tier,
  reset_lockout_tier, incr_delay_tier, get_delay_tier, reset_delay_tier,
}
use graaa_golang_auth_api.BruteForce.Config.{BruteForceConfig}
use graaa_golang_auth_api.BruteForce.Columns.{LockFields, cleared, too_many_failed_tier, Accounts}

pub data Outcome (A : Type 0) : Type 0 where
  done : A → Outcome A
  error : Outcome A
  panicked : Outcome A

-- durations[tierIdx], with the index capped at the last one; `none` where the index is out of range.
unfoldable pub lock_duration : List ℕ → ℕ → Option ℕ
lock_duration durations zero = none
lock_duration durations (suc tier_idx) =
    if leb (length durations) tier_idx
    then get_elem? durations (length durations - 1)
    else get_elem? durations tier_idx

-- wasLocked, lockExpiresAt, failCount.
pub record Attempt : Type 0 where
  pub was_locked : Bool
  pub lock_expires_at : Option ℕ
  pub fail_count : ℕ

-- The conversion `int(math.Pow(2, exponent))` where the float is 2^63 or more: what it gives is left
-- to the implementation by the language.
pub data ℤ : Type 0 where
  pos negsuc : ℕ → ℤ

-- `if delay > max { delay = max }`
unfoldable pub cap : ℕ → ℤ → ℤ
cap limit (pos delay) = if ltb limit delay then pos limit else pos delay
cap limit (negsuc n) = negsuc n

unfoldable pub int_pow2 : (ℕ → ℤ) → ℕ → ℤ
int_pow2 convert exponent = if ltb exponent 63 then pos (2 ^ exponent) else convert exponent

-- The tier that counts, the higher of the two.
unfoldable pub higher : ℕ → ℕ → ℕ
higher email_tier ip_tier = if ltb email_tier ip_tier then ip_tier else email_tier

unfoldable pub delay_of : (ℕ → ℤ) → BruteForceConfig → ℕ → ℤ
delay_of convert cfg tier =
    if ltb tier cfg.delay_start_after
    then pos 0
    else cap cfg.delay_max_seconds (int_pow2 convert (tier - cfg.delay_start_after))

module _ (a : Accounts) where
  -- An expired lock is cleared in the database, then in the user that was passed in.
  unfoldable pub clear_expired :
      Text → LockFields → a.Db → Outcome (Bool × Option ℕ) × LockFields × a.Db
  clear_expired id user db =
      if (a.update_by_id id cleared db).0
      then (done (false, none), cleared, (a.update_by_id id cleared db).1)
      else (error, user, (a.update_by_id id cleared db).1)

  abbrev pub has_expired : ℕ → Option ℕ → Bool
  has_expired now none = false
  has_expired now (some expires) = ltb expires now

  abbrev pub is_set : Option ℕ → Bool
  is_set none = false
  is_set (some t) = true

  unfoldable pub is_account_locked :
      ℕ → Text → LockFields → a.Db → Outcome (Bool × Option ℕ) × LockFields × a.Db
  is_account_locked now id user db =
      if not (is_set user.locked_at)
      then (done (false, none), user, db)
      else if has_expired now user.lock_expires_at
      then clear_expired id user db
      else (done (true, user.lock_expires_at), user, db)

module _ (r : Redis) (a : Accounts) where
  -- The server of the counters and the database of the users.
  abbrev pub State : Type 0
  State = r.Db × a.Db

  -- The end of `lockAccount`, with the update's result: the counter is reset, its error dropped.
  unfoldable pub after_update : Text → Text → ℕ → ℕ → Bool × a.Db → r.Db → Outcome Attempt × State
  after_update app email expires count (false, db) d = (error, (d, db))
  after_update app email expires count (true, db) d = (
    done (record { was_locked = true; lock_expires_at = some expires; fail_count = count }),
    ((reset_failed_logins r app email d).1, db),
  )

  unfoldable pub lock_for : ℕ → Text → Text → ℕ → ℕ → Option ℕ → State → Outcome Attempt × State
  lock_for now app email count tier none s = (panicked, s)
  lock_for now app email count tier (some duration) (d, db) =
      after_update app email (now + duration) count
        (a.update_by_email app email
          (record {
            locked_at = some now;
            lock_reason = too_many_failed_tier tier;
            lock_expires_at = some (now + duration);
          })
          db)
        d

  unfoldable pub lock_at_tier :
      ℕ → Text → Text → BruteForceConfig → ℕ → Reply ℕ → State → Outcome Attempt × State
  lock_at_tier now app email cfg count nil s = (error, s)
  lock_at_tier now app email cfg count failed s = (error, s)
  lock_at_tier now app email cfg count (ok tier) s =
      lock_for now app email count tier (lock_duration cfg.lockout_durations tier) s

  -- `lockAccount`, with the count that its caller returns beside its result.
  unfoldable pub lock_account :
      ℕ → Text → Text → BruteForceConfig → ℕ → State → Outcome Attempt × State
  lock_account now app email cfg count (d, db) =
      let (reply, d') = incr_lockout_tier r app email cfg.lockout_tier_ttl d in
      lock_at_tier now app email cfg count reply (d', db)

  abbrev pub not_locked : ℕ → State → Outcome Attempt × State
  not_locked count s =
      (done (record { was_locked = false; lock_expires_at = none; fail_count = count }), s)

  unfoldable pub at_count :
      ℕ → Text → Text → BruteForceConfig → Reply ℕ → State → Outcome Attempt × State
  at_count now app email cfg nil s = (error, s)
  at_count now app email cfg failed s = (error, s)
  at_count now app email cfg (ok count) s =
      if not cfg.lockout_enabled
      then not_locked count s
      else if ltb count cfg.lockout_threshold
      then not_locked count s
      else lock_account now app email cfg count s

  unfoldable pub handle_failed_login :
      ℕ → Text → Text → BruteForceConfig → State → Outcome Attempt × State
  handle_failed_login now app email cfg (d, db) =
      let (reply, d') = incr_failed_login r app email cfg.lockout_window d in
      at_count now app email cfg reply (d', db)

  -- An administrator's unlock; the errors of the counters are dropped.
  unfoldable pub unlock_account : Text → Text → Text → State → Outcome (Unit {0}) × State
  unlock_account app id email (d, db) =
      if (a.update_by_id id cleared db).0
      then (
        done tt,
        (
          (reset_delay_tier r app email
              (reset_failed_logins r app email (reset_lockout_tier r app email d).1).1).1,
          (a.update_by_id id cleared db).1,
        ),
      )
      else (error, (d, (a.update_by_id id cleared db).1))

module _ (r : Redis) where
  unfoldable pub reset_on_success : Text → Text → Text → r.Db → r.Db
  reset_on_success app email ip_address d =
      (reset_delay_tier r app ip_address (reset_delay_tier r app email d).1).1

  abbrev pub tier_of : Reply ℕ → Option ℕ
  tier_of (ok tier) = some tier
  tier_of nil = none
  tier_of failed = none

  abbrev pub delay_at : (ℕ → ℤ) → BruteForceConfig → Option ℕ → Option ℕ → Outcome ℤ
  delay_at convert cfg none ip_tier = error
  delay_at convert cfg (some email_tier) none = error
  delay_at convert cfg (some email_tier) (some ip_tier) =
      done (delay_of convert cfg (higher email_tier ip_tier))

  unfoldable pub get_delay : (ℕ → ℤ) → Text → Text → Text → BruteForceConfig → r.Db → Outcome ℤ
  get_delay convert app email ip_address cfg d =
      if not cfg.delay_enabled
      then done (pos 0)
      else delay_at convert cfg (tier_of (get_delay_tier r app email d).0)
          (tier_of (get_delay_tier r app ip_address d).0)

  unfoldable pub increment_delay_tier : Text → Text → Text → BruteForceConfig → r.Db → r.Db
  increment_delay_tier app email ip_address cfg d =
      if not cfg.delay_enabled
      then d
      else (incr_delay_tier r app ip_address cfg.delay_tier_ttl
          (incr_delay_tier r app email cfg.delay_tier_ttl d).1).1

  abbrev pub captcha_due : BruteForceConfig → Option ℕ → Outcome Bool
  captcha_due cfg none = error
  captcha_due cfg (some count) = done (leb cfg.captcha_threshold count)

  unfoldable pub is_captcha_required : Text → Text → BruteForceConfig → r.Db → Outcome Bool
  is_captcha_required app email cfg d =
      if not cfg.captcha_enabled
      then done false
      else captcha_due cfg (tier_of (get_failed_login_count r app email d).0)
