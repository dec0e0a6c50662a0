-- ===== src/Tests/Lockouts.antt =====
-- The lockout of an account at concrete inputs.
use graaa_golang_auth_api.Common.{
  ℕ, ◌+◌, ◌*◌, ◌≡◌, refl, ◌⊎◌, ◌≤◌, ◌<◌, true, false, Bool, Option, none, some, [], ◌∷◌, Text,
  codes, arith,
}
use graaa_golang_auth_api.Redis.Interface.{str}
use graaa_golang_auth_api.Redis.Sample.{sample, running, Rows}
use graaa_golang_auth_api.Redis.Sample.Laws.{sample-IsRedis}
use graaa_golang_auth_api.Redis.Keys.{failed_login_key, lockout_tier_key}
use graaa_golang_auth_api.Redis.Sessions.{minute}
use graaa_golang_auth_api.Redis.Counters.{
  incr_failed_login, incr_in_window, expire_first, incr_lockout_tier, reset_failed_logins,
}
use graaa_golang_auth_api.BruteForce.Config.{defaults}
use graaa_golang_auth_api.BruteForce.Columns.{
  LockFields, cleared, too_many_failed_tier, Accounts, IsAccounts,
}
use graaa_golang_auth_api.BruteForce.{
  pos, negsuc, Outcome, done, error, Attempt, handle_failed_login, at_count, lock_account,
  lock_at_tier, lock_for, after_update, lock_duration, is_account_locked, delay_of,
}
use graaa_golang_auth_api.BruteForce.Lockout.{IsLocked, handle_failed_login-Locks}
use graaa_golang_auth_api.BruteForce.Expiry.{is_account_locked-until}
use graaa_golang_auth_api.BruteForce.Delay.{IsDelay, delay_of-IsDelay}

-- A database with one user, whose updates all succeed.
abbrev one_user : Accounts
one_user = record {
  Db = LockFields;
  lock_of = λ d app email. some d;
  update_by_email = λ app email fields d. (true, fields);
  update_by_id = λ id fields d. (true, fields);
}

one_user-IsAccounts : IsAccounts one_user
one_user-IsAccounts = record { update_by_email_ok = λ app email before fields d here updated. refl }

-- Unfolding this name opens what the runs of this file compute with.
unfoldable lockouts : Unit {0}
unfolding running failed_login_key lockout_tier_key incr_failed_login incr_in_window expire_first
    incr_lockout_tier reset_failed_logins handle_failed_login at_count lock_account lock_at_tier
    lock_for after_update lock_duration
lockouts = tt

abbrev app : Text
app = codes "a"

abbrev email : Text
email = codes "e"

-- Four failed logins so far.
abbrev four : Rows
four = (failed_login_key app email, str (codes "4")) ∷ []

abbrev now : ℕ
now = 1000

abbrev fifth : Attempt
fifth = record { was_locked = true; lock_expires_at = some (now + 15 * minute); fail_count = 5 }

handle_failed_login-Locks_example :
    (defaults.lockout_enabled ≡ true)
    × (defaults.lockout_threshold ≤ fifth.fail_count)
    × IsLocked sample one_user one_user-IsAccounts now app email defaults four fifth
        (handle_failed_login sample one_user now app email defaults (four, cleared)).1.1
unfolding lockouts
handle_failed_login-Locks_example =
    handle_failed_login-Locks sample one_user one_user-IsAccounts now app email defaults
      sample-IsRedis four cleared fifth cleared (omega arith) refl refl refl

abbrev locked_user : LockFields
locked_user = record {
  locked_at = some 1000;
  lock_reason = too_many_failed_tier 1;
  lock_expires_at = some 2000;
}

abbrev checked : Outcome (Bool × Option ℕ) × LockFields × LockFields
checked = is_account_locked one_user 1500 (codes "id") locked_user locked_user

is_account_locked-until_example :
    ((1500 ≤ 2000) × (checked ≡ (done (true, some 2000), locked_user, locked_user)))
    ⊎ ((2000 < 1500)
        × ((checked ≡ (done (false, none), cleared, cleared))
            ⊎ ((true ≡ false) × (checked ≡ (error, locked_user, cleared)))))
is_account_locked-until_example =
    is_account_locked-until one_user 1500 2000 1000 (codes "id") locked_user locked_user refl refl

delay_of-IsDelay_example :
    (seconds : ℕ) × (delay_of (λ n. negsuc n) defaults 5 ≡ pos seconds) × IsDelay defaults 5 seconds
delay_of-IsDelay_example = delay_of-IsDelay (λ n. negsuc n) defaults 5 (omega arith)
