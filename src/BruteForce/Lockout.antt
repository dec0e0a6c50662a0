-- ===== src/BruteForce/Lockout.antt =====
-- A failed login that reaches the threshold, and the lock that it leaves behind.
use graaa_golang_auth_api.Common.{
  ℕ, zero, suc, ◌+◌, ◌-◌, ◌≤◌, ◌<◌, ◌≡◌, refl, sym, ◌∙◌, ◌≢◌, ◌⊎◌, inl, inr, Bool, true, false,
  some, List, [], ◌∷◌, Text, codes, ap, length, get_elem?, leb, arith, Bool-cases, Option-cases,
}
use graaa_golang_auth_api.Redis.Interface.{Reply, ok, nil, failed, counter, Redis, IsRedis}
use graaa_golang_auth_api.Redis.Keeps.{continue_ok}
use graaa_golang_auth_api.Redis.Keys.{failed_login_key, lockout_tier_key, app_key-tail, nth}
use graaa_golang_auth_api.Redis.Counters.{
  incr_failed_login, incr_in_window, incr_lockout_tier, incr_in_window_ok, incr_in_window-other,
}
use graaa_golang_auth_api.BruteForce.Config.{BruteForceConfig}
use graaa_golang_auth_api.BruteForce.Columns.{
  LockFields, too_many_failed_tier, Accounts, IsAccounts,
}
use graaa_golang_auth_api.BruteForce.{
  done, error, panicked, lock_duration, Attempt, State, after_update, lock_for, lock_at_tier,
  lock_account, not_locked, at_count, handle_failed_login,
}

get_elem?-within : (ds : List ℕ) (i : ℕ) → i < length ds → (d : ℕ) × (get_elem? ds i ≡ some d)
get_elem?-within [] i h = absurd (omega arith)
get_elem?-within (d ∷ ds) zero h = (d, refl)
get_elem?-within (d ∷ ds) (suc i) h = get_elem?-within ds i (omega arith)

-- The duration of a tier from 1 on is found, whatever the number of durations.
lock_duration-some :
    (ds : List ℕ) (tier_idx : ℕ)
    → 0 < length ds
    → (d : ℕ) × (lock_duration ds (suc tier_idx) ≡ some d)
unfolding lock_duration
lock_duration-some ds tier_idx h = elim (Bool-cases (leb (length ds) tier_idx)) [
  | inl beyond ↦ rw beyond (get_elem?-within ds (length ds - 1) (omega arith))
  | inr within ↦ rw within (get_elem?-within ds tier_idx (ground arith))
]

-- A tier that is returned is one more than the key held.
incr_lockout_tier-counts :
    (r : Redis) (app email : Text) (ttl : ℕ) (d : r.Db) (tier : ℕ)
    → IsRedis r
    → (incr_lockout_tier r app email ttl d).0 ≡ ok tier
    → (m : ℕ) × (tier ≡ suc m) × (counter (r.entry d (lockout_tier_key app email)) ≡ some m)
unfolding incr_lockout_tier
incr_lockout_tier-counts r app email ttl d tier laws h =
    let key = lockout_tier_key app email in
    let (count, counted, rest) =
      continue_ok (r.incr key d).0 (λ n d'. (ok n, (r.expire key ttl d').1)) (r.incr key d).1 h in
    let same : count ≡ tier = cc h in
    let (m, suc_m, before, after) = laws.incr_ok key d count counted in
    (m, sym same ∙ suc_m, before)

at_count_cases :
    (r : Redis) (a : Accounts) (now : ℕ) (app email : Text) (cfg : BruteForceConfig) (count : ℕ)
    (s : State r a)
    → (at_count r a now app email cfg (ok count) s ≡ not_locked r a count s)
      ⊎ ((cfg.lockout_enabled ≡ true)
          × (cfg.lockout_threshold ≤ count)
          × (at_count r a now app email cfg (ok count) s
              ≡ lock_account r a now app email cfg count s))
unfolding at_count
at_count_cases r a now app email cfg count s = ground arith

at_count_failed :
    (r : Redis) (a : Accounts) (now : ℕ) (app email : Text) (cfg : BruteForceConfig) (s : State r a)
    → (at_count r a now app email cfg nil s ≡ (error, s))
      × (at_count r a now app email cfg failed s ≡ (error, s))
unfolding at_count
at_count_failed r a now app email cfg s = (refl, refl)

module _ (r : Redis) (a : Accounts) (laws : IsRedis r) (now : ℕ) (app email : Text)
    (cfg : BruteForceConfig) where
  after_update-no_panic :
      (expires count : ℕ) (updated : Bool × a.Db) (d : r.Db)
      → (after_update r a app email expires count updated d).0 ≢ panicked
  unfolding after_update
  after_update-no_panic expires count (false, db) d h = cc
  after_update-no_panic expires count (true, db) d h = cc

  lock_at_tier-no_panic :
      (count : ℕ) (reply : Reply ℕ) (d d' : r.Db) (db : a.Db)
      → 0 < length cfg.lockout_durations
      → (incr_lockout_tier r app email cfg.lockout_tier_ttl d).0 ≡ reply
      → (lock_at_tier r a now app email cfg count reply (d', db)).0 ≢ panicked
  unfolding lock_at_tier lock_for
  lock_at_tier-no_panic count nil d d' db some_ incr h = cc
  lock_at_tier-no_panic count failed d d' db some_ incr h = cc
  lock_at_tier-no_panic count (ok tier) d d' db some_ incr h =
      let (m, positive, _) = incr_lockout_tier-counts r app email _ d tier laws incr in
      let (duration, found) = lock_duration-some cfg.lockout_durations m some_ in
      after_update-no_panic _ count _ d' (rw (positive, found) at h)

  at_count-no_panic :
      (reply : Reply ℕ) (s : State r a)
      → 0 < length cfg.lockout_durations
      → (at_count r a now app email cfg reply s).0 ≢ panicked
  unfolding lock_account
  at_count-no_panic nil s some_ h = cc (rw (at_count_failed r a now app email cfg s).0 at h)
  at_count-no_panic failed s some_ h = cc (rw (at_count_failed r a now app email cfg s).1 at h)
  at_count-no_panic (ok count) (d, db) some_ h =
      elim (at_count_cases r a now app email cfg count (d, db)) [
        | inl below ↦ cc (rw below at h)
        | inr (on, reached, locks) ↦ lock_at_tier-no_panic count _ d _ db some_ refl (rw locks at h)
      ]

  -- With a duration to choose, as every resolved configuration has one, a failed login is counted
  -- and the account is locked, or an error is returned: the index of the duration is in range.
  pub handle_failed_login-no_panic :
      (s : State r a)
      → 0 < length cfg.lockout_durations
      → (handle_failed_login r a now app email cfg s).0 ≢ panicked
  unfolding handle_failed_login
  handle_failed_login-no_panic (d, db) some_ h = at_count-no_panic _ _ some_ h

-- The columns that a lock at the reading `now` writes.
abbrev locked_fields : ℕ → ℕ → ℕ → LockFields
locked_fields now tier duration = record {
  locked_at = some now;
  lock_reason = too_many_failed_tier tier;
  lock_expires_at = some (now + duration);
}

module _ (r : Redis) (a : Accounts) (users : IsAccounts a) (now : ℕ) (app email : Text)
    (cfg : BruteForceConfig) where
  -- The answer `att` is a lock that stands in the database afterwards, of the tier that was replied.
  record Locks (reply : Reply ℕ) (att : Attempt) (db' : a.Db) : Type 0 where
    pub tier : ℕ
    pub replied : reply ≡ ok tier
    pub duration : ℕ
    pub chosen : lock_duration cfg.lockout_durations tier ≡ some duration
    pub expires : att.lock_expires_at ≡ some (now + duration)
    pub stored : a.lock_of db' app email ≡ some (locked_fields now tier duration)

  after_update-done :
      (expires count : ℕ) (updated : Bool × a.Db) (d : r.Db) (att : Attempt)
      → (after_update r a app email expires count updated d).0 ≡ done att
      → (updated.0 ≡ true)
        × (att.lock_expires_at ≡ some expires)
        × (att.fail_count ≡ count)
        × ((after_update r a app email expires count updated d).1.1 ≡ updated.1)
  unfolding after_update
  after_update-done expires count (false, db) d att h = absurd (cc h)
  after_update-done expires count (true, db) d att h = (refl, cc h, cc h, refl)

  lock_at_tier-Locks :
      (count : ℕ) (reply : Reply ℕ) (d : r.Db) (db : a.Db) (att : Attempt) (before : LockFields)
      → a.lock_of db app email ≡ some before
      → (lock_at_tier r a now app email cfg count reply (d, db)).0 ≡ done att
      → (att.fail_count ≡ count)
        × Locks reply att (lock_at_tier r a now app email cfg count reply (d, db)).1.1
  unfolding lock_at_tier lock_for
  lock_at_tier-Locks count nil d db att before here h = absurd (cc h)
  lock_at_tier-Locks count failed d db att before here h = absurd (cc h)
  lock_at_tier-Locks count (ok tier) d db att before here h =
      elim (Option-cases (lock_duration cfg.lockout_durations tier)) [
        | inl none_ ↦ absurd (cc (rw none_ at h))
        | inr (duration, chosen) ↦
            let fields = locked_fields now tier duration in
            let (updated, expires, counted, state) =
              after_update-done (now + duration) count (a.update_by_email app email fields db) d att
                (rw chosen at h) in
            (
              counted,
              record {
                tier = tier;
                replied = refl;
                duration = duration;
                chosen = chosen;
                expires = expires;
                stored =
                    rw (chosen, state)
                      (users.update_by_email_ok app email before fields db here updated);
              },
            )
      ]

  at_count-Locks :
      (reply : Reply ℕ) (d : r.Db) (db : a.Db) (att : Attempt) (before : LockFields)
      → a.lock_of db app email ≡ some before
      → (at_count r a now app email cfg reply (d, db)).0 ≡ done att
      → att.was_locked ≡ true
      → (cfg.lockout_enabled ≡ true)
        × (cfg.lockout_threshold ≤ att.fail_count)
        × (reply ≡ ok att.fail_count)
        × Locks
            (incr_lockout_tier r app email cfg.lockout_tier_ttl d).0
            att
            (at_count r a now app email cfg reply (d, db)).1.1
  unfolding lock_account
  at_count-Locks nil d db att before here h locked =
      cc (rw (at_count_failed r a now app email cfg (d, db)).0 at h)
  at_count-Locks failed d db att before here h locked =
      cc (rw (at_count_failed r a now app email cfg (d, db)).1 at h)
  at_count-Locks (ok count) d db att before here h locked =
      elim (at_count_cases r a now app email cfg count (d, db)) [
        | inl below ↦ cc (rw below at h, locked)
        | inr (on, reached, locks) ↦
            let (counted, lock) = lock_at_tier-Locks count _ _ db att before here (rw locks at h) in
            (on, rw counted reached, rw counted refl, rw locks lock)
      ]

  -- The duration of a tier: the first one for tier 1, and the last one for each tier beyond the last.
  abbrev pub TierDuration : List ℕ → ℕ → ℕ → Type 0
  TierDuration durations tier duration =
      ((tier ≤ length durations) × (get_elem? durations (tier - 1) ≡ some duration))
      ⊎ ((length durations < tier) × (get_elem? durations (length durations - 1) ≡ some duration))

  lock_duration-TierDuration :
      (ds : List ℕ) (m duration : ℕ)
      → lock_duration ds (suc m) ≡ some duration
      → TierDuration ds (suc m) duration
  unfolding lock_duration
  lock_duration-TierDuration ds m duration h = elim (Bool-cases (leb (length ds) m)) [
    | inl beyond ↦ inr (ground (arith, beyond), rw beyond at h)
    | inr within ↦
        let index : suc m - 1 ≡ m = omega arith in
        inl (ground (arith, within), rw index (rw within at h))
  ]

  -- The lock that a failed login on the state `d` leaves, told by the counters of before it.
  pub record IsLocked (d : r.Db) (att : Attempt) (db' : a.Db) : Type 0 where
    pub failures : ℕ
    pub lockouts : ℕ
    pub duration : ℕ
    pub failures_before : counter (r.entry d (failed_login_key app email)) ≡ some failures
    pub counted : att.fail_count ≡ suc failures
    pub lockouts_before : counter (r.entry d (lockout_tier_key app email)) ≡ some lockouts
    pub chosen : TierDuration cfg.lockout_durations (suc lockouts) duration
    pub expires : att.lock_expires_at ≡ some (now + duration)
    pub stored : a.lock_of db' app email ≡ some (locked_fields now (suc lockouts) duration)

  failed-ne-tier : failed_login_key app email ≢ lockout_tier_key app email
  unfolding failed_login_key lockout_tier_key
  failed-ne-tier h = omega (
    arith,
    ap (nth 1) (app_key-tail app (codes ":failed_login:") email (codes ":lockout_tier:") email h),
  )

  -- A failed login that answers that the account was locked found the lockout enabled and the count,
  -- one more than before, at the threshold; the tier is one more than the lockouts that Redis counted
  -- before, and the columns of the user hold the lock: from the reading of the clock, for the duration of
  -- the tier or the last one, until the instant that is answered. The window of the count is positive.
  pub handle_failed_login-Locks :
      IsRedis r
      → (d : r.Db) (db : a.Db) (att : Attempt) (before : LockFields) → 0 < cfg.lockout_window
      → a.lock_of db app email ≡ some before
      → (handle_failed_login r a now app email cfg (d, db)).0 ≡ done att
      → att.was_locked ≡ true
      → (cfg.lockout_enabled ≡ true)
        × (cfg.lockout_threshold ≤ att.fail_count)
        × IsLocked d att (handle_failed_login r a now app email cfg (d, db)).1.1
  unfolding handle_failed_login incr_failed_login
  handle_failed_login-Locks laws d db att before window here h locked =
      let key = failed_login_key app email in
      let d' = (incr_in_window r key cfg.lockout_window d).1 in
      let (on, reached, counted, lock) = at_count-Locks _ d' db att before here h locked in
      let (failures, next_count, failures_before, _) =
        incr_in_window_ok r laws key cfg.lockout_window d att.fail_count window counted in
      let (lockouts, tier, held) =
        incr_lockout_tier-counts r app email _ d' lock.tier laws lock.replied in
      let kept =
        incr_in_window-other r laws key cfg.lockout_window d (lockout_tier_key app email) window
          failed-ne-tier in
      (
        on,
        reached,
        record {
          failures = failures;
          lockouts = lockouts;
          duration = lock.duration;
          failures_before = failures_before;
          counted = next_count;
          lockouts_before = rw kept at held;
          chosen =
              lock_duration-TierDuration cfg.lockout_durations lockouts lock.duration
                (rw tier at lock.chosen);
          expires = lock.expires;
          stored = rw tier at lock.stored;
        },
      )
