-- ===== src/Redis/Counters.antt =====
-- Counters of internal/redis/redis.go: failed logins, lockout tiers, delay tiers. The count is an
-- int64 in the source; no counter reaches 2^63.
use graaa_golang_auth_api.Common.{
  ℕ, suc, ◌<◌, ◌≡◌, ◌≢◌, ◌∙◌, sym, ap, Option, none, some, Text, parse_int, ◌==◌, if◌then◌else◌,
  arith, Bool-cases, inl, inr, ◌⊎◌,
}
use graaa_golang_auth_api.Redis.Interface.{Reply, ok, nil, failed, Redis, IsRedis, counter}
use graaa_golang_auth_api.Redis.Exec.{Exec, pure, read, attempt, continue, ◌>>=◌, ◌>>◌}
use graaa_golang_auth_api.Redis.Keeps.{continue_ok}
use graaa_golang_auth_api.Redis.Keys.{failed_login_key, lockout_tier_key, delay_tier_key}

-- `Get(…).Int64()` with `redis.Nil` read as 0.
abbrev pub read_int : Option ℕ → Reply ℕ
read_int none = failed
read_int (some n) = ok n

abbrev pub count_or_zero : Reply Text → Reply ℕ
count_or_zero (ok s) = read_int (parse_int s)
count_or_zero nil = ok 0
count_or_zero failed = failed

module _ (r : Redis) where
  open r use {Db}

  -- A time to live on the first count only.
  unfoldable pub expire_first : Text → ℕ → ℕ → Exec Db ℕ
  expire_first key window count = do
    if count == 1 then attempt (r.expire key window) else pure tt
    pure count

  unfoldable pub incr_in_window : Text → ℕ → Exec Db ℕ
  incr_in_window key window = do count ← r.incr key; expire_first key window count

  unfoldable pub incr_failed_login : Text → Text → ℕ → Exec Db ℕ
  incr_failed_login app identifier window = incr_in_window (failed_login_key app identifier) window

  unfoldable pub get_failed_login_count : Text → Text → Exec Db ℕ
  get_failed_login_count app identifier =
      read (λ d. count_or_zero (r.get (failed_login_key app identifier) d))

  unfoldable pub reset_failed_logins : Text → Text → Exec Db (Unit {0})
  reset_failed_logins app identifier = r.del (failed_login_key app identifier)

  -- The time to live of the tier is renewed at each lockout.
  unfoldable pub incr_lockout_tier : Text → Text → ℕ → Exec Db ℕ
  incr_lockout_tier app email ttl = do
    tier ← r.incr (lockout_tier_key app email)
    attempt (r.expire (lockout_tier_key app email) ttl)
    pure tier

  unfoldable pub get_lockout_tier : Text → Text → Exec Db ℕ
  get_lockout_tier app email = read (λ d. count_or_zero (r.get (lockout_tier_key app email) d))

  unfoldable pub reset_lockout_tier : Text → Text → Exec Db (Unit {0})
  reset_lockout_tier app email = r.del (lockout_tier_key app email)

  unfoldable pub incr_delay_tier : Text → Text → ℕ → Exec Db ℕ
  incr_delay_tier app identifier ttl = incr_in_window (delay_tier_key app identifier) ttl

  unfoldable pub get_delay_tier : Text → Text → Exec Db ℕ
  get_delay_tier app identifier =
      read (λ d. count_or_zero (r.get (delay_tier_key app identifier) d))

  unfoldable pub reset_delay_tier : Text → Text → Exec Db (Unit {0})
  reset_delay_tier app identifier = r.del (delay_tier_key app identifier)

module _ (r : Redis) (laws : IsRedis r) where
  expire_first_effect :
      (key : Text) (window count : ℕ) (d : r.Db) (j : Text)
      → 0 < window
      → ((expire_first r key window count d).0 ≡ ok count)
        × (r.entry (expire_first r key window count d).1 j ≡ r.entry d j)
  unfolding expire_first
  expire_first_effect key window count d j pos = elim (Bool-cases (count == 1)) [
    | inl first ↦ (rw first, rw first (laws.expire_keeps key window d j pos))
    | inr later ↦ (rw later, rw later)
  ]

  -- Counting leaves every other key alone.
  pub incr_in_window-other :
      (key : Text) (window : ℕ) (d : r.Db) (j : Text)
      → 0 < window
      → key ≢ j
      → r.entry (incr_in_window r key window d).1 j ≡ r.entry d j
  unfolding incr_in_window
  incr_in_window-other key window d j pos apart = counting (r.incr key d).0
    where
      counting :
          (reply : Reply ℕ)
          → r.entry (continue reply (expire_first r key window) (r.incr key d).1).1 j ≡ r.entry d j
      counting (ok count) =
          (expire_first_effect key window count (r.incr key d).1 j pos).1
          ∙ laws.incr_other key d j apart
      counting nil = laws.incr_other key d j apart
      counting failed = laws.incr_other key d j apart

  -- A count that is returned is one more than the key held, and is what the key holds then.
  pub incr_in_window_ok :
      (key : Text) (window : ℕ) (d : r.Db) (n : ℕ)
      → 0 < window
      → (incr_in_window r key window d).0 ≡ ok n
      → (m : ℕ) × (n ≡ suc m)
        × (counter (r.entry d key) ≡ some m)
        × (counter (r.entry (incr_in_window r key window d).1 key) ≡ some n)
  unfolding incr_in_window
  incr_in_window_ok key window d n pos h =
      let (count, counted, rest) =
        continue_ok (r.incr key d).0 (expire_first r key window) (r.incr key d).1 h in
      let (result, kept) = expire_first_effect key window count (r.incr key d).1 key pos in
      let same : count ≡ n = cc (rest, result, h) in
      let (m, suc_m, before, after) = laws.incr_ok key d count counted in
      (m, sym same ∙ suc_m, before, rw (rest, kept) (after ∙ ap some same))

  -- After a reset that succeeded the count reads 0, unless the server is lost.
  pub get_failed_login_count_reset :
      (app identifier : Text) (d : r.Db)
      → (reset_failed_logins r app identifier d).0 ≡ ok tt
      → ((get_failed_login_count r app identifier (reset_failed_logins r app identifier d).1).0
          ≡ ok 0)
        ⊎ ((get_failed_login_count r app identifier (reset_failed_logins r app identifier d).1).0
            ≡ failed)
  unfolding reset_failed_logins get_failed_login_count
  get_failed_login_count_reset app identifier d h =
      let key = failed_login_key app identifier in
      ground (arith, laws.get_absent key (r.del key d).1 (laws.del_ok key d h))
