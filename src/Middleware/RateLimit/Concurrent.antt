-- ===== src/Middleware/RateLimit/Concurrent.antt =====
-- Requests of one client that meet the memory limiter at the same time. The source locks the entry for
-- each call of memIsLocked, memGetAttempts, memIncr and memSetLockout alone: the calls are the steps, and
-- the steps of several requests interleave.
use graaa_golang_auth_api.Common.{
  ℕ, suc, ◌+◌, ◌-◌, ◌≤◌, ◌<◌, ◌≡◌, ◌≢◌, refl, ap, ◌∙◌, ◌==◌, Bool, true, false, ◌&&◌, ltb, leb,
  arith, if◌then◌else◌,
}
use graaa_golang_auth_api.Middleware.RateLimit.{
  RateLimitConfig, next, MemEntry, Clock, mem_is_locked, mem_get_attempts, mem_incr,
  mem_set_lockout, count_attempt, at_limit, locks,
}
pub mod Alone

-- The entry, the requests that have read a count below the limit and have not counted yet, and how many
-- were let through.
pub record Memory : Type 0 where
  pub entry : MemEntry
  pub reading : ℕ
  pub passed : ℕ

module _ (cfg : RateLimitConfig) (window_at in_flight : ℕ) where
  -- A call of one of the requests, at most `in_flight` of which are between their reading and their
  -- increment; the readings of the clock are within the window that is open.
  pub data Step (s s' : Memory) : Type 0 where
    look : (now : ℕ) → s' ≡ record s { entry = (mem_is_locked now s.entry).1 } → Step s s'
    admit :
        (since now : ℕ)
        → since ≤ window_at + cfg.window
        → s.reading < in_flight
        → at_limit cfg (mem_get_attempts cfg.window since now s.entry).0 ≡ false
        → s' ≡ record s {
          entry = (mem_get_attempts cfg.window since now s.entry).1;
          reading = suc s.reading;
        }
        → Step s s'
    refuse :
        (since now : ℕ)
        → since ≤ window_at + cfg.window
        → at_limit cfg (mem_get_attempts cfg.window since now s.entry).0 ≡ true
        → s' ≡ record s { entry = (mem_get_attempts cfg.window since now s.entry).1 }
        → Step s s'
    count :
        (since now n : ℕ)
        → since ≤ window_at + cfg.window
        → s.reading ≡ suc n
        → s' ≡ record {
          entry = (mem_incr cfg.window since now s.entry).1;
          reading = n;
          passed =
              if locks cfg (mem_incr cfg.window since now s.entry).0
              then s.passed
              else suc s.passed;
        }
        → Step s s'
    lock :
        (now then_now : ℕ)
        → s' ≡ record s { entry = mem_set_lockout cfg.lockout_duration now then_now s.entry }
        → Step s s'

  pub data Steps (s : Memory) : Memory → Type 0 where
    idle : Steps s s
    more : {u v : Memory} → Steps s u → Step u v → Steps s v

  -- The window stays, what is read and what is counted keeps below the limit by the requests in flight,
  -- and what is let through is counted.
  record Keeps (from s : Memory) : Type 0 where
    window : s.entry.window_at ≡ window_at
    room : s.entry.count + s.reading < cfg.max_attempts + in_flight
    counted : from.entry.count + s.passed ≤ from.passed + s.entry.count

  module _ (opened : window_at ≢ 0) (from : Memory) where
    Step-Keeps : (s s' : Memory) → Step s s' → Keeps from s → Keeps from s'
    unfolding mem_is_locked mem_get_attempts mem_incr mem_set_lockout
    Step-Keeps s s' (look now e) k = rw e (record {
      window = ground (arith, k.window);
      room = ground (arith, k.room);
      counted = ground (arith, k.counted);
    })
    Step-Keeps s s' (admit since now inside free below e) k = rw e (record {
      window = ground (arith, k.window, inside);
      room = ground (arith, k.room, k.window, inside, below, free);
      counted = ground (arith, k.counted, k.window, inside);
    })
    Step-Keeps s s' (refuse since now inside full e) k = rw e (record {
      window = ground (arith, k.window, inside);
      room = ground (arith, k.room, k.window, inside);
      counted = ground (arith, k.counted, k.window, inside);
    })
    Step-Keeps s s' (count since now n inside reads e) k = rw e (record {
      window = ground (arith, k.window, inside, opened);
      room = ground (arith, k.room, k.window, inside, opened, reads);
      counted = ground (arith, k.counted, k.window, inside, opened, reads);
    })
    Step-Keeps s s' (lock now then_now e) k =
        rw e (record { window = k.window; room = k.room; counted = k.counted })

    Steps-Keeps : (s : Memory) → Steps from s → Keeps from from → Keeps from s
    Steps-Keeps s idle k = k
    Steps-Keeps s (more steps step) k = Step-Keeps _ s step (Steps-Keeps _ steps k)

  -- However the calls of the requests of one client interleave within a window that is open, the memory
  -- limiter lets through fewer than `max_attempts` and the requests in flight at once together, those
  -- counted before included: `max_attempts` at most where the requests come one after another.
  pub passed-concurrent :
      (e : MemEntry) (s : Memory)
      → window_at ≢ 0
      → 1 ≤ in_flight
      → e.window_at ≡ window_at
      → e.count ≤ cfg.max_attempts
      → Steps (record { entry = e; reading = 0; passed = 0 }) s
      → e.count + s.passed < cfg.max_attempts + in_flight
  passed-concurrent e s opened some_ same bounded steps =
      let from : Memory = record { entry = e; reading = 0; passed = 0 } in
      let k =
        Steps-Keeps opened from s steps
          (record { window = same; room = omega arith; counted = omega arith }) in
      omega (arith, k.room, k.counted)

mem_incr-open :
    (window since now : ℕ) (e : MemEntry)
    → e.window_at ≢ 0
    → since ≤ e.window_at + window
    → mem_incr window since now e ≡ (e.count + 1, record e { count = e.count + 1 })
unfolding mem_incr
mem_incr-open window since now e opened inside =
    let set : (e.window_at == 0) ≡ false = ground (arith, opened) in
    let young : ltb window (since - e.window_at) ≡ false = ground (arith, inside) in
    ground (arith, set, young)

-- An attempt that sets no lockout is let through and counted.
count_attempt-open :
    (cfg : RateLimitConfig) (t : Clock) (e : MemEntry)
    → e.window_at ≢ 0
    → t.at_incr ≤ e.window_at + cfg.window
    → locks cfg (e.count + 1) ≡ false
    → count_attempt cfg t e ≡ (next, record e { count = e.count + 1 })
unfolding count_attempt
count_attempt-open cfg t e opened inside unlocked =
    let counted = mem_incr-open cfg.window t.at_incr t.at_incr_reset e opened inside in
    rw counted (rw unlocked refl)

-- The bound is met: where one request is left in the window, two that both read the count before either
-- is counted are both let through, and the count ends above `max_attempts`, unless it sets a lockout.
pub check-races :
    (cfg : RateLimitConfig) (t t' : Clock) (e : MemEntry)
    → e.window_at ≢ 0
    → suc e.count ≡ cfg.max_attempts
    → locks cfg cfg.max_attempts ≡ false
    → locks cfg (suc cfg.max_attempts) ≡ false
    → t.at_window ≤ e.window_at + cfg.window
    → t'.at_window ≤ e.window_at + cfg.window
    → t.at_incr ≤ e.window_at + cfg.window
    → t'.at_incr ≤ e.window_at + cfg.window
    → (mem_get_attempts cfg.window t.at_window t.at_reset e ≡ (e.count, e))
      × (mem_get_attempts cfg.window t'.at_window t'.at_reset e ≡ (e.count, e))
      × (e.count < cfg.max_attempts)
      × ((count_attempt cfg t e).0 ≡ next)
      × ((count_attempt cfg t' (count_attempt cfg t e).1).0 ≡ next)
      × ((count_attempt cfg t' (count_attempt cfg t e).1).1.count ≡ suc cfg.max_attempts)
unfolding mem_get_attempts
check-races cfg t t' e opened last first_open second_open w w' i i' =
    let full : e.count + 1 ≡ cfg.max_attempts = omega (arith, last) in
    let over : e.count + 1 + 1 ≡ suc cfg.max_attempts = omega (arith, last) in
    let first = count_attempt-open cfg t e opened i (rw full first_open) in
    let second =
      count_attempt-open cfg t' (record e { count = e.count + 1 }) opened i'
        (rw over second_open) in
    (
      ground arith,
      ground arith,
      omega arith,
      ap (λ x. x.0) first,
      rw first (ap (λ x. x.0) second),
      rw first (ap (λ x. x.1.count) second ∙ over),
    )
