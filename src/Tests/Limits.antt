-- ===== src/Tests/Limits.antt =====
-- The limiters at concrete requests.
use graaa_golang_auth_api.Common.{
  ℕ, suc, ◌+◌, ◌*◌, ◌≡◌, refl, ◌⊎◌, ◌<◌, some, [], ◌∷◌, Text, codes, arith, scan_int,
}
use graaa_golang_auth_api.Redis.Interface.{str, counter}
use graaa_golang_auth_api.Redis.Sample.{sample, running, Rows}
use graaa_golang_auth_api.Redis.Sample.Laws.{sample-IsRedis}
use graaa_golang_auth_api.Redis.Sessions.{second}
use graaa_golang_auth_api.Middleware.RateLimit.Fallback.{Unanswered, rate_limit_middleware_sound}
use graaa_golang_auth_api.Middleware.RateLimit.Concurrent.{
  Memory, admit, count, idle, more, passed-concurrent,
}
use graaa_golang_auth_api.Middleware.RateLimit.{
  Response, rate_limit_middleware, full_key, next, reject_request, too_many_requests, MemEntry,
  MemStore, Clock, try_memory, get_or_create, cleanup, is_stale, limit_entry, mem_is_locked,
  check_window, mem_get_attempts, count_attempt, mem_incr, mem_set_lockout, try_redis, hard_lockout,
  soft_limit, counted, open_window, attempts_key, lockout_key, Limited,
}
use graaa_golang_auth_api.Middleware.RateLimit.Presets.{
  login_rate_limit, api_register_rate_limit, api_magic_link_rate_limit,
}
use graaa_golang_auth_api.Middleware.RateLimit.Cleanup.{cleanup_harmless, cleanup_forgets}
use graaa_golang_auth_api.Middleware.RateLimit.OnRedis.{try_redis-counts}

-- Unfolding this name opens what the runs of this file compute with.
unfoldable limits : Unit {0}
unfolding running try_memory get_or_create cleanup is_stale limit_entry mem_is_locked check_window
    mem_get_attempts count_attempt mem_incr mem_set_lockout try_redis hard_lockout soft_limit
    counted open_window attempts_key lockout_key reject_request scan_int rate_limit_middleware
    full_key
limits = tt

-- All readings of one request at one time.
abbrev at : ℕ → Clock
at t = record {
  at_lock = t;
  at_window = t;
  at_reset = t;
  at_incr = t;
  at_incr_reset = t;
  at_locked = t;
  at_lock_exp = t;
}

abbrev key : Text
key = codes "k"

-- An entry two requests into a window of `api_register_rate_limit`.
abbrev opened : MemEntry
opened = record { count = 2; window_at = 1000 * second; locked_at = 0; lock_exp = 0 }

-- Two requests that both read the count before either is counted.
abbrev both_passed : Memory
both_passed = record { entry = record opened { count = 4 }; reading = 0; passed = 2 }

passed-concurrent_example : 2 + 2 < 3 + 2
unfolding limits
passed-concurrent_example =
    passed-concurrent api_register_rate_limit (1000 * second) 2 opened both_passed (omega arith)
      (omega arith) refl (omega arith)
      (more
        (more
          (more (more idle (admit (1001 * second) 0 (omega arith) (omega arith) refl refl))
            (admit (1001 * second) 0 (omega arith) (omega arith) refl refl))
          (count (1002 * second) 0 1 (omega arith) refl refl))
        (count (1002 * second) 0 0 (omega arith) refl refl))

abbrev old_store : MemStore
old_store = (key, opened) ∷ []

cleanup_harmless_example :
    (try_memory api_register_rate_limit key
      (at (1400 * second))
      (cleanup (1399 * second) old_store)).0
    ≡ (try_memory api_register_rate_limit key (at (1400 * second)) old_store).0
unfolding limits
cleanup_harmless_example =
    cleanup_harmless api_register_rate_limit (1399 * second) (at (1400 * second)) key old_store
      (omega arith) (refl, tt) (record { lock = omega arith; window = omega arith })

-- A client that has used up the five requests of 15 minutes.
abbrev used_up : MemStore
used_up = (key, record opened { count = 5 }) ∷ []

cleanup_forgets_example :
    ((try_memory api_magic_link_rate_limit key (at (1400 * second)) used_up).0
      ≡ reject_request api_magic_link_rate_limit too_many_requests)
    × ((try_memory api_magic_link_rate_limit key
          (at (1400 * second))
          (cleanup (1399 * second) used_up)).0
        ≡ next)
unfolding limits
cleanup_forgets_example =
    cleanup_forgets api_magic_link_rate_limit (1399 * second) (at (1400 * second)) key used_up refl
      (omega arith) (refl, tt) refl (omega arith) (omega arith) (omega arith)

abbrev attempts : Text
attempts = codes "rl:x:attempts:ip"

abbrev lockout : Text
lockout = codes "rl:x:lockout:ip"

abbrev four : Rows
four = (attempts, str (codes "4")) ∷ []

abbrev limited : Limited sample login_rate_limit attempts lockout
limited = try_redis sample login_rate_limit attempts lockout four

try_redis-counts_example :
    (m : ℕ) × (m < 5)
    × (counter (sample.entry four attempts) ≡ some m)
    × (counter (sample.entry limited.1 attempts) ≡ some (suc m))
unfolding limits
try_redis-counts_example =
    try_redis-counts sample sample-IsRedis login_rate_limit attempts lockout (omega arith) four refl

abbrev login_attempts : Rows
login_attempts = (attempts_key login_rate_limit.key_prefix key, str (codes "4")) ∷ []

abbrev after_login : Response × Rows × MemStore
after_login = rate_limit_middleware sample login_rate_limit key (at 100) (login_attempts, [])

rate_limit_middleware_sound_example :
    ((m : ℕ) × (m < 5)
      × (counter (sample.entry login_attempts (attempts_key login_rate_limit.key_prefix key))
          ≡ some m)
      × (counter (sample.entry after_login.1 (attempts_key login_rate_limit.key_prefix key))
          ≡ some (suc m))
      × (after_login.2 ≡ []))
    ⊎ (Unanswered sample login_rate_limit
          (attempts_key login_rate_limit.key_prefix key)
          (lockout_key login_rate_limit.key_prefix key)
          login_attempts
        × (try_memory login_rate_limit (full_key login_rate_limit.key_prefix key) (at 100) []
            ≡ (next, after_login.2)))
unfolding limits
rate_limit_middleware_sound_example =
    rate_limit_middleware_sound sample sample-IsRedis login_rate_limit key (at 100) login_attempts
      after_login.1 [] after_login.2 (omega arith) refl
