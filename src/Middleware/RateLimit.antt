-- ===== src/Middleware/RateLimit.antt =====
-- internal/middleware/rate_limit.go: the limiter over the process's own memory, over Redis, and the
-- choice between them. Times are nanoseconds since the zero time, which is 0; each reading of the
-- clock is an argument. Counts and limits are naturals: the source's are int64 and not negative.
pub mod Presets
pub mod Bounds
pub mod Window
pub mod Concurrent
pub mod Cleanup
pub mod OnRedis
pub mod Fallback
use graaa_golang_auth_api.Common.{
  ℕ, zero, suc, ◌+◌, ◌-◌, ◌*◌, Bool, true, false, not, ◌&&◌, ◌||◌, Option, none, some, List, [],
  ◌∷◌, ◌++◌, Text, codes, text_eq, text_key, lookup, insert, erase, select, ltb, leb, ◌==◌,
  scan_int, if◌then◌else◌,
}
use graaa_golang_auth_api.Redis.Interface.{Reply, ok, nil, failed, Redis}
use graaa_golang_auth_api.Redis.Sessions.{minute}

pub record RateLimitConfig : Type 0 where
  pub key_prefix : Text
  pub max_attempts : ℕ
  pub window : ℕ
  pub lockout_threshold : ℕ
  pub lockout_duration : ℕ
  pub use_context_key : Bool

-- The messages of `rejectRequest`.
pub data Rejection : Type 0 where
  too_many_failed too_many_requests temporarily_locked : Rejection

-- The next handler runs, it runs with an error in its context, or the answer is 429.
pub data Response : Type 0 where
  next : Response
  next_with_error abort_too_many : Rejection → Response

unfoldable pub reject_request : RateLimitConfig → Rejection → Response
reject_request cfg msg = if cfg.use_context_key then next_with_error msg else abort_too_many msg

pub record MemEntry : Type 0 where
  pub count : ℕ
  pub window_at : ℕ
  pub locked_at : ℕ
  pub lock_exp : ℕ

abbrev pub fresh_entry : MemEntry
fresh_entry = record { count = 0; window_at = 0; locked_at = 0; lock_exp = 0 }

abbrev pub MemStore : Type 0
MemStore = List (Text × MemEntry)

-- The readings of the clock in one request, in their order.
pub record Clock : Type 0 where
  pub at_lock : ℕ
  pub at_window : ℕ
  pub at_reset : ℕ
  pub at_incr : ℕ
  pub at_incr_reset : ℕ
  pub at_locked : ℕ
  pub at_lock_exp : ℕ

unfoldable pub mem_is_locked : ℕ → MemEntry → Bool × MemEntry
mem_is_locked now e =
    if e.locked_at == 0
    then (false, e)
    else if ltb e.lock_exp now
    then (false, record e { locked_at = 0; lock_exp = 0 })
    else (true, e)

unfoldable pub mem_get_attempts : ℕ → ℕ → ℕ → MemEntry → ℕ × MemEntry
mem_get_attempts window since now e =
    if ltb window (since - e.window_at)
    then (0, record e { count = 0; window_at = now })
    else (e.count, e)

unfoldable pub mem_incr : ℕ → ℕ → ℕ → MemEntry → ℕ × MemEntry
mem_incr window since now e =
    if e.window_at == 0 || ltb window (since - e.window_at)
    then (1, record e { count = 1; window_at = now })
    else (e.count + 1, record e { count = e.count + 1 })

unfoldable pub mem_set_lockout : ℕ → ℕ → ℕ → MemEntry → MemEntry
mem_set_lockout duration now then_now e = record e {
  locked_at = now;
  lock_exp = then_now + duration;
}

-- Whether the count that memGetAttempts returns meets the soft limit.
abbrev pub at_limit : RateLimitConfig → ℕ → Bool
at_limit cfg attempts = leb cfg.max_attempts attempts

-- Whether the count that an increment returns sets the hard lockout.
abbrev pub locks : RateLimitConfig → ℕ → Bool
locks cfg new_count = ltb 0 cfg.lockout_threshold && leb cfg.lockout_threshold new_count

-- The increment and the test for a hard lockout.
unfoldable pub count_attempt : RateLimitConfig → Clock → MemEntry → Response × MemEntry
count_attempt cfg t e =
    let (new_count, e') = mem_incr cfg.window t.at_incr t.at_incr_reset e in
    if locks cfg new_count
    then (
      reject_request cfg temporarily_locked,
      mem_set_lockout cfg.lockout_duration t.at_locked t.at_lock_exp e',
    )
    else (next, e')

-- The soft limit of the current window.
unfoldable pub check_window : RateLimitConfig → Clock → MemEntry → Response × MemEntry
check_window cfg t e =
    let (attempts, e') = mem_get_attempts cfg.window t.at_window t.at_reset e in
    if at_limit cfg attempts
    then (reject_request cfg too_many_requests, e')
    else count_attempt cfg t e'

-- `tryMemory` on the entry of the key, for a request that no other one of the key interrupts; in
-- RateLimit/Concurrent the calls of several requests interleave. A lockout is looked up only where one
-- can be set.
unfoldable pub limit_entry : RateLimitConfig → Clock → MemEntry → Response × MemEntry
limit_entry cfg t e =
    let (locked, e') = mem_is_locked t.at_lock e in
    if ltb 0 cfg.lockout_threshold
    then if locked then (reject_request cfg too_many_failed, e') else check_window cfg t e'
    else check_window cfg t e

abbrev pub or_fresh : Option MemEntry → MemEntry
or_fresh none = fresh_entry
or_fresh (some e) = e

unfoldable pub get_or_create : Text → MemStore → MemEntry
get_or_create key store = or_fresh (lookup key store)

unfoldable pub try_memory : RateLimitConfig → Text → Clock → MemStore → Response × MemStore
try_memory cfg full_key t store =
    let (response, e) = limit_entry cfg t (get_or_create full_key store) in
    (response, insert full_key e store)

-- prefix + ":" + identifier
unfoldable pub full_key : Text → Text → Text
full_key key_prefix identifier = key_prefix ++ (b':' ∷ identifier)

unfoldable pub mem_clear_attempts : Text → Text → MemStore → MemStore
mem_clear_attempts key_prefix identifier store = erase (full_key key_prefix identifier) store

-- The cleanup goroutine's test and its pass over the store.
unfoldable pub is_stale : ℕ → MemEntry → Bool
is_stale now e = ltb (5 * minute) (now - e.window_at) && (e.locked_at == 0 || ltb e.lock_exp now)

unfoldable pub cleanup : ℕ → MemStore → MemStore
cleanup now store = select (λ b. not (is_stale now b.1)) store

unfoldable pub attempts_key : Text → Text → Text
attempts_key key_prefix identifier =
    codes "rl:" ++ (key_prefix ++ (codes ":attempts:" ++ identifier))

unfoldable pub lockout_key : Text → Text → Text
lockout_key key_prefix identifier = codes "rl:" ++ (key_prefix ++ (codes ":lockout:" ++ identifier))

-- `Get` with `redis: nil` read as the empty text; `none` is any other error.
abbrev pub text_or_empty : Reply Text → Option Text
text_or_empty (ok v) = some v
text_or_empty nil = some []
text_or_empty failed = none

-- `Sscanf(countStr, "%d", &currentCount)` leaves 0 where it fails, as on the empty text.
abbrev pub parsed_count : Option ℕ → ℕ
parsed_count none = 0
parsed_count (some n) = n

module _ (r : Redis) (cfg : RateLimitConfig) (attempts lockout : Text) where
  -- A call of `tryRedis` that completes has a response; `none` asks for the fallback.
  abbrev pub Limited : Type 0
  Limited = Option Response × r.Db

  -- A time to live on the first attempt of a window.
  unfoldable pub open_window : ℕ → r.Db → r.Db
  open_window new_count d = if new_count == 1 then (r.expire attempts cfg.window d).1 else d

  -- Steps 3 and 4: the increment and the threshold of the hard lockout.
  unfoldable pub counted : Reply ℕ → r.Db → Limited
  counted nil d = (none, d)
  counted failed d = (none, d)
  counted (ok new_count) d =
      if locks cfg new_count
      then (
        some (reject_request cfg temporarily_locked),
        (r.put lockout (codes "locked") cfg.lockout_duration (open_window new_count d)).1,
      )
      else (some next, open_window new_count d)

  -- Step 2: the soft limit.
  unfoldable pub soft_limit : Option Text → r.Db → Limited
  soft_limit none d = (none, d)
  soft_limit (some count) d =
      if leb cfg.max_attempts (parsed_count (scan_int count))
      then (some (reject_request cfg too_many_requests), d)
      else counted (r.incr attempts d).0 (r.incr attempts d).1

  -- Step 1: the hard lockout, where the configuration has one.
  unfoldable pub hard_lockout : Option Text → r.Db → Limited
  hard_lockout none d = (none, d)
  hard_lockout (some val) d =
      if text_eq val (codes "locked")
      then (some (reject_request cfg too_many_failed), d)
      else soft_limit (text_or_empty (r.get attempts d)) d

  unfoldable pub try_redis : r.Db → Limited
  try_redis d =
      if ltb 0 cfg.lockout_threshold
      then hard_lockout (text_or_empty (r.get lockout d)) d
      else soft_limit (text_or_empty (r.get attempts d)) d

-- Redis first, and the memory of the process where Redis fails.
unfoldable pub rate_limit_middleware :
    (r : Redis) → RateLimitConfig → Text → Clock → r.Db × MemStore → Response × r.Db × MemStore
rate_limit_middleware r cfg identifier t (d, store) =
    elim ((try_redis r cfg (attempts_key cfg.key_prefix identifier)
      (lockout_key cfg.key_prefix identifier) d).0) [
        | some response ↦ (
          response,
          (try_redis r cfg (attempts_key cfg.key_prefix identifier)
              (lockout_key cfg.key_prefix identifier) d).1,
          store,
        )
        | none ↦
            let limited = try_memory cfg (full_key cfg.key_prefix identifier) t store in
            (
              limited.0,
              (try_redis r cfg (attempts_key cfg.key_prefix identifier)
                  (lockout_key cfg.key_prefix identifier) d).1,
              limited.1,
            )
      ]
