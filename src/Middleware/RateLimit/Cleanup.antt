-- ===== src/Middleware/RateLimit/Cleanup.antt =====
-- What the cleanup pass over the memory of the limiter does to the limits.
use graaa_golang_auth_api.Common.{
  ℕ, ◌+◌, ◌-◌, ◌*◌, ◌≤◌, ◌<◌, ◌≡◌, refl, true, none, some, [], ◌∷◌, Text, text_key, text_eq_iff,
  lookup, if◌then◌else◌, arith, Bool-cases, Option-cases, inl, inr, sym,
}
use graaa_golang_auth_api.Redis.Sessions.{minute}
use graaa_golang_auth_api.Middleware.RateLimit.{
  RateLimitConfig, next, reject_request, too_many_requests, MemEntry, fresh_entry, MemStore, Clock,
  mem_is_locked, mem_get_attempts, mem_incr, count_attempt, check_window, limit_entry,
  get_or_create, is_stale, cleanup, try_memory,
}

-- A key has one entry, as in the source's map.
abbrev pub Distinct : MemStore → Type 0
Distinct [] = Unit
Distinct ((key, e) ∷ store) = (lookup key store ≡ none) × Distinct store

lookup-cleanup :
    (now : ℕ) (key : Text) (store : MemStore)
    → Distinct store
    → lookup key (cleanup now store)
      ≡ elim (lookup key store) [ none ↦ none | some e ↦ if is_stale now e then none else some e ]
unfolding cleanup lookup
lookup-cleanup now key [] distinct = refl
lookup-cleanup now key ((j, e) ∷ store) (alone, distinct) =
    ground (arith, lookup-cleanup now key store distinct, text_eq_iff j key, alone)

-- The readings of the clock in a request that comes after `now`.
pub record After (now : ℕ) (t : Clock) : Type 0 where
  pub lock : now ≤ t.at_lock
  pub window : now ≤ t.at_window

reset_same :
    (cfg : RateLimitConfig) (t : Clock) (e : MemEntry)
    → (count_attempt cfg t (record e { count = 0; window_at = t.at_reset })).0
      ≡ (count_attempt cfg t (record fresh_entry { count = 0; window_at = t.at_reset })).0
unfolding count_attempt mem_incr
reset_same cfg t e = ground arith

check_window_stale :
    (cfg : RateLimitConfig) (t : Clock) (e : MemEntry)
    → cfg.window < t.at_window - e.window_at
    → (check_window cfg t e).0 ≡ (check_window cfg t fresh_entry).0
unfolding check_window mem_get_attempts
check_window_stale cfg t e over = ground (arith, reset_same cfg t e)

limit_entry_stale :
    (cfg : RateLimitConfig) (now : ℕ) (t : Clock) (e : MemEntry)
    → cfg.window ≤ 5 * minute
    → is_stale now e ≡ true
    → After now t
    → (limit_entry cfg t e).0 ≡ (limit_entry cfg t fresh_entry).0
unfolding limit_entry is_stale mem_is_locked
limit_entry_stale cfg now t e short stale after = ground (
  arith,
  after.lock,
  after.window,
  check_window_stale cfg t e,
  check_window_stale cfg t (record e { locked_at = 0; lock_exp = 0 }),
)

-- The entry of a key after the pass.
get_or_create-cleanup :
    (now : ℕ) (key : Text) (store : MemStore)
    → Distinct store
    → get_or_create key (cleanup now store)
      ≡ (if is_stale now (get_or_create key store) then fresh_entry else get_or_create key store)
unfolding get_or_create
get_or_create-cleanup now key store distinct = elim (Option-cases (lookup key store)) [
  | inl absent ↦ ground (arith, lookup-cleanup now key store distinct)
  | inr (e, present) ↦ ground (arith, lookup-cleanup now key store distinct)
]

-- For a limiter with a window of at most five minutes the cleanup pass changes no answer: a request
-- that comes after the pass is answered as it would have been without it.
pub cleanup_harmless :
    (cfg : RateLimitConfig) (now : ℕ) (t : Clock) (key : Text) (store : MemStore)
    → cfg.window ≤ 5 * minute
    → Distinct store
    → After now t
    → (try_memory cfg key t (cleanup now store)).0 ≡ (try_memory cfg key t store).0
unfolding try_memory get_or_create
cleanup_harmless cfg now t key store short distinct after =
    rw (get_or_create-cleanup now key store distinct)
      (elim (Bool-cases (is_stale now (get_or_create key store))) [
        | inl stale ↦ rw stale (sym (limit_entry_stale cfg now t _ short stale after))
        | inr kept ↦ rw kept refl
      ])

limit_entry_full :
    (cfg : RateLimitConfig) (t : Clock) (e : MemEntry)
    → cfg.lockout_threshold ≡ 0
    → cfg.max_attempts ≤ e.count
    → t.at_window ≤ e.window_at + cfg.window
    → (limit_entry cfg t e).0 ≡ reject_request cfg too_many_requests
unfolding limit_entry check_window mem_get_attempts
limit_entry_full cfg t e soft full inside = ground arith

limit_entry_fresh :
    (cfg : RateLimitConfig) (t : Clock)
    → cfg.lockout_threshold ≡ 0
    → 0 < cfg.max_attempts
    → (limit_entry cfg t fresh_entry).0 ≡ next
unfolding limit_entry check_window mem_get_attempts count_attempt
limit_entry_fresh cfg t soft room = ground arith

stale_unlocked :
    (now : ℕ) (e : MemEntry)
    → e.locked_at ≡ 0
    → 5 * minute < now - e.window_at
    → is_stale now e ≡ true
unfolding is_stale
stale_unlocked now e unlocked old = ground arith

-- A client that used up a window of more than five minutes is let through again within that same
-- window, once the cleanup pass has run five minutes after it opened; without the pass the limiter
-- would have rejected the request. The configuration is one without a hard lockout.
pub cleanup_forgets :
    (cfg : RateLimitConfig) (now : ℕ) (t : Clock) (key : Text) (store : MemStore)
    → cfg.lockout_threshold ≡ 0
    → 0 < cfg.max_attempts
    → Distinct store
    → (get_or_create key store).locked_at ≡ 0
    → cfg.max_attempts ≤ (get_or_create key store).count
    → 5 * minute < now - (get_or_create key store).window_at
    → t.at_window ≤ (get_or_create key store).window_at + cfg.window
    → ((try_memory cfg key t store).0 ≡ reject_request cfg too_many_requests)
      × ((try_memory cfg key t (cleanup now store)).0 ≡ next)
unfolding try_memory
cleanup_forgets cfg now t key store soft some_ distinct unlocked full old inside = (
  limit_entry_full cfg t (get_or_create key store) soft full inside,
  rw
      (
        get_or_create-cleanup now key store distinct,
        stale_unlocked now (get_or_create key store) unlocked old,
      )
      (limit_entry_fresh cfg t soft some_),
)
