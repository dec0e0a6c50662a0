-- ===== src/Middleware/RateLimit/Bounds.antt =====
-- What the limiter over memory lets through, and that its hard lockout is never reached where the
-- soft limit is the lower one.
use graaa_golang_auth_api.Common.{
  ◌≤◌, ◌<◌, ◌≡◌, ◌⊎◌, inl, inr, List, [], ◌∷◌, Text, if◌then◌else◌, arith, All, lookup, insert,
  lookup-insert, text_key, text_eq, Bool-cases,
}
use graaa_golang_auth_api.Middleware.RateLimit.{
  RateLimitConfig, too_many_failed, too_many_requests, temporarily_locked, Response, next,
  reject_request, MemEntry, MemStore, Clock, mem_is_locked, mem_get_attempts, mem_incr,
  count_attempt, check_window, limit_entry, get_or_create, try_memory,
}
use graaa_golang_auth_api.Middleware.RateLimit.Presets.{
  locking, login_rate_limit, api_login_rate_limit, api_2fa_verify_rate_limit,
  api_passkey_login_rate_limit, api_passkey_2fa_rate_limit, gui_passkey_login_rate_limit,
  oidc_authorize_rate_limit, oidc_token_rate_limit, oidc_introspect_rate_limit,
  oidc_revoke_rate_limit,
}

-- The hard lockout lies above the soft limit.
pub record SoftFirst (cfg : RateLimitConfig) : Type 0 where
  pub below : cfg.max_attempts < cfg.lockout_threshold

-- An entry that was never locked, with a count up to the soft limit.
pub record IsUnlocked (cfg : RateLimitConfig) (e : MemEntry) : Type 0 where
  pub unlocked : e.locked_at ≡ 0
  pub within : e.count ≤ cfg.max_attempts

-- The answers of a hard lockout.
abbrev pub IsLockout : RateLimitConfig → Response → Type 0
IsLockout cfg response =
    (response ≡ reject_request cfg temporarily_locked)
    ⊎ (response ≡ reject_request cfg too_many_failed)

count_attempt-IsUnlocked :
    (cfg : RateLimitConfig) (t : Clock) (e : MemEntry)
    → SoftFirst cfg
    → e.locked_at ≡ 0
    → e.count < cfg.max_attempts
    → IsUnlocked cfg (count_attempt cfg t e).1 × ((count_attempt cfg t e).0 ≡ next)
unfolding count_attempt mem_incr
count_attempt-IsUnlocked cfg t e soft unlocked room = ground arith

check_window-IsUnlocked :
    (cfg : RateLimitConfig) (t : Clock) (e : MemEntry)
    → SoftFirst cfg
    → IsUnlocked cfg e
    → IsUnlocked cfg (check_window cfg t e).1
      × (((check_window cfg t e).0 ≡ next)
          ⊎ ((check_window cfg t e).0 ≡ reject_request cfg too_many_requests))
unfolding check_window mem_get_attempts
check_window-IsUnlocked cfg t e soft v = ground (
  arith,
  count_attempt-IsUnlocked cfg t e soft v.unlocked,
  count_attempt-IsUnlocked cfg t (record e { count = 0; window_at = t.at_reset }) soft v.unlocked,
)

limit_entry-IsUnlocked :
    (cfg : RateLimitConfig) (t : Clock) (e : MemEntry)
    → SoftFirst cfg
    → IsUnlocked cfg e
    → IsUnlocked cfg (limit_entry cfg t e).1
      × (((limit_entry cfg t e).0 ≡ next)
          ⊎ ((limit_entry cfg t e).0 ≡ reject_request cfg too_many_requests))
unfolding limit_entry mem_is_locked
limit_entry-IsUnlocked cfg t e soft v = ground (arith, check_window-IsUnlocked cfg t e soft v)

-- A sequence of requests of any clients to one limiter, each with its clock.
abbrev pub Requests : Type 0
Requests = List (Text × Clock)

unfoldable pub run : RateLimitConfig → Requests → MemStore → List Response
run cfg [] store = []
run cfg ((key, t) ∷ requests) store =
    let (response, store') = try_memory cfg key t store in response ∷ run cfg requests store'

module _ (cfg : RateLimitConfig) (soft : SoftFirst cfg) where
  IsQuiet : MemStore → Type 0
  IsQuiet store = (key : Text) → IsUnlocked cfg (get_or_create key store)

  get_or_create-insert :
      (k j : Text) (e : MemEntry) (store : MemStore)
      → get_or_create j (insert k e store) ≡ (if text_eq k j then e else get_or_create j store)
  unfolding get_or_create
  get_or_create-insert k j e store = ground (arith, lookup-insert k j e store)

  IsQuiet-insert :
      (k : Text) (e : MemEntry) (store : MemStore)
      → IsUnlocked cfg e
      → IsQuiet store
      → IsQuiet (insert k e store)
  unfolding IsQuiet
  IsQuiet-insert k e store v quiet j =
      rw get_or_create-insert
        (elim (Bool-cases (text_eq k j)) [ inl same ↦ rw same v | inr other ↦ rw other (quiet j) ])

  run_quiet :
      (requests : Requests) (store : MemStore)
      → IsQuiet store
      → All
          (λ response. (response ≡ next) ⊎ (response ≡ reject_request cfg too_many_requests))
          (run cfg requests store)
  unfolding run try_memory IsQuiet
  run_quiet [] store quiet = tt
  run_quiet ((key, t) ∷ requests) store quiet =
      let (kept, answer) =
        limit_entry-IsUnlocked cfg t (get_or_create key store) soft (quiet key) in
      (answer, run_quiet requests _ (IsQuiet-insert key _ store kept quiet))

  -- Where the soft limit is below the lockout threshold no sequence of requests, each of which ends before
  -- the next begins, ever meets the hard lockout: each request is let through or meets the soft limit.
  pub run-never_locks :
      (requests : Requests)
      → All
          (λ response. (response ≡ next) ⊎ (response ≡ reject_request cfg too_many_requests))
          (run cfg requests [])
  unfolding IsQuiet get_or_create lookup
  run-never_locks requests = run_quiet requests [] (λ key. omega arith)

-- No limiter of the program that has a hard lockout ever reaches it over the process's memory, where the
-- requests of a client come one after another: each is let through or meets the soft limit, and none has
-- the answer of a lockout.
pub locking-never_lock :
    All
      (λ cfg.
        (requests : Requests)
        → All
            (λ response. (response ≡ next) ⊎ (response ≡ reject_request cfg too_many_requests))
            (run cfg requests []))
      locking
locking-never_lock = (
  run-never_locks login_rate_limit (omega arith),
  (
    run-never_locks api_login_rate_limit (omega arith),
    (
      run-never_locks api_2fa_verify_rate_limit (omega arith),
      (
        run-never_locks api_passkey_login_rate_limit (omega arith),
        (
          run-never_locks api_passkey_2fa_rate_limit (omega arith),
          (
            run-never_locks gui_passkey_login_rate_limit (omega arith),
            (
              run-never_locks oidc_authorize_rate_limit (omega arith),
              (
                run-never_locks oidc_token_rate_limit (omega arith),
                (
                  run-never_locks oidc_introspect_rate_limit (omega arith),
                  (run-never_locks oidc_revoke_rate_limit (omega arith), tt),
                ),
              ),
            ),
          ),
        ),
      ),
    ),
  ),
)
