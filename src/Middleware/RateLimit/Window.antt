-- ===== src/Middleware/RateLimit/Window.antt =====
-- How many requests that come one after another the limiter over memory lets through in one window.
use graaa_golang_auth_api.Common.{
  ℕ, suc, ◌+◌, ◌-◌, ◌≤◌, ◌<◌, ◌≡◌, ◌∙◌, refl, ◌≢◌, inl, inr, List, [], ◌∷◌, ltb, leb, arith, All,
  text_key, Bool-cases,
}
use graaa_golang_auth_api.Middleware.RateLimit.{
  RateLimitConfig, Rejection, too_many_failed, too_many_requests, Response, next, reject_request,
  MemEntry, Clock, mem_is_locked, mem_get_attempts, mem_incr, mem_set_lockout, count_attempt,
  check_window, limit_entry,
}

-- The requests that one entry lets through.
unfoldable pub passed : RateLimitConfig → MemEntry → List Clock → ℕ
passed cfg e [] = 0
passed cfg e (t ∷ ts) =
    let (response, e') = limit_entry cfg t e in
    elim response [ next ↦ suc (passed cfg e' ts) | _ ↦ passed cfg e' ts ]

-- The readings of the clock lie in the window that the entry has open.
abbrev pub InWindow : RateLimitConfig → ℕ → Clock → Type 0
InWindow cfg window_at t =
    (t.at_window ≤ window_at + cfg.window) × (t.at_incr ≤ window_at + cfg.window)

pub reject-ne-next : (cfg : RateLimitConfig) (msg : Rejection) → reject_request cfg msg ≢ next
unfolding reject_request
reject-ne-next cfg msg h = ground arith

-- One request in the window of `e`: the window stays, and a request that is let through is counted.
record Counted (cfg : RateLimitConfig) (e e' : MemEntry) (response : Response) : Type 0 where
  window : e'.window_at ≡ e.window_at
  bounded : e'.count ≤ cfg.max_attempts
  grows : e.count ≤ e'.count
  counted : response ≡ next → e'.count ≡ suc e.count

module _ (cfg : RateLimitConfig) (t : Clock) (e : MemEntry) (opened : e.window_at ≢ 0)
    (inside : InWindow cfg e.window_at t) where
  count_attempt_step :
      e.count < cfg.max_attempts → Counted cfg e (count_attempt cfg t e).1 (count_attempt cfg t e).0
  unfolding count_attempt mem_incr mem_set_lockout
  count_attempt_step room = record {
    window = ground arith;
    bounded = ground arith;
    grows = ground arith;
    counted = ground arith;
  }

  check_window_step :
      e.count ≤ cfg.max_attempts → Counted cfg e (check_window cfg t e).1 (check_window cfg t e).0
  unfolding check_window mem_get_attempts
  check_window_step bounded = elim (Bool-cases (ltb cfg.window (t.at_window - e.window_at))) [
    | inl over ↦ absurd (ground arith)
    | inr open_ ↦ elim (Bool-cases (leb cfg.max_attempts e.count)) [
      | inl full ↦ rw open_ (
          rw full (record {
            window = refl;
            bounded = bounded;
            grows = omega arith;
            counted = λ h. absurd (reject-ne-next cfg too_many_requests h);
          }))
      | inr room ↦ rw open_ (rw room (count_attempt_step (ground arith)))
    ]
  ]

-- An entry whose lockout is looked up keeps its window and its count.
mem_is_locked-keeps :
    (now : ℕ) (e : MemEntry)
    → ((mem_is_locked now e).1.window_at ≡ e.window_at) × ((mem_is_locked now e).1.count ≡ e.count)
unfolding mem_is_locked
mem_is_locked-keeps now e = ground arith

limit_entry_step :
    (cfg : RateLimitConfig) (t : Clock) (e : MemEntry)
    → e.window_at ≢ 0
    → InWindow cfg e.window_at t
    → e.count ≤ cfg.max_attempts
    → Counted cfg e (limit_entry cfg t e).1 (limit_entry cfg t e).0
unfolding limit_entry
limit_entry_step cfg t e opened inside bounded =
    let (window, count) = mem_is_locked-keeps t.at_lock e in
    let unlocked = (mem_is_locked t.at_lock e).1 in
    let direct = check_window_step cfg t e opened inside bounded in
    let after =
      check_window_step cfg t unlocked (rw window opened) (rw window inside) (rw count bounded) in
    let rejected = reject-ne-next cfg too_many_failed in
    record {
      window = ground (arith, direct.window, after.window);
      bounded = ground (arith, direct.bounded, after.bounded);
      grows = ground (arith, direct.grows, after.grows);
      counted = ground (arith, direct.counted, after.counted, rejected);
    }

module _ (cfg : RateLimitConfig) (window_at : ℕ) (opened : window_at ≢ 0) where
  -- However many requests of one client meet the memory limiter one after another within a window that
  -- is open, it lets through no more than `max_attempts` of them, those before included.
  pub passed-within :
      (ts : List Clock) (e : MemEntry)
      → e.window_at ≡ window_at
      → e.count ≤ cfg.max_attempts
      → All (InWindow cfg window_at) ts
      → e.count + passed cfg e ts ≤ cfg.max_attempts
  unfolding passed
  passed-within [] e same bounded inside = omega arith
  passed-within (t ∷ ts) e same bounded (first, rest) =
      let step = limit_entry_step cfg t e (rw same opened) (rw same first) bounded in
      let later = passed-within ts (limit_entry cfg t e).1 (step.window ∙ same) step.bounded rest in
      ground (arith, step.grows, step.counted, later)
