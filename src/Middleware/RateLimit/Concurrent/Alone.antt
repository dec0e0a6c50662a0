-- ===== src/Middleware/RateLimit/Concurrent/Alone.antt =====
-- One request of tryMemory that no other one interrupts, as steps of the calls on the entry.
use graaa_golang_auth_api.Common.{ℕ, suc, ◌+◌, ◌≤◌, ◌<◌, ◌≡◌, refl, inl, inr, ltb, Bool-cases}
use graaa_golang_auth_api.Middleware.RateLimit.{
  RateLimitConfig, Response, next, temporarily_locked, too_many_requests, too_many_failed, MemEntry,
  Clock, mem_is_locked, mem_get_attempts, mem_incr, at_limit, locks, count_attempt, check_window,
  limit_entry,
}
use graaa_golang_auth_api.Middleware.RateLimit.Window.{reject-ne-next}
use graaa_golang_auth_api.Middleware.RateLimit.Concurrent.{
  Memory, look, admit, refuse, count, lock, Steps, more,
}

module _ (cfg : RateLimitConfig) (window_at in_flight : ℕ) (t : Clock)
    (looks : t.at_window ≤ window_at + cfg.window) (counts : t.at_incr ≤ window_at + cfg.window)
    (from : Memory) where
  -- What a request that runs on `s` alone leaves, reached by steps.
  record Alone (s : Memory) (response : Response) (left : MemEntry) : Type 0 where
    after : Memory
    steps : Steps cfg window_at in_flight from after
    entry : after.entry ≡ left
    reading : after.reading ≡ s.reading
    passed : response ≡ next → after.passed ≡ suc s.passed

  count_attempt-Alone :
      (s : Memory)
      → Steps cfg window_at in_flight from (record s { reading = suc s.reading })
      → Alone s (count_attempt cfg t s.entry).0 (count_attempt cfg t s.entry).1
  unfolding count_attempt
  count_attempt-Alone s steps =
      let counted = mem_incr cfg.window t.at_incr t.at_incr_reset s.entry in
      let step = more steps (count t.at_incr t.at_incr_reset s.reading counts refl refl) in
      elim (Bool-cases (locks cfg counted.0)) [
        | inl on ↦ record {
          after = _;
          steps = more step (lock t.at_locked t.at_lock_exp refl);
          entry = rw on refl;
          reading = refl;
          passed = λ h. absurd (reject-ne-next cfg temporarily_locked (rw on at h));
        }
        | inr off ↦ record {
          after = _;
          steps = step;
          entry = rw off refl;
          reading = refl;
          passed = λ h. rw off refl;
        }
      ]

  check_window-Alone :
      (s : Memory)
      → s.reading < in_flight
      → Steps cfg window_at in_flight from s
      → Alone s (check_window cfg t s.entry).0 (check_window cfg t s.entry).1
  unfolding check_window
  check_window-Alone s free steps =
      let found = mem_get_attempts cfg.window t.at_window t.at_reset s.entry in
      elim (Bool-cases (at_limit cfg found.0)) [
        | inl full ↦ record {
          after = _;
          steps = more steps (refuse t.at_window t.at_reset looks full refl);
          entry = rw full refl;
          reading = refl;
          passed = λ h. absurd (reject-ne-next cfg too_many_requests (rw full at h));
        }
        | inr room ↦
            let alone =
              count_attempt-Alone (record s { entry = found.1 })
                (more steps (admit t.at_window t.at_reset looks free room refl)) in
            record {
              after = alone.after;
              steps = alone.steps;
              entry = rw room alone.entry;
              reading = alone.reading;
              passed = λ h. alone.passed (rw room at h);
            }
      ]

  -- A request that runs alone makes the steps of tryMemory: they lead to the entry that it leaves, with
  -- one more request let through where it is let through.
  limit_entry-Alone :
      (s : Memory)
      → s.reading < in_flight
      → Steps cfg window_at in_flight from s
      → Alone s (limit_entry cfg t s.entry).0 (limit_entry cfg t s.entry).1
  unfolding limit_entry
  limit_entry-Alone s free steps =
      let looked = more steps (look t.at_lock refl) in
      let seen : Memory = record s { entry = (mem_is_locked t.at_lock s.entry).1 } in
      elim (Bool-cases (ltb 0 cfg.lockout_threshold)) [
        | inl on ↦ elim (Bool-cases (mem_is_locked t.at_lock s.entry).0) [
          | inl locked ↦ record {
            after = _;
            steps = looked;
            entry = rw (on, locked) refl;
            reading = refl;
            passed = λ h. absurd (reject-ne-next cfg too_many_failed (rw (on, locked) at h));
          }
          | inr unlocked ↦
              let alone = check_window-Alone seen free looked in
              record {
                after = alone.after;
                steps = alone.steps;
                entry = rw (on, unlocked) alone.entry;
                reading = alone.reading;
                passed = λ h. alone.passed (rw (on, unlocked) at h);
              }
        ]
        | inr off ↦
            let alone = check_window-Alone s free steps in
            record {
              after = alone.after;
              steps = alone.steps;
              entry = rw off alone.entry;
              reading = alone.reading;
              passed = λ h. alone.passed (rw off at h);
            }
      ]
