-- ===== src/Middleware/RateLimit/Fallback.antt =====
-- Which of the two stores lets a request through.
use graaa_golang_auth_api.Common.{
  ℕ, suc, ◌<◌, ◌≡◌, refl, ◌⊎◌, inl, inr, ap, none, some, Text, ltb, arith, Bool-cases, Option-cases,
  sym, ◌∙◌,
}
use graaa_golang_auth_api.Redis.Interface.{Reply, ok, nil, failed, counter, Redis, IsRedis}
use graaa_golang_auth_api.Middleware.RateLimit.{
  RateLimitConfig, next, MemStore, Clock, attempts_key, lockout_key, full_key, counted, soft_limit,
  hard_lockout, try_redis, try_memory, text_or_empty, rate_limit_middleware,
}
use graaa_golang_auth_api.Middleware.RateLimit.OnRedis.{try_redis-counts}

-- A command of the limiter that Redis did not answer; INCR has no other error of its own.
abbrev pub Unanswered : (r : Redis) → RateLimitConfig → Text → Text → r.Db → Type 0
Unanswered r cfg attempts lockout d =
    ((0 < cfg.lockout_threshold) × (r.get lockout d ≡ failed))
    ⊎ (r.get attempts d ≡ failed)
    ⊎ ((r.incr attempts d).0 ≡ failed)
    ⊎ ((r.incr attempts d).0 ≡ nil)

module _ (r : Redis) (cfg : RateLimitConfig) (attempts lockout : Text) (d : r.Db) where
  counted-none :
      (reply : Reply ℕ) (d' : r.Db)
      → (counted r cfg attempts lockout reply d').0 ≡ none
      → (reply ≡ failed) ⊎ (reply ≡ nil)
  unfolding counted
  counted-none nil d' h = inr refl
  counted-none failed d' h = inl refl
  counted-none (ok n) d' h = absurd (ground (arith, h))

  soft_limit-none :
      (reply : Reply Text)
      → r.get attempts d ≡ reply
      → (soft_limit r cfg attempts lockout (text_or_empty reply) d).0 ≡ none
      → Unanswered r cfg attempts lockout d
  unfolding soft_limit
  soft_limit-none failed e h = inr (inl e)
  soft_limit-none nil e h =
      ground (arith, h, counted-none (r.incr attempts d).0 (r.incr attempts d).1)
  soft_limit-none (ok v) e h =
      ground (arith, h, counted-none (r.incr attempts d).0 (r.incr attempts d).1)

  hard_lockout-none :
      0 < cfg.lockout_threshold
      → (reply : Reply Text) → r.get lockout d ≡ reply
      → (hard_lockout r cfg attempts lockout (text_or_empty reply) d).0 ≡ none
      → Unanswered r cfg attempts lockout d
  unfolding hard_lockout
  hard_lockout-none on failed e h = inl (on, e)
  hard_lockout-none on nil e h = ground (arith, h, soft_limit-none (r.get attempts d) refl)
  hard_lockout-none on (ok v) e h = ground (arith, h, soft_limit-none (r.get attempts d) refl)

  try_redis-none :
      (try_redis r cfg attempts lockout d).0 ≡ none → Unanswered r cfg attempts lockout d
  unfolding try_redis
  try_redis-none h = elim (Bool-cases (ltb 0 cfg.lockout_threshold)) [
    | inl on ↦ hard_lockout-none (ground (arith, on)) (r.get lockout d) refl (rw on at h)
    | inr off ↦ soft_limit-none (r.get attempts d) refl (rw off at h)
  ]

-- A request that the limiter lets through found a count below the limit in Redis and was counted there,
-- the memory left alone; or one of the commands was not answered and the memory of the process let it
-- through, which then holds what that left.
pub rate_limit_middleware_sound :
    (r : Redis) (laws : IsRedis r) (cfg : RateLimitConfig) (identifier : Text) (t : Clock)
    (d d' : r.Db) (store store' : MemStore)
    → 0 < cfg.window
    → rate_limit_middleware r cfg identifier t (d, store) ≡ (next, d', store')
    → ((m : ℕ) × (m < cfg.max_attempts)
        × (counter (r.entry d (attempts_key cfg.key_prefix identifier)) ≡ some m)
        × (counter (r.entry d' (attempts_key cfg.key_prefix identifier)) ≡ some (suc m))
        × (store' ≡ store))
      ⊎ (Unanswered r cfg
            (attempts_key cfg.key_prefix identifier)
            (lockout_key cfg.key_prefix identifier)
            d
          × (try_memory cfg (full_key cfg.key_prefix identifier) t store ≡ (next, store')))
unfolding rate_limit_middleware
rate_limit_middleware_sound r laws cfg identifier t d d' store store' window h =
    let attempts = attempts_key cfg.key_prefix identifier in
    let lockout = lockout_key cfg.key_prefix identifier in
    elim (Option-cases (try_redis r cfg attempts lockout d).0) [
      | inl none_ ↦ inr (
        try_redis-none r cfg attempts lockout d none_,
        ap (λ x. (x.0, x.2)) (rw (none_, rate_limit_middleware) at h),
      )
      | inr (response, answered) ↦
          let h' = rw (answered, rate_limit_middleware) at h in
          let (m, room, before, after) =
            try_redis-counts r laws cfg attempts lockout window d
              (answered ∙ ap (λ x. some x.0) h') in
          let state : (try_redis r cfg attempts lockout d).1 ≡ d' = ap (λ x. x.1) h' in
          inl (m, room, before, rw state at after, sym (ap (λ x. x.2) h'))
    ]
