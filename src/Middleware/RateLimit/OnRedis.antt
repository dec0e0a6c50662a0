-- ===== src/Middleware/RateLimit/OnRedis.antt =====
-- The limits that hold where Redis answers.
use graaa_golang_auth_api.Common.{
  ℕ, suc, ◌<◌, ◌≡◌, refl, ◌≢◌, ◌∙◌, sym, ap, ◌⊎◌, false, ◌&&◌, Option, none, some, [], Text, codes,
  text_eq, ltb, leb, ◌==◌, arith, Bool-cases, parse_int, scan_int, scan_int-parse_int,
  scan_int-empty, inl, inr,
}
use graaa_golang_auth_api.Redis.Interface.{Reply, ok, nil, failed, counter, Redis, IsRedis}
use graaa_golang_auth_api.Middleware.RateLimit.{
  RateLimitConfig, Response, next, reject_request, too_many_requests, too_many_failed,
  temporarily_locked, text_or_empty, parsed_count, open_window, counted, soft_limit, hard_lockout,
  try_redis,
}

rejects-apart :
    (cfg : RateLimitConfig) (response : Response)
    → ((response ≡ next) ⊎ (response ≡ reject_request cfg temporarily_locked))
    → (response ≢ reject_request cfg too_many_failed)
      × (response ≢ reject_request cfg too_many_requests)
unfolding reject_request
rejects-apart cfg response h = (λ k. ground (arith, h, k), λ k. ground (arith, h, k))

locked-ne-next : (cfg : RateLimitConfig) → reject_request cfg temporarily_locked ≢ next
unfolding reject_request
locked-ne-next cfg h = ground (arith, h)

module _ (r : Redis) (laws : IsRedis r) (cfg : RateLimitConfig) (attempts lockout : Text)
    (window : 0 < cfg.window) where
  -- The count that the soft limit reads is the one that INCR goes on from.
  read_count :
      (reply : Reply Text) (count : Text) (m : ℕ) (d : r.Db)
      → r.get attempts d ≡ reply
      → text_or_empty reply ≡ some count
      → counter (r.entry d attempts) ≡ some m
      → parsed_count (scan_int count) ≡ m
  read_count (ok v) count m d got read_ held =
      let h : parse_int v ≡ some m = rw (laws.get_ok attempts v d got) at held in
      ground (arith, scan_int-parse_int v m h)
  read_count nil count m d got read_ held =
      let none_ : some 0 ≡ some m = rw (laws.get_nil attempts d got) at held in
      let empty : some [] ≡ some count = read_ in cc (scan_int-empty, none_, empty)
  read_count failed count m d got read_ held = cc

  open_window_keeps :
      (n : ℕ) (d : r.Db) (k : Text)
      → r.entry (open_window r cfg attempts lockout n d) k ≡ r.entry d k
  unfolding open_window
  open_window_keeps n d k = elim (Bool-cases (n == 1)) [
    | inl first ↦ rw first (laws.expire_keeps attempts cfg.window d k window)
    | inr later ↦ rw later refl
  ]

  -- The increment of a request that is below the soft limit.
  record Passes (d : r.Db) (n : ℕ) : Type 0 where
    m : ℕ
    before : counter (r.entry d attempts) ≡ some m
    room : m < cfg.max_attempts
    next_count : n ≡ suc m
    after : counter (r.entry (r.incr attempts d).1 attempts) ≡ some n

  passes :
      (count : Text) (d : r.Db) (n : ℕ)
      → text_or_empty (r.get attempts d) ≡ some count
      → leb cfg.max_attempts (parsed_count (scan_int count)) ≡ false
      → (r.incr attempts d).0 ≡ ok n
      → Passes d n
  passes count d n read_ room counted_ =
      let (m, next_count, before, after) = laws.incr_ok attempts d n counted_ in
      let same = read_count (r.get attempts d) count m d refl read_ before in
      record {
        m = m;
        before = before;
        room = ground (arith, same);
        next_count = next_count;
        after = after;
      }

  counted_ok :
      (reply : Reply ℕ) (d : r.Db) (response : Response)
      → (counted r cfg attempts lockout reply d).0 ≡ some response
      → (n : ℕ) × (reply ≡ ok n)
  unfolding counted
  counted_ok (ok n) d response h = (n, refl)
  counted_ok nil d response h = absurd (cc h)
  counted_ok failed d response h = absurd (cc h)

  -- A request that the soft limit lets by is counted.
  soft_limit_cases :
      (o : Option Text) (d : r.Db) (response : Response)
      → text_or_empty (r.get attempts d) ≡ o
      → (soft_limit r cfg attempts lockout o d).0 ≡ some response
      → response ≢ reject_request cfg too_many_requests
      → (n : ℕ) × Passes d n
        × (soft_limit r cfg attempts lockout o d
            ≡ counted r cfg attempts lockout (ok n) (r.incr attempts d).1)
  unfolding soft_limit
  soft_limit_cases none d response read_ h other = absurd (cc h)
  soft_limit_cases (some count) d response read_ h other =
      elim (Bool-cases (leb cfg.max_attempts (parsed_count (scan_int count)))) [
        | inl full ↦ absurd (other (cc (rw full at h)))
        | inr room ↦
            let (n, counted_) = counted_ok (r.incr attempts d).0 _ response (rw room at h) in
            (n, passes count d n read_ room counted_, rw (room, counted_) refl)
      ]

  hard_lockout_cases :
      (o : Option Text) (d : r.Db) (response : Response)
      → (hard_lockout r cfg attempts lockout o d).0 ≡ some response
      → response ≢ reject_request cfg too_many_failed
      → hard_lockout r cfg attempts lockout o d
        ≡ soft_limit r cfg attempts lockout (text_or_empty (r.get attempts d)) d
  unfolding hard_lockout
  hard_lockout_cases none d response h other = absurd (cc h)
  hard_lockout_cases (some val) d response h other =
      elim (Bool-cases (text_eq val (codes "locked"))) [
        | inl locked ↦ absurd (other (cc (rw locked at h)))
        | inr open_ ↦ rw open_ refl
      ]

  try_redis_soft :
      (d : r.Db) (response : Response)
      → (try_redis r cfg attempts lockout d).0 ≡ some response
      → response ≢ reject_request cfg too_many_failed
      → try_redis r cfg attempts lockout d
        ≡ soft_limit r cfg attempts lockout (text_or_empty (r.get attempts d)) d
  unfolding try_redis
  try_redis_soft d response h other = elim (Bool-cases (ltb 0 cfg.lockout_threshold)) [
    | inl locks ↦ rw locks (hard_lockout_cases _ d response (rw locks at h) other)
    | inr never ↦ rw never refl
  ]

  -- An answer that is no rejection by a limit already reached comes from an increment.
  try_redis_counted :
      (d : r.Db) (response : Response)
      → (try_redis r cfg attempts lockout d).0 ≡ some response
      → response ≢ reject_request cfg too_many_failed
      → response ≢ reject_request cfg too_many_requests
      → (n : ℕ) × Passes d n
        × (try_redis r cfg attempts lockout d
            ≡ counted r cfg attempts lockout (ok n) (r.incr attempts d).1)
  try_redis_counted d response h hard soft =
      let same = try_redis_soft d response h hard in
      let (n, pass, counted_) = soft_limit_cases _ d response refl (rw same at h) soft in
      (n, pass, same ∙ counted_)

  -- A request that the limiter on Redis lets through found a count below the limit, and it is
  -- counted: the count in Redis is one more afterwards.
  pub try_redis-counts :
      (d : r.Db)
      → (try_redis r cfg attempts lockout d).0 ≡ some next
      → (m : ℕ) × (m < cfg.max_attempts)
        × (counter (r.entry d attempts) ≡ some m)
        × (counter (r.entry (try_redis r cfg attempts lockout d).1 attempts) ≡ some (suc m))
  unfolding counted
  try_redis-counts d h =
      let (hard, soft) = rejects-apart cfg next (inl refl) in
      let (n, pass, same) = try_redis_counted d next h hard soft in
      elim (Bool-cases (ltb 0 cfg.lockout_threshold && leb cfg.lockout_threshold n)) [
        | inl locks ↦ absurd (locked-ne-next cfg (cc (rw (same, locks) at h)))
        | inr open_ ↦ (
          pass.m,
          pass.room,
          pass.before,
          rw (same, open_, open_window_keeps n (r.incr attempts d).1 attempts, pass.after)
              (ap some pass.next_count),
        )
      ]

  -- Where the soft limit is below the lockout threshold, no request on Redis ever sets a lockout,
  -- whatever the state of the server: the answer of a lockout just set does not occur.
  pub try_redis-never_locks :
      (d : r.Db)
      → cfg.max_attempts < cfg.lockout_threshold
      → (try_redis r cfg attempts lockout d).0 ≢ some (reject_request cfg temporarily_locked)
  unfolding counted
  try_redis-never_locks d soft h =
      let (failed_, requests) = rejects-apart cfg _ (inr refl) in
      let (n, pass, same) = try_redis_counted d _ h failed_ requests in
      elim (Bool-cases (ltb 0 cfg.lockout_threshold && leb cfg.lockout_threshold n)) [
        | inl locks ↦ ground (arith, pass.room, pass.next_count, locks)
        | inr open_ ↦ locked-ne-next cfg (sym (cc (rw (same, open_) at h)))
      ]
