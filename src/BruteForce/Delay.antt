-- ===== src/BruteForce/Delay.antt =====
-- The progressive delay.
use graaa_golang_auth_api.Common.{
  ℕ, ◌+◌, ◌-◌, ◌^◌, ◌≤◌, ◌<◌, ◌≡◌, refl, true, ltb, arith, Bool-cases, inl, inr, ◌⊎◌,
}
use graaa_golang_auth_api.BruteForce.Config.{BruteForceConfig}
use graaa_golang_auth_api.BruteForce.{ℤ, pos, negsuc, cap, int_pow2, delay_of}

-- The delay of a tier as the comment on `GetDelay` has it: nothing below the start, then a power of
-- two, no more than the limit.
abbrev pub IsDelay : BruteForceConfig → ℕ → ℕ → Type 0
IsDelay cfg tier seconds =
    ((tier < cfg.delay_start_after) × (seconds ≡ 0))
    ⊎ ((cfg.delay_start_after ≤ tier)
        × (seconds ≡ 2 ^ (tier - cfg.delay_start_after))
        × (seconds ≤ cfg.delay_max_seconds))
    ⊎ ((cfg.delay_start_after ≤ tier)
        × (seconds ≡ cfg.delay_max_seconds)
        × (cfg.delay_max_seconds < 2 ^ (tier - cfg.delay_start_after)))

-- Up to 62 tiers above the start the delay is the documented one: 0 below the start, then
-- 2^(tier - start) seconds, capped at the limit.
pub delay_of-IsDelay :
    (convert : ℕ → ℤ) (cfg : BruteForceConfig) (tier : ℕ)
    → tier < cfg.delay_start_after + 63
    → (seconds : ℕ) × (delay_of convert cfg tier ≡ pos seconds) × IsDelay cfg tier seconds
unfolding delay_of cap int_pow2
delay_of-IsDelay convert cfg tier small = elim (Bool-cases (ltb tier cfg.delay_start_after)) [
  | inl below ↦ (0, rw below refl, inl (ground arith, refl))
  | inr above ↦
      let small_ : ltb (tier - cfg.delay_start_after) 63 ≡ true = ground arith in
      elim (Bool-cases (ltb cfg.delay_max_seconds (2 ^ (tier - cfg.delay_start_after)))) [
        | inl over ↦ (
          cfg.delay_max_seconds,
          rw (above, small_, over) refl,
          inr (inr (ground arith, refl, ground arith)),
        )
        | inr within ↦ (
          2 ^ (tier - cfg.delay_start_after),
          rw (above, small_, within) refl,
          inr (inl (ground arith, refl, ground arith)),
        )
      ]
]

-- Where the conversion of a float of 2^63 or more gives a negative number, as on amd64, an account
-- 63 tiers above the start has a negative delay, which the limit does not cap.
pub delay_of-overflows :
    (convert : ℕ → ℤ) (cfg : BruteForceConfig) (tier n : ℕ)
    → cfg.delay_start_after + 63 ≤ tier
    → convert (tier - cfg.delay_start_after) ≡ negsuc n
    → delay_of convert cfg tier ≡ negsuc n
unfolding delay_of cap int_pow2
delay_of-overflows convert cfg tier n large negative = ground (arith, negative)
