-- ===== src/Common/Affixes.antt =====
-- Prefixes and suffixes of texts: `strings.TrimSuffix`, `strings.SplitN(s, sep, 2)`.
use Prim.Native.Nat.{ℕ}
use mathlib.Core.Path.{◌≡◌, refl, sym, ap, ◌∙◌}
use mathlib.Core.Logic.{◌≢◌, inl, inr}
use mathlib.Core.Bool.{true}
use mathlib.Core.Option.{Option, none, some}
use mathlib.Core.List.{[], ◌∷◌, ◌++◌, reverse, reverse-append, reverse-reverse}
use native.Mathlib.Omega.{arith}
use graaa_golang_auth_api.Common.Tests.{Bool-cases, ◌==◌, if◌then◌else◌}
use graaa_golang_auth_api.Common.Lists.{length, drop, All}
use graaa_golang_auth_api.Common.Texts.{Text, has_prefix, has_suffix}

-- `strings.TrimSuffix`
unfoldable pub trim_suffix : Text → Text → Text
trim_suffix s t = if has_suffix s t then reverse (drop (length (reverse t)) (reverse s)) else s

-- `strings.SplitN(s, sep, 2)`: the first part, and the second where there is one.
abbrev pub split_two_step : ℕ → ℕ → Text × Option Text → Text × Option Text
split_two_step sep c (p, rest) = (c ∷ p, rest)

unfoldable pub split_two : ℕ → Text → Text × Option Text
split_two sep [] = ([], none)
split_two sep (c ∷ s) =
    let later = split_two sep s in if c == sep then ([], some s) else (c ∷ later.0, later.1)

has_prefix-drop : (s t : Text) → has_prefix s t ≡ true → s ≡ t ++ drop (length t) s
unfolding has_prefix
has_prefix-drop s [] h = refl
has_prefix-drop [] (d ∷ t) h = cc
has_prefix-drop (c ∷ s) (d ∷ t) h = ground (arith, has_prefix-drop s t)

has_prefix-append : (t u : Text) → has_prefix (t ++ u) t ≡ true
unfolding has_prefix
has_prefix-append [] u = refl
has_prefix-append (d ∷ t) u = ground (arith, has_prefix-append t u)

drop-append : (t u : Text) → drop (length t) (t ++ u) ≡ u
drop-append [] u = refl
drop-append (d ∷ t) u = drop-append t u

pub has_suffix-append : (u t : Text) → has_suffix (u ++ t) t ≡ true
unfolding has_suffix
has_suffix-append u t = rw (reverse-append u t) (has_prefix-append (reverse t) (reverse u))

-- What is left of a text that has the suffix, before the suffix.
pub trim_suffix-append : (s t : Text) → has_suffix s t ≡ true → s ≡ trim_suffix s t ++ t
unfolding trim_suffix has_suffix
trim_suffix-append s t h =
    let split_ = has_prefix-drop (reverse s) (reverse t) h in
    rw h (
      sym (reverse-reverse s)
      ∙ ap reverse split_
      ∙ reverse-append (reverse t) (drop (length (reverse t)) (reverse s))
      ∙ ap (λ x. reverse (drop (length (reverse t)) (reverse s)) ++ x) (reverse-reverse t))

pub trim_suffix_lem : (u t : Text) → trim_suffix (u ++ t) t ≡ u
unfolding trim_suffix
trim_suffix_lem u t =
    rw (has_suffix-append u t, reverse-append u t, drop-append (reverse t) (reverse u))
      (reverse-reverse u)

-- The first part ends at the first separator.
pub split_two-append :
    (sep : ℕ) (p s : Text) → All (λ c. c ≢ sep) p → split_two sep (p ++ (sep ∷ s)) ≡ (p, some s)
unfolding split_two
split_two-append sep [] s apart = ground arith
split_two-append sep (c ∷ p) s (first, rest) =
    rw (split_two-append sep p s rest) (ground (arith, first))

pub split_two-some :
    (sep : ℕ) (t s : Text)
    → (split_two sep t).1 ≡ some s
    → (t ≡ (split_two sep t).0 ++ (sep ∷ s)) × All (λ c. c ≢ sep) (split_two sep t).0
unfolding split_two
split_two-some sep [] s h = cc
split_two-some sep (c ∷ t) s h = elim (Bool-cases (c == sep)) [
  | inl same ↦ let tail : some t ≡ some s = rw same at h in rw same (ground (arith, tail), tt)
  | inr other ↦
      let (whole, apart) = split_two-some sep t s (rw other at h) in
      rw other (ap (λ x. c ∷ x) whole, (ground arith, apart))
]
