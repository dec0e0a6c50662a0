-- ===== src/Common/Pieces.antt =====
-- `strings.Split` undoes `strings.Join`, and what `strings.TrimFunc` leaves.
use Prim.Native.Nat.{ℕ}
use mathlib.Core.Path.{◌≡◌, refl, ap, ◌∙◌}
use mathlib.Core.Logic.{◌≢◌, inl, inr}
use mathlib.Core.Bool.{Bool, true, false}
use mathlib.Core.List.{List, [], ◌∷◌, ◌++◌, reverse, reverse-append, reverse-reverse, reverse-cons}
use native.Mathlib.Omega.{arith}
use graaa_golang_auth_api.Common.Tests.{Bool-cases, ◌==◌}
use graaa_golang_auth_api.Common.Lists.{All}
use graaa_golang_auth_api.Common.Texts.{Text, split_step, split, join, trim_left, trim}

module _ (sep : ℕ) where
  abbrev pub Without : Text → Type 0
  Without p = All (λ c. c ≢ sep) p

  split-nonempty : (s : Text) → (p : Text) × (ps : List Text) × (split sep s ≡ p ∷ ps)
  unfolding split split_step
  split-nonempty [] = ([], [], refl)
  split-nonempty (c ∷ s) =
      let (p, ps, e) = split-nonempty s in
      elim (Bool-cases (c == sep)) [
        | inl same ↦ ([], p ∷ ps, rw (e, same) refl)
        | inr other ↦ (c ∷ p, ps, rw (e, other) refl)
      ]

  split-Without : (p : Text) → Without p → split sep p ≡ p ∷ []
  unfolding split split_step
  split-Without [] h = refl
  split-Without (c ∷ p) (other, rest) = rw (split-Without p rest) (ground (arith, other))

  split-append : (p s : Text) → Without p → split sep (p ++ (sep ∷ s)) ≡ p ∷ split sep s
  unfolding split split_step
  split-append [] s h = let (p, ps, e) = split-nonempty s in rw e (ground arith)
  split-append (c ∷ p) s (other, rest) = rw (split-append p s rest) (ground (arith, other))

  -- Parts without the separator, at least one, are those of the text that joins them.
  pub split-join :
      (p : Text) (ps : List Text)
      → All Without (p ∷ ps)
      → split sep (join (sep ∷ []) (p ∷ ps)) ≡ p ∷ ps
  unfolding join
  split-join p [] (h, hs) = split-Without p h
  split-join p (q ∷ ps) (h, hs) =
      split-append p (join (sep ∷ []) (q ∷ ps)) h ∙ ap (λ rest. p ∷ rest) (split-join q ps hs)

module _ (P : ℕ → Type 0) where
  pub All-append : (s t : Text) → All P s → All P t → All P (s ++ t)
  All-append [] t h k = k
  All-append (c ∷ s) t (h, hs) k = (h, All-append s t hs k)

  All-reverse : (s : Text) → All P s → All P (reverse s)
  All-reverse [] h = tt
  All-reverse (c ∷ s) (h, hs) =
      rw (reverse-cons c s) (All-append (reverse s) (c ∷ []) (All-reverse s hs) (h, tt))

module _ (p : ℕ → Bool) where
  trim_left-none : (s : Text) → All (λ c. p c ≡ false) s → trim_left p s ≡ s
  unfolding trim_left
  trim_left-none [] h = refl
  trim_left-none (c ∷ s) (h, hs) = ground (arith, h)

  -- A text is left alone whose first and last characters stay.
  pub trim-edges :
      (c d : ℕ) (s : Text)
      → p c ≡ false
      → p d ≡ false
      → trim p (c ∷ (s ++ (d ∷ []))) ≡ c ∷ (s ++ (d ∷ []))
  unfolding trim trim_left
  trim-edges c d s h k = rw h (
      rw (reverse-append (c ∷ s) (d ∷ [])) (
        rw k
          (reverse-cons d (reverse (c ∷ s)) ∙ ap (λ x. x ++ (d ∷ [])) (reverse-reverse (c ∷ s)))))

  -- One character to cut at either end of a text that has none of them.
  pub trim-quoted :
      (c : ℕ) (s : Text) → p c ≡ true → All (λ d. p d ≡ false) s → trim p (c ∷ (s ++ (c ∷ []))) ≡ s
  unfolding trim trim_left
  trim-quoted c [] h kept = rw h refl
  trim-quoted c (e ∷ s) h kept = rw h (
      rw (kept.0) (
        rw (reverse-append (e ∷ s) (c ∷ [])) (
          rw h (
            rw (trim_left-none (reverse (e ∷ s)) (All-reverse (λ d. p d ≡ false) (e ∷ s) kept))
              (reverse-reverse (e ∷ s))))))
