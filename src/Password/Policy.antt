-- ===== src/Password/Policy.antt =====
-- Which passwords the policy accepts.
use graaa_golang_auth_api.Common.{
  ℕ, ◌≤◌, ◌≡◌, ◌↔◌, ◌⊎◌, inl, inr, true, false, [], ◌∷◌, Text, byte_len, arith, Some,
}
use graaa_golang_auth_api.Password.{
  Library, Application, Classes, no_classes, acceptable, min_length, max_length, classify,
  classify_all, lacking, check_classes, validate_password_policy,
}

-- The class of a character: a character of two classes counts for the first.
abbrev pub IsUpper : Library → ℕ → Type 0
IsUpper lib c = lib.is_upper c ≡ true

abbrev pub IsLower : Library → ℕ → Type 0
IsLower lib c = (lib.is_upper c ≡ false) × (lib.is_lower c ≡ true)

abbrev pub IsDigit : Library → ℕ → Type 0
IsDigit lib c = (lib.is_upper c ≡ false) × (lib.is_lower c ≡ false) × (lib.is_digit c ≡ true)

abbrev pub IsSpecial : Library → ℕ → Type 0
IsSpecial lib c =
    (lib.is_upper c ≡ false)
    × (lib.is_lower c ≡ false)
    × (lib.is_digit c ≡ false)
    × ((lib.is_punct c ≡ true) ⊎ (lib.is_symbol c ≡ true))

-- A class found in the rest of a text or in its first character is found in the text.
class_step : {A B C D E : Type 0} → A ↔ (B ⊎ C) → C ↔ (D ⊎ E) → A ↔ ((D ⊎ B) ⊎ E)
class_step (there, back) (first, second) = (
  λ a. elim (there a) [
    | inl b ↦ inl (inr b)
    | inr c ↦ elim (first c) [ inl d ↦ inl (inl d) | inr e ↦ inr e ]
  ],
  λ s. elim s [
    | inl (inl d) ↦ back (inr (second (inl d)))
    | inl (inr b) ↦ back (inl b)
    | inr e ↦ back (inr (second (inr e)))
  ],
)

from_none : {A : Type 0} → A ⊎ (false ≡ true) → A
from_none (inl a) = a
from_none (inr h) = absurd (cc h)

module _ (lib : Library) where
  module _ (c : ℕ) (seen : Classes) where
    classify_iff :
        (((classify lib c seen).has_upper ≡ true) ↔ (IsUpper lib c ⊎ (seen.has_upper ≡ true)))
        × (((classify lib c seen).has_lower ≡ true) ↔ (IsLower lib c ⊎ (seen.has_lower ≡ true)))
        × (((classify lib c seen).has_digit ≡ true) ↔ (IsDigit lib c ⊎ (seen.has_digit ≡ true)))
        × (((classify lib c seen).has_symbol ≡ true) ↔ (IsSpecial lib c ⊎ (seen.has_symbol ≡ true)))
    unfolding classify
    classify_iff = ground arith

  classify_all_iff :
      (password : Text) (seen : Classes)
      → (((classify_all lib password seen).has_upper ≡ true)
          ↔ (Some (IsUpper lib) password ⊎ (seen.has_upper ≡ true)))
        × (((classify_all lib password seen).has_lower ≡ true)
            ↔ (Some (IsLower lib) password ⊎ (seen.has_lower ≡ true)))
        × (((classify_all lib password seen).has_digit ≡ true)
            ↔ (Some (IsDigit lib) password ⊎ (seen.has_digit ≡ true)))
        × (((classify_all lib password seen).has_symbol ≡ true)
            ↔ (Some (IsSpecial lib) password ⊎ (seen.has_symbol ≡ true)))
  unfolding classify_all
  classify_all_iff [] seen = (
    (λ h. inr h, λ h. elim h [ inl e ↦ elim e [ ] | inr k ↦ k ]),
    (λ h. inr h, λ h. elim h [ inl e ↦ elim e [ ] | inr k ↦ k ]),
    (λ h. inr h, λ h. elim h [ inl e ↦ elim e [ ] | inr k ↦ k ]),
    (λ h. inr h, λ h. elim h [ inl e ↦ elim e [ ] | inr k ↦ k ]),
  )
  classify_all_iff (c ∷ password) seen =
      let (upper, lower, digit, symbol) = classify_all_iff password (classify lib c seen) in
      let (upper_c, lower_c, digit_c, symbol_c) = classify_iff c seen in
      (
        class_step upper upper_c,
        class_step lower lower_c,
        class_step digit digit_c,
        class_step symbol symbol_c,
      )

-- What the code asks of a password; the lengths are in bytes.
pub record IsAcceptable (lib : Library) (password : Text) (app : Application) : Type 0 where
  pub long_enough : min_length app ≤ byte_len password
  pub short_enough : byte_len password ≤ max_length app
  pub upper : app.pw_require_upper ≡ true → Some (IsUpper lib) password
  pub lower : app.pw_require_lower ≡ true → Some (IsLower lib) password
  pub digit : app.pw_require_digit ≡ true → Some (IsDigit lib) password
  pub symbol : app.pw_require_symbol ≡ true → Some (IsSpecial lib) password

module _ (lib : Library) (password : Text) (app : Application) where
  abbrev seen : Classes
  seen = classify_all lib password no_classes

  check_classes_iff : (check_classes lib password app ≡ acceptable) ↔ (
      (app.pw_require_upper ≡ true → seen.has_upper ≡ true)
      × (app.pw_require_lower ≡ true → seen.has_lower ≡ true)
      × (app.pw_require_digit ≡ true → seen.has_digit ≡ true)
      × (app.pw_require_symbol ≡ true → seen.has_symbol ≡ true))
  unfolding check_classes lacking
  check_classes_iff = ground arith

  -- A password is acceptable exactly when its length in bytes, which the messages call characters, is
  -- within the limits of the application, or the defaults 8 and 128, and each class that is required has
  -- a character.
  pub validate_password_policy_iff :
      (validate_password_policy lib password app ≡ acceptable) ↔ IsAcceptable lib password app
  unfolding validate_password_policy
  validate_password_policy_iff =
      let (upper, lower, digit, symbol) = classify_all_iff lib password no_classes in
      let (there, back) = check_classes_iff in
      (
        λ h.
            let (u, l, d, s) = there (ground arith) in
            record {
              long_enough = ground arith;
              short_enough = ground arith;
              upper = λ need. from_none (upper.0 (u need));
              lower = λ need. from_none (lower.0 (l need));
              digit = λ need. from_none (digit.0 (d need));
              symbol = λ need. from_none (symbol.0 (s need));
            },
        λ v.
            let checked = back (
              λ need. upper.1 (inl (v.upper need)),
              λ need. lower.1 (inl (v.lower need)),
              λ need. digit.1 (inl (v.digit need)),
              λ need. symbol.1 (inl (v.symbol need)),
            ) in
            ground (arith, v.long_enough, v.short_enough, checked),
      )
