-- ===== src/Common/Decimal.antt =====
-- Decimal numbers in texts: what `strconv.ParseInt` reads, and the successor that Redis writes.
use Prim.Native.Nat.{ℕ, suc, ◌+◌, ◌-◌, ◌*◌}
use mathlib.Core.Path.{◌≡◌, refl}
use mathlib.Core.Bool.{Bool, true, ◌&&◌}
use mathlib.Core.Option.{Option, none, some}
use mathlib.Core.List.{[], ◌∷◌, ◌++◌, reverse, reverse-cons, reverse-reverse}
use native.Mathlib.Omega.{arith}
use graaa_golang_auth_api.Common.Tests.{leb, ◌==◌, if◌then◌else◌}
use graaa_golang_auth_api.Common.Texts.{Text}

abbrev pub is_digit : ℕ → Bool
is_digit c = leb b'0' c && leb c b'9'

all_digits : Text → Bool
all_digits [] = true
all_digits (c ∷ s) = is_digit c && all_digits s

-- The value of digits that stand with the lowest first.
value_low_first : Text → ℕ
value_low_first [] = 0
value_low_first (c ∷ s) = (c - 48) + 10 * value_low_first s

-- `strconv.ParseInt(s, 10, 64)` for a number without a sign and below 2^63.
low_first_int : Text → Option ℕ
low_first_int [] = none
low_first_int (c ∷ s) = if all_digits (c ∷ s) then some (value_low_first (c ∷ s)) else none

unfoldable pub parse_int : Text → Option ℕ
unfolding low_first_int all_digits value_low_first
parse_int s = low_first_int (reverse s)

-- The text of the next number, by carries from the lowest digit.
carry : Text → Text
carry [] = b'1' ∷ []
carry (c ∷ s) = let rest = carry s in if c == b'9' then b'0' ∷ rest else (c + 1) ∷ s

unfoldable pub decimal_suc : Text → Text
unfolding carry
decimal_suc s = reverse (carry (reverse s))

all_digits-carry : (s : Text) → all_digits s ≡ true → all_digits (carry s) ≡ true
unfolding carry all_digits
all_digits-carry [] h = refl
all_digits-carry (c ∷ s) h = ground (arith, all_digits-carry s)

value_low_first-carry :
    (s : Text) → all_digits s ≡ true → value_low_first (carry s) ≡ suc (value_low_first s)
unfolding carry all_digits value_low_first
value_low_first-carry [] h = refl
value_low_first-carry (c ∷ s) h = ground (arith, value_low_first-carry s)

low_first_int-carry :
    (s : Text) (n : ℕ) → low_first_int s ≡ some n → low_first_int (carry s) ≡ some (suc n)
unfolding low_first_int carry
low_first_int-carry [] n h = cc
low_first_int-carry (c ∷ s) n h =
    unfold carry in ground (arith, all_digits-carry (c ∷ s), value_low_first-carry (c ∷ s))

all_digits-append :
    (s t : Text) → all_digits s ≡ true → all_digits t ≡ true → all_digits (s ++ t) ≡ true
unfolding all_digits
all_digits-append [] t h k = k
all_digits-append (c ∷ s) t h k = ground (arith, all_digits-append s t)

all_digits-reverse : (s : Text) → all_digits s ≡ true → all_digits (reverse s) ≡ true
unfolding all_digits
all_digits-reverse [] h = refl
all_digits-reverse (c ∷ s) h =
    rw reverse-cons
      (all_digits-append (reverse s) (c ∷ []) (all_digits-reverse s (ground arith)) (ground arith))

-- The successor of a decimal number reads as the next number.
pub parse_int-decimal_suc :
    (s : Text) (n : ℕ) → parse_int s ≡ some n → parse_int (decimal_suc s) ≡ some (suc n)
unfolding parse_int decimal_suc
parse_int-decimal_suc s n h = rw reverse-reverse (low_first_int-carry (reverse s) n h)

-- `Sscanf(s, "%d")`: the digits at the start. Blanks and signs before them are not modelled.
digit_prefix : Text → Text
digit_prefix [] = []
digit_prefix (c ∷ s) = let rest = digit_prefix s in if is_digit c then c ∷ rest else []

unfoldable pub scan_int : Text → Option ℕ
unfolding digit_prefix
scan_int s = parse_int (digit_prefix s)

digit_prefix-all : (s : Text) → all_digits s ≡ true → digit_prefix s ≡ s
unfolding all_digits digit_prefix
digit_prefix-all [] h = refl
digit_prefix-all (c ∷ s) h = ground (arith, digit_prefix-all s)

digits_of_int : (s : Text) (n : ℕ) → low_first_int s ≡ some n → all_digits s ≡ true
unfolding low_first_int
digits_of_int [] n h = cc
digits_of_int (c ∷ s) n h = ground arith

-- A decimal is scanned as it is parsed.
pub scan_int-parse_int : (s : Text) (n : ℕ) → parse_int s ≡ some n → scan_int s ≡ some n
unfolding parse_int scan_int
scan_int-parse_int s n h =
    let reversed = all_digits-reverse (reverse s) (digits_of_int (reverse s) n h) in
    rw (digit_prefix-all s (rw reverse-reverse at reversed)) h

pub scan_int-empty : scan_int [] ≡ none
unfolding scan_int parse_int digit_prefix low_first_int
scan_int-empty = refl
