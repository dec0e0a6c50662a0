-- ===== src/Password.antt =====
-- internal/user/password_policy.go. The classes of package unicode, bcrypt's comparison and the JSON
-- of the stored history are the record `Library`; the limits of an application that are not positive
-- are 0 here, and days are naturals.
pub mod Policy
pub mod History
use graaa_golang_auth_api.Common.{
  ℕ, ◌+◌, ◌*◌, Bool, true, false, not, ◌&&◌, ◌||◌, Option, none, some, List, [], ◌∷◌, Text,
  is_empty, byte_len, length, take, any, ltb, leb, ◌==◌, if◌then◌else◌,
}
use graaa_golang_auth_api.Redis.Sessions.{minute, hour}

pub record Library : Type 0 where
  pub is_upper : ℕ → Bool
  pub is_lower : ℕ → Bool
  pub is_digit : ℕ → Bool
  pub is_punct : ℕ → Bool
  pub is_symbol : ℕ → Bool
  pub same_password : Text → Text → Bool
  pub marshal : List Text → Text
  pub unmarshal : Text → Option (List Text)

pub record Application : Type 0 where
  pub pw_min_length : ℕ
  pub pw_max_length : ℕ
  pub pw_require_upper : Bool
  pub pw_require_lower : Bool
  pub pw_require_digit : Bool
  pub pw_require_symbol : Bool
  pub access_token_ttl_minutes : ℕ
  pub refresh_token_ttl_hours : ℕ

-- The flags hasUpper, hasLower, hasDigit, hasSymbol.
pub record Classes : Type 0 where
  pub has_upper : Bool
  pub has_lower : Bool
  pub has_digit : Bool
  pub has_symbol : Bool

abbrev pub no_classes : Classes
no_classes = record { has_upper = false; has_lower = false; has_digit = false; has_symbol = false }

pub data PolicyResult : Type 0 where
  acceptable too_short too_long : PolicyResult
  missing : Classes → PolicyResult

abbrev or_default : ℕ → ℕ → ℕ
or_default n default = if n == 0 then default else n

unfoldable pub min_length : Application → ℕ
min_length app = or_default app.pw_min_length 8

unfoldable pub max_length : Application → ℕ
max_length app = or_default app.pw_max_length 128

module _ (lib : Library) where
  -- The switch: the first class that holds takes the character.
  unfoldable pub classify : ℕ → Classes → Classes
  classify c seen =
      if lib.is_upper c
      then record seen { has_upper = true }
      else if lib.is_lower c
      then record seen { has_lower = true }
      else if lib.is_digit c
      then record seen { has_digit = true }
      else if lib.is_punct c || lib.is_symbol c
      then record seen { has_symbol = true }
      else seen

  unfoldable pub classify_all : Text → Classes → Classes
  classify_all [] seen = seen
  classify_all (c ∷ password) seen = classify_all password (classify c seen)

  -- The required classes that were not seen.
  unfoldable pub lacking : Application → Classes → Classes
  lacking app seen = record {
    has_upper = app.pw_require_upper && not seen.has_upper;
    has_lower = app.pw_require_lower && not seen.has_lower;
    has_digit = app.pw_require_digit && not seen.has_digit;
    has_symbol = app.pw_require_symbol && not seen.has_symbol;
  }

  abbrev pub some_class : Classes → Bool
  some_class c = c.has_upper || c.has_lower || c.has_digit || c.has_symbol

  unfoldable pub check_classes : Text → Application → PolicyResult
  check_classes password app =
      if app.pw_require_upper || app.pw_require_lower || app.pw_require_digit
        || app.pw_require_symbol
      then if some_class (lacking app (classify_all password no_classes))
        then missing (lacking app (classify_all password no_classes))
        else acceptable
      else acceptable

  unfoldable pub validate_password_policy : Text → Application → PolicyResult
  validate_password_policy password app =
      if ltb (byte_len password) (min_length app)
      then too_short
      else if ltb (max_length app) (byte_len password)
      then too_long
      else check_classes password app

  -- Corrupted history: nothing is blocked.
  abbrev pub hashes_or_none : Option (List Text) → List Text
  hashes_or_none none = []
  hashes_or_none (some hashes) = hashes

  unfoldable pub stored_hashes : Text → List Text
  stored_hashes history = if is_empty history then [] else hashes_or_none (lib.unmarshal history)

  -- False where the password was used recently. `take` stops at the end of the list, as `limit` does.
  unfoldable pub check_password_history : Text → Text → ℕ → Bool
  check_password_history new_password history history_count =
      if history_count == 0 || is_empty history
      then true
      else not
          (any (λ h. lib.same_password h new_password) (take history_count (stored_hashes history)))

  unfoldable pub append_password_history : Text → Text → ℕ → Text
  append_password_history history new_hash keep_count =
      if keep_count == 0
      then history
      else lib.marshal (take keep_count (new_hash ∷ stored_hashes history))

unfoldable pub is_password_expired : ℕ → Option ℕ → ℕ → Bool
is_password_expired now none max_age_days = false
is_password_expired now (some changed_at) max_age_days =
    if max_age_days == 0 then false else ltb (changed_at + max_age_days * (24 * hour)) now

-- Zero asks for the global defaults.
unfoldable pub resolve_token_ttls : Option Application → ℕ × ℕ
resolve_token_ttls none = (0, 0)
resolve_token_ttls (some app) =
    (minute * app.access_token_ttl_minutes, hour * app.refresh_token_ttl_hours)
