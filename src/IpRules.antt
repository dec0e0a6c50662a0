-- ===== src/IpRules.antt =====
-- internal/geoip/ip_rules.go: the access rules of an application, their cache and their validation.
-- Package net and the GeoIP database are the record `Net`; the rules in the database are the result
-- of `ListByApp`, `none` where it fails. The readings of the clock are arguments.
pub mod Access
use graaa_golang_auth_api.Common.{
  ℕ, ◌-◌, ◌*◌, Bool, true, false, not, ◌&&◌, ◌||◌, Option, none, some, List, [], ◌∷◌, Text, codes,
  text_eq, text_key, is_empty, byte_len, any, select, lookup, insert, erase, ltb, leb, ◌==◌,
  if◌then◌else◌, map,
}
use graaa_golang_auth_api.Redis.Sessions.{minute}

-- `net.ParseIP(s) != nil`, `net.ParseCIDR(s)` without an error, `network.Contains(ip)` for texts that
-- parse, and the country that a lookup finds for an address, if it finds one.
pub record Net : Type 0 where
  pub parse_ip : Text → Bool
  pub parse_cidr : Text → Bool
  pub contains : Text → Text → Bool
  pub country_of : Text → Option Text

-- Rule types and match types are texts in the database: any other text is none of these.
pub data RuleType : Type 0 where
  allow block other_rule : RuleType

pub data MatchType : Type 0 where
  ip cidr country other_match : MatchType

pub record IpRule : Type 0 where
  pub id : Text
  pub rule_type : RuleType
  pub match_type : MatchType
  pub value : Text

pub data Reason : Type 0 where
  no_rules_configured matched_allowlist not_in_allowlist matched_blocklist not_in_blocklist : Reason

pub record AccessResult : Type 0 where
  pub allowed : Bool
  pub reason : Reason
  pub matched_rule : Option Text
  pub resolved : Text

-- `strings.ToUpper` and `strings.EqualFold` on ASCII, which country codes are.
abbrev pub upper : ℕ → ℕ
upper c = if leb b'a' c && leb c b'z' then c - 32 else c

abbrev pub to_upper : Text → Text
to_upper s = map upper s

abbrev pub equal_fold : Text → Text → Bool
equal_fold s t = text_eq (to_upper s) (to_upper t)

abbrev is_allow : RuleType → Bool
is_allow allow = true
is_allow block = false
is_allow other_rule = false

abbrev is_block : RuleType → Bool
is_block allow = false
is_block block = true
is_block other_rule = false

abbrev pub allow_rules : List IpRule → List IpRule
allow_rules rules = select (λ rule. is_allow rule.rule_type) rules

abbrev pub block_rules : List IpRule → List IpRule
block_rules rules = select (λ rule. is_block rule.rule_type) rules

abbrev pub country_or_empty : Option Text → Text
country_or_empty none = []
country_or_empty (some c) = c

module _ (net : Net) where
  unfoldable pub matches_cidr : Text → Text → Bool
  matches_cidr ip_str cidr_ =
      if not (net.parse_ip ip_str)
      then false
      else if not (net.parse_cidr cidr_)
      then false
      else net.contains cidr_ ip_str

  unfoldable pub matches_by : MatchType → Text → Text → Text → Bool
  matches_by ip value client_ip client_country = text_eq client_ip value
  matches_by cidr value client_ip client_country = matches_cidr client_ip value
  matches_by country value client_ip client_country =
      if is_empty client_country then false else equal_fold client_country value
  matches_by other_match value client_ip client_country = false

  unfoldable pub matches_rule : Text → Text → IpRule → Bool
  matches_rule client_ip client_country rule =
      matches_by rule.match_type rule.value client_ip client_country

  -- The first rule of the loop that matches.
  unfoldable pub first_match : Text → Text → List IpRule → Option IpRule
  first_match client_ip client_country [] = none
  first_match client_ip client_country (rule ∷ rules) =
      let rest = first_match client_ip client_country rules in
      if matches_rule client_ip client_country rule then some rule else rest

  abbrev pub on_allowlist : Text → Option IpRule → AccessResult
  on_allowlist c none = record {
    allowed = false;
    reason = not_in_allowlist;
    matched_rule = none;
    resolved = c;
  }
  on_allowlist c (some rule) = record {
    allowed = true;
    reason = matched_allowlist;
    matched_rule = some rule.id;
    resolved = c;
  }

  abbrev pub on_blocklist : Text → Option IpRule → AccessResult
  on_blocklist c none = record {
    allowed = true;
    reason = not_in_blocklist;
    matched_rule = none;
    resolved = c;
  }
  on_blocklist c (some rule) = record {
    allowed = false;
    reason = matched_blocklist;
    matched_rule = some rule.id;
    resolved = c;
  }

  -- With an allowlist the blocklist is not read.
  unfoldable pub by_lists : Text → Text → List IpRule → List IpRule → AccessResult
  by_lists client_ip c [] blocks = on_blocklist c (first_match client_ip c blocks)
  by_lists client_ip c (rule ∷ allows) blocks =
      on_allowlist c (first_match client_ip c (rule ∷ allows))

  unfoldable pub evaluate_rules : Text → List IpRule → AccessResult
  evaluate_rules client_ip [] = record {
    allowed = true;
    reason = no_rules_configured;
    matched_rule = none;
    resolved = [];
  }
  evaluate_rules client_ip (rule ∷ rules) =
      by_lists client_ip (country_or_empty (net.country_of client_ip)) (allow_rules (rule ∷ rules))
        (block_rules (rule ∷ rules))

  -- What is wrong with a rule; a country is stored in upper case.
  pub data RuleError : Type 0 where
    invalid_rule_type contains_slash invalid_ip no_prefix invalid_cidr : RuleError
    invalid_country invalid_match_type : RuleError

  pub data Validated : Type 0 where
    valid : IpRule → Validated
    invalid : RuleError → Validated

  unfoldable pub validate_match : IpRule → Validated
  validate_match rule = elim (rule.match_type) [
    | ip ↦
        if any (λ c. c == b'/') rule.value
        then invalid contains_slash
        else if not (net.parse_ip rule.value)
        then invalid invalid_ip
        else valid rule
    | cidr ↦
        if not (any (λ c. c == b'/') rule.value)
        then invalid no_prefix
        else if not (net.parse_cidr rule.value)
        then invalid invalid_cidr
        else valid rule
    | country ↦
        if byte_len rule.value == 2
        then valid (record rule { value = to_upper rule.value })
        else invalid invalid_country
    | other_match ↦ invalid invalid_match_type
  ]

  unfoldable pub validate_rule : IpRule → Validated
  validate_rule rule =
      if is_allow rule.rule_type || is_block rule.rule_type
      then validate_match rule
      else invalid invalid_rule_type

pub record CachedRules : Type 0 where
  pub rules : List IpRule
  pub fetched_at : ℕ

abbrev pub Cache : Type 0
Cache = List (Text × CachedRules)

unfoldable pub invalidate_cache : Text → Cache → Cache
invalidate_cache app cache = erase app cache

-- The rules from the database go into the cache; a failure gives no rules and leaves it alone.
unfoldable pub fetch : ℕ → Text → Option (List IpRule) → Cache → List IpRule × Cache
fetch now app none cache = ([], cache)
fetch now app (some rules) cache =
    (rules, insert app (record { rules = rules; fetched_at = now }) cache)

-- `since` is the reading of `time.Since`, `now` that of the entry that is stored.
unfoldable pub get_rules : ℕ → ℕ → Text → Option (List IpRule) → Cache → List IpRule × Cache
get_rules since now app listed cache = elim (lookup app cache) [
  | none ↦ fetch now app listed cache
  | some cached ↦
      if ltb (since - cached.fetched_at) (5 * minute)
      then (cached.rules, cache)
      else fetch now app listed cache
]

unfoldable pub evaluate_access :
    Net → ℕ → ℕ → Text → Text → Option (List IpRule) → Cache → AccessResult × Cache
evaluate_access net since now app client_ip listed cache =
    let (rules, cache') = get_rules since now app listed cache in
    (evaluate_rules net client_ip rules, cache')
