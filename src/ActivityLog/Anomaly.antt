-- ===== src/ActivityLog/Anomaly.antt =====
-- internal/log/anomaly.go. The hash of a text, the GeoIP service and the texts of a notification belong
-- to the environment; hours are those of the timestamp.
use graaa_golang_auth_api.Common.{
  ℕ, ◌+◌, ◌-◌, ◌<◌, ◌≡◌, refl, ◌↔◌, Bool, true, false, not, ◌&&◌, ◌||◌, Option, none, some, List,
  [], ◌∷◌, ◌++◌, Text, text_eq, is_empty, length, any, map, select, All, ltb, leb, ◌==◌,
  if◌then◌else◌, arith,
}

pub data Severity : Type 0 where
  low medium high critical : Severity

abbrev pub rank : Severity → ℕ
rank low = 0
rank medium = 1
rank high = 2
rank critical = 3

unfoldable pub raise_severity : Severity → Severity → Severity
raise_severity current proposed = if ltb (rank current) (rank proposed) then proposed else current

pub data Reason : Type 0 where
  first_access new_ip_address new_user_agent new_geographic_location : Reason
  unusual_time_access brute_force_detected : Reason

-- The type of a notification: new_device_login, or suspicious_activity.
pub data Notification : Type 0 where
  silent new_device_login : Notification
  new_location : Bool → Notification
  brute_force : ℕ → Notification

pub record AnomalyConfig : Type 0 where
  pub enabled : Bool
  pub log_on_new_ip : Bool
  pub log_on_new_user_agent : Bool
  pub log_on_geographic_change : Bool
  pub log_on_unusual_time_access : Bool
  pub brute_force_enabled : Bool
  pub brute_force_threshold : ℕ
  pub notify_on_brute_force : Bool
  pub notify_on_new_device : Bool
  pub notify_on_geo_change : Bool

pub record UserContext : Type 0 where
  pub ip_address : Text
  pub user_agent : Text
  pub hour : ℕ

-- An entry of the log, with the hour of its timestamp.
pub record LogEntry : Type 0 where
  pub ip_address : Text
  pub user_agent : Text
  pub hour : ℕ

pub record UserPatterns : Type 0 where
  pub is_first_access : Bool
  pub known_ip_hashes : List Text
  pub known_user_agent_hashes : List Text
  pub known_countries : List Text
  pub typical_access_hours : List ℕ

pub record AnomalyResult : Type 0 where
  pub is_anomaly : Bool
  pub reasons : List Reason
  pub should_log : Bool
  pub severity : Severity
  pub notification : Notification

-- hashString, and LookupCountry where GeoIP is available.
pub record Environment : Type 0 where
  pub hash_string : Text → Text
  pub lookup_country : Option (Text → Text)

abbrev pub member : Text → List Text → Bool
member x xs = any (text_eq x) xs

-- A map used as a set: an hour once.
unfoldable pub hours_of : List LogEntry → List ℕ
hours_of [] = []
hours_of (x ∷ xs) =
    let rest = hours_of xs in if any (λ h. h == x.hour) rest then rest else x.hour ∷ rest

unfoldable pub seen_hashes : (Text → Text) → List Text → List Text
seen_hashes hash texts = map hash (select (λ s. not (is_empty s)) texts)

abbrev countries : Option (Text → Text) → List Text → List Text
countries none ips = []
countries (some country) ips =
    select (λ c. not (is_empty c)) (map country (select (λ s. not (is_empty s)) ips))

-- `logs` are the last hundred entries in the window, `all_ips` the addresses of all of them. A window
-- without an entry is a first access.
unfoldable pub get_user_patterns : Environment → List LogEntry → List Text → UserPatterns
get_user_patterns env logs all_ips = record {
  is_first_access = length logs == 0;
  known_ip_hashes = seen_hashes env.hash_string (map (λ (e : LogEntry). e.ip_address) logs);
  known_user_agent_hashes = seen_hashes env.hash_string (map (λ (e : LogEntry). e.user_agent) logs);
  known_countries = if length logs == 0 then [] else countries env.lookup_country all_ips;
  typical_access_hours = hours_of logs;
}

-- abs(current - typical)
abbrev distance : ℕ → ℕ → ℕ
distance a b = (a - b) + (b - a)

abbrev near : ℕ → ℕ → Bool
near current typical = leb (distance current typical) 2 || leb 22 (distance current typical)

unfoldable pub is_unusual_time : ℕ → UserPatterns → Bool
is_unusual_time hour patterns =
    if length patterns.typical_access_hours == 0
    then false
    else if any (near hour) patterns.typical_access_hours
    then false
    else ltb (length patterns.typical_access_hours) 6

abbrev flag : Reason → Severity → Bool → AnomalyResult → AnomalyResult
flag reason severity true a = record a {
  is_anomaly = true;
  reasons = a.reasons ++ (reason ∷ []);
  should_log = true;
  severity = raise_severity a.severity severity;
}
flag reason severity false a = a

unfoldable pub is_new_ip : Environment → UserContext → AnomalyConfig → UserPatterns → Bool
is_new_ip env ctx config p =
    config.log_on_new_ip && not (member (env.hash_string ctx.ip_address) p.known_ip_hashes)

unfoldable pub is_new_user_agent : Environment → UserContext → AnomalyConfig → UserPatterns → Bool
is_new_user_agent env ctx config p =
    config.log_on_new_user_agent
    && not (member (env.hash_string ctx.user_agent) p.known_user_agent_hashes)

abbrev new_country : Option (Text → Text) → UserContext → UserPatterns → Bool
new_country none ctx p = false
new_country (some country) ctx p =
    not (is_empty (country ctx.ip_address))
    && not (member (country ctx.ip_address) p.known_countries)

unfoldable pub is_new_geo : Environment → UserContext → AnomalyConfig → UserPatterns → Bool
is_new_geo env ctx config p =
    config.log_on_geographic_change && new_country env.lookup_country ctx p

unfoldable pub is_odd_hour : UserContext → AnomalyConfig → UserPatterns → Bool
is_odd_hour ctx config p = config.log_on_unusual_time_access && is_unusual_time ctx.hour p

unfoldable pub populate_notification :
    AnomalyConfig → Bool → Bool → Bool → AnomalyResult → AnomalyResult
populate_notification config new_ip new_ua new_geo a =
    if config.notify_on_geo_change && new_geo
    then record a { notification = new_location new_ip }
    else if config.notify_on_new_device && (new_ip || new_ua)
    then record a { notification = new_device_login }
    else a

abbrev pub no_anomaly : AnomalyResult
no_anomaly = record {
  is_anomaly = false;
  reasons = [];
  should_log = false;
  severity = low;
  notification = silent;
}

unfoldable pub find_anomalies :
    Environment → UserContext → AnomalyConfig → UserPatterns → AnomalyResult
find_anomalies env ctx config p = flag unusual_time_access medium (is_odd_hour ctx config p) (
    flag new_geographic_location high (is_new_geo env ctx config p) (
      flag new_user_agent medium (is_new_user_agent env ctx config p)
        (flag new_ip_address medium (is_new_ip env ctx config p) no_anomaly)))

-- `patterns` is none where the query failed.
unfoldable pub detect_anomaly :
    Environment → UserContext → AnomalyConfig → Option UserPatterns → AnomalyResult
detect_anomaly env ctx config patterns = if not config.enabled then no_anomaly else elim patterns [
  | none ↦ record no_anomaly { should_log = true }
  | some p ↦
      if p.is_first_access
      then record no_anomaly { is_anomaly = true; reasons = first_access ∷ []; should_log = true }
      else if (find_anomalies env ctx config p).is_anomaly
      then populate_notification config (is_new_ip env ctx config p)
          (is_new_user_agent env ctx config p) (is_new_geo env ctx config p)
          (find_anomalies env ctx config p)
      else find_anomalies env ctx config p
]

unfoldable pub detect_brute_force : AnomalyConfig → ℕ → AnomalyResult
detect_brute_force config failed_count =
    if config.brute_force_enabled && leb config.brute_force_threshold failed_count
    then record {
      is_anomaly = true;
      reasons = brute_force_detected ∷ [];
      should_log = true;
      severity = critical;
      notification = if config.notify_on_brute_force then brute_force failed_count else silent;
    }
    else no_anomaly

-- The hours between two hours of the day, the shorter way round the clock.
abbrev pub clock_distance : ℕ → ℕ → ℕ
clock_distance a b = if leb (distance a b) 12 then distance a b else 24 - distance a b

near-clock : (a b : ℕ) → a < 24 → b < 24 → near a b ≡ leb (clock_distance a b) 2
near-clock a b h k = ground (arith, h, k)

any-near :
    (hour : ℕ) (hours : List ℕ)
    → hour < 24
    → All (λ h. h < 24) hours
    → any (near hour) hours ≡ any (λ h. leb (clock_distance hour h) 2) hours
any-near hour [] h hs = refl
any-near hour (x ∷ xs) h (k, ks) =
    let rest = any-near hour xs h ks in ground (arith, near-clock hour x h k, rest)

-- For hours of the day, an access is unusual just where the user has from one to five typical hours and
-- the clock stands more than two hours from each of them, midnight being no boundary.
pub is_unusual_time_on_clock :
    (hour : ℕ) (patterns : UserPatterns)
    → hour < 24
    → All (λ h. h < 24) patterns.typical_access_hours
    → is_unusual_time hour patterns ≡ (
        leb 1 (length patterns.typical_access_hours)
        && leb (length patterns.typical_access_hours) 5
        && not (any (λ h. leb (clock_distance hour h) 2) patterns.typical_access_hours))
unfolding is_unusual_time
is_unusual_time_on_clock hour patterns h hs =
    let same = any-near hour patterns.typical_access_hours h hs in ground (arith, same)

-- Where anomaly detection is on and the user has a history, the result is an anomaly, and is logged,
-- just where one of the four tests holds; its severity is high just where the country is new and low
-- just where no test holds.
pub detect_anomaly-tests :
    (env : Environment) (ctx : UserContext) (config : AnomalyConfig) (p : UserPatterns)
    → config.enabled ≡ true
    → p.is_first_access ≡ false
    → ((detect_anomaly env ctx config (some p)).is_anomaly ≡ (
        is_new_ip env ctx config p
        || is_new_user_agent env ctx config p
        || is_new_geo env ctx config p
        || is_odd_hour ctx config p))
      × ((detect_anomaly env ctx config (some p)).should_log
          ≡ (detect_anomaly env ctx config (some p)).is_anomaly)
      × (((detect_anomaly env ctx config (some p)).severity ≡ high)
          ↔ (is_new_geo env ctx config p ≡ true))
      × (((detect_anomaly env ctx config (some p)).severity ≡ low)
          ↔ ((detect_anomaly env ctx config (some p)).is_anomaly ≡ false))
unfolding detect_anomaly find_anomalies populate_notification raise_severity
detect_anomaly-tests env ctx config p on known = rw on (rw known (ground arith))
