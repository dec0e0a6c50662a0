-- ===== src/Tests/Policies.antt =====
-- Passwords and access rules at concrete inputs.
use graaa_golang_auth_api.Common.{
  ◌≡◌, refl, ◌≢◌, ◌↔◌, ◌⊎◌, ◌≤◌, true, false, Option, none, some, List, [], ◌∷◌, Text, codes,
  text_eq, length, leb, ◌&&◌, arith,
}
use graaa_golang_auth_api.Password.{
  Library, Application, acceptable, validate_password_policy, stored_hashes,
  append_password_history, check_password_history,
}
use graaa_golang_auth_api.Password.Policy.{IsAcceptable, validate_password_policy_iff}
use graaa_golang_auth_api.Password.History.{IsLibrary, append_password_history-refuses}
use graaa_golang_auth_api.IpRules.{
  Net, IpRule, allow, block, ip, allow_rules, block_rules, evaluate_rules, evaluate_access,
  invalidate_cache, Cache,
}
use graaa_golang_auth_api.IpRules.Access.{
  Matched, client_country, evaluate_rules_iff, evaluate_access-fresh, Request, after_requests,
}
use graaa_golang_auth_api.Tests.SampleJwt.{put_texts, get_texts, get_texts-put_texts}

abbrev read_back : Text → Option (List Text)
read_back [] = none
read_back (n ∷ t) = some (get_texts n t)

-- ASCII classes, hashes that are the passwords, and a history with its length in front.
abbrev ascii : Library
ascii = record {
  is_upper = λ c. leb b'A' c && leb c b'Z';
  is_lower = λ c. leb b'a' c && leb c b'z';
  is_digit = λ c. leb b'0' c && leb c b'9';
  is_punct = λ c. leb b'!' c && leb c b'/';
  is_symbol = λ c. leb b':' c && leb c b'@';
  same_password = text_eq;
  marshal = λ hashes. length hashes ∷ put_texts hashes;
  unmarshal = read_back;
}

ascii-IsLibrary : IsLibrary ascii
ascii-IsLibrary = record {
  unmarshal_marshal = λ hashes. rw (get_texts-put_texts hashes) refl;
  marshal_nonempty = λ hashes. refl;
}

abbrev policy : Application
policy = record {
  pw_min_length = 0;
  pw_max_length = 0;
  pw_require_upper = true;
  pw_require_lower = false;
  pw_require_digit = true;
  pw_require_symbol = false;
  access_token_ttl_minutes = 0;
  refresh_token_ttl_hours = 0;
}

validate_password_policy_iff_example :
    (validate_password_policy ascii (codes "Secret123") policy ≡ acceptable)
    ↔ IsAcceptable ascii (codes "Secret123") policy
validate_password_policy_iff_example = validate_password_policy_iff ascii (codes "Secret123") policy

abbrev history : Text
history = append_password_history ascii [] (codes "old") 2

append_password_history-refuses_example :
    (length (stored_hashes ascii (append_password_history ascii history (codes "new") 2)) ≤ 2)
    × (check_password_history ascii
          (codes "new")
          (append_password_history ascii history (codes "new") 2)
          3
        ≡ false)
unfolding text_eq
append_password_history-refuses_example =
    append_password_history-refuses ascii ascii-IsLibrary (codes "new") history (codes "new") 2 3
      (omega arith) (omega arith) refl

-- A network in which every text is an address and no range holds one.
abbrev flat : Net
flat = record {
  parse_ip = λ s. true;
  parse_cidr = λ s. true;
  contains = λ range s. false;
  country_of = λ s. some (codes "DE");
}

abbrev office_only : List IpRule
office_only =
    record { id = codes "1"; rule_type = allow; match_type = ip; value = codes "10.0.0.1" }
    ∷ record { id = codes "2"; rule_type = block; match_type = ip; value = codes "10.0.0.1" }
    ∷ []

evaluate_rules_iff_example :
    ((evaluate_rules flat (codes "10.0.0.1") office_only).allowed ≡ true) ↔ (
      ((allow_rules office_only ≢ [])
        × Matched flat
            (codes "10.0.0.1")
            (client_country flat (codes "10.0.0.1"))
            (allow_rules office_only))
      ⊎ ((allow_rules office_only ≡ [])
          × (Matched flat
                (codes "10.0.0.1")
                (client_country flat (codes "10.0.0.1"))
                (block_rules office_only)
              → ⊥)))
evaluate_rules_iff_example = evaluate_rules_iff flat (codes "10.0.0.1") office_only

abbrev stale : Cache
stale = (codes "app", record { rules = []; fetched_at = 100 }) ∷ []

-- Two requests in between, one of another application.
abbrev between : List Request
between =
    record {
      since = 250;
      now = 251;
      app = codes "app";
      client_ip = codes "10.0.0.3";
      listed = none;
    }
    ∷ record {
      since = 260;
      now = 261;
      app = codes "other";
      client_ip = codes "10.0.0.3";
      listed = some [];
    }
    ∷ []

evaluate_access-fresh_example :
    ((evaluate_access flat 200 201
        (codes "app")
        (codes "10.0.0.1")
        (some office_only)
        (invalidate_cache (codes "app") stale)).0
      ≡ evaluate_rules flat (codes "10.0.0.1") office_only)
    × ((evaluate_access flat 300 301 (codes "app") (codes "10.0.0.2") none (
          after_requests flat between
            (evaluate_access flat 200 201
              (codes "app")
              (codes "10.0.0.1")
              (some office_only)
              (invalidate_cache (codes "app") stale)).1)).0
        ≡ evaluate_rules flat (codes "10.0.0.2") office_only)
evaluate_access-fresh_example =
    evaluate_access-fresh flat 200 201 300 301 (codes "app") (codes "10.0.0.1") (codes "10.0.0.2")
      office_only none between stale ((λ same. omega arith), ((λ same. omega arith), tt))
      (omega arith)
