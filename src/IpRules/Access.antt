-- ===== src/IpRules/Access.antt =====
-- Who is let in, and when a change of the rules is seen.
use graaa_golang_auth_api.Common.{
  ℕ, ◌-◌, ◌*◌, ◌<◌, ◌≡◌, refl, ap, ◌∙◌, ◌≢◌, ◌↔◌, ◌⊎◌, inl, inr, true, false, Option, none, some,
  List, [], ◌∷◌, Text, ltb, text_key, text_eq_refl, text_eq, text_eq_iff, All, lookup, insert,
  erase, lookup-erase, lookup-insert, arith, Bool-cases, Some,
}
use graaa_golang_auth_api.Redis.Sessions.{minute}
use graaa_golang_auth_api.IpRules.{
  Net, IpRule, allow_rules, block_rules, country_or_empty, matches_rule, first_match, on_allowlist,
  on_blocklist, by_lists, evaluate_rules, Cache, CachedRules, invalidate_cache, fetch, get_rules,
  evaluate_access,
}

module _ (net : Net) (client_ip : Text) where
  -- Some rule of the list matches the client.
  abbrev pub Matched : Text → List IpRule → Type 0
  Matched c rules = Some (λ rule. matches_rule net client_ip c rule ≡ true) rules

  on_allowlist_iff :
      (c d : Text) (rules : List IpRule)
      → ((on_allowlist net d (first_match net client_ip c rules)).allowed ≡ true) ↔ Matched c rules
  unfolding first_match
  on_allowlist_iff c d [] = (λ h. absurd (cc h), λ h. elim h [ ])
  on_allowlist_iff c d (rule ∷ rules) =
      let (there, back) = on_allowlist_iff c d rules in ground (arith, there, back)

  on_blocklist_iff :
      (c d : Text) (rules : List IpRule)
      → ((on_blocklist net d (first_match net client_ip c rules)).allowed ≡ false) ↔ Matched c rules
  unfolding first_match
  on_blocklist_iff c d [] = (λ h. absurd (cc h), λ h. elim h [ ])
  on_blocklist_iff c d (rule ∷ rules) =
      let (there, back) = on_blocklist_iff c d rules in ground (arith, there, back)

  abbrev pub client_country : Text
  client_country = country_or_empty (net.country_of client_ip)

  by_lists_iff :
      (c : Text) (allows blocks : List IpRule)
      → ((by_lists net client_ip c allows blocks).allowed ≡ true)
        ↔ (((allows ≢ []) × Matched c allows) ⊎ ((allows ≡ []) × (Matched c blocks → ⊥)))
  unfolding by_lists
  by_lists_iff c [] blocks =
      let (there, back) = on_blocklist_iff c c blocks in
      (
        λ h. inr (refl, λ m. cc (back m, h)),
        λ s. elim s [
          | inl (ne, _) ↦ absurd (ne refl)
          | inr (_, unmatched) ↦
              elim (Bool-cases
                ((on_blocklist net c (first_match net client_ip c blocks)).allowed)) [
                  | inl let_in ↦ let_in
                  | inr denied ↦ absurd (unmatched (there denied))
                ]
        ],
      )
  by_lists_iff c (rule ∷ allows) blocks =
      let (there, back) = on_allowlist_iff c c (rule ∷ allows) in
      (
        λ h. inl (λ e. cc e, there h),
        λ s. elim s [ inl (_, m) ↦ back m | inr (e, _) ↦ absurd (cc e) ],
      )

  -- A client is let in exactly when there are allow rules and one matches it, or there are none and
  -- no block rule matches it.
  pub evaluate_rules_iff :
      (rules : List IpRule)
      → ((evaluate_rules net client_ip rules).allowed ≡ true) ↔ (
          ((allow_rules rules ≢ []) × Matched client_country (allow_rules rules))
          ⊎ ((allow_rules rules ≡ []) × (Matched client_country (block_rules rules) → ⊥)))
  unfolding evaluate_rules
  evaluate_rules_iff [] = (λ h. inr (refl, λ m. elim m [ ]), λ s. refl)
  evaluate_rules_iff (rule ∷ rules) =
      by_lists_iff client_country (allow_rules (rule ∷ rules)) (block_rules (rule ∷ rules))

get_rules-miss :
    (since now : ℕ) (app : Text) (rules : List IpRule) (cache : Cache)
    → lookup app cache ≡ none
    → get_rules since now app (some rules) cache
      ≡ (rules, insert app (record { rules = rules; fetched_at = now }) cache)
unfolding get_rules fetch
get_rules-miss since now app rules cache gone = rw (gone, get_rules) refl

get_rules-hit :
    (since now : ℕ) (app : Text) (listed : Option (List IpRule)) (cached : CachedRules)
    (cache : Cache)
    → lookup app cache ≡ some cached
    → since - cached.fetched_at < 5 * minute
    → get_rules since now app listed cache ≡ (cached.rules, cache)
unfolding get_rules
get_rules-hit since now app listed cached cache held recent =
    let young : ltb (since - cached.fetched_at) (5 * minute) ≡ true = ground arith in
    rw (held, get_rules) (rw young refl)

-- A request: the readings of the clock, the application, the client, and what the database lists then.
pub record Request : Type 0 where
  pub since : ℕ
  pub now : ℕ
  pub app : Text
  pub client_ip : Text
  pub listed : Option (List IpRule)

-- The cache after requests that come one after another.
unfoldable pub after_requests : Net → List Request → Cache → Cache
after_requests net [] cache = cache
after_requests net (q ∷ qs) cache =
    after_requests net qs (evaluate_access net q.since q.now q.app q.client_ip q.listed cache).1

-- A request of the application comes within five minutes of the reading; those of others at any time.
abbrev pub InTime : Text → ℕ → Request → Type 0
InTime app fetched_at q = q.app ≡ app → q.since - fetched_at < 5 * minute

fetch-other :
    (now : ℕ) (app app' : Text) (listed : Option (List IpRule)) (cache : Cache)
    → text_eq app' app ≡ false
    → lookup app (fetch now app' listed cache).1 ≡ lookup app cache
unfolding fetch
fetch-other now app app' none cache apart = refl
fetch-other now app app' (some rules) cache apart =
    ground (arith, lookup-insert app' app (record { rules = rules; fetched_at = now }) cache, apart)

get_rules-other :
    (since now : ℕ) (app app' : Text) (listed : Option (List IpRule)) (cache : Cache)
    → text_eq app' app ≡ false
    → lookup app (get_rules since now app' listed cache).1 ≡ lookup app cache
unfolding get_rules
get_rules-other since now app app' listed cache apart =
    ground (arith, fetch-other now app app' listed cache apart)

-- The rules of the application stay in the cache under requests in time.
get_rules-keeps :
    (since now : ℕ) (app app' : Text) (listed : Option (List IpRule)) (cached : CachedRules)
    (cache : Cache)
    → lookup app cache ≡ some cached
    → (app' ≡ app → since - cached.fetched_at < 5 * minute)
    → lookup app (get_rules since now app' listed cache).1 ≡ some cached
get_rules-keeps since now app app' listed cached cache held recent =
    elim (Bool-cases (text_eq app' app)) [
      | inr other ↦ get_rules-other since now app app' listed cache other ∙ held
      | inl same ↦
          let e = (text_eq_iff app' app).0 same in
          rw e (
            ap (λ x. lookup app x.1)
              (get_rules-hit since now app listed cached cache held (recent e))
            ∙ held)
    ]

after_requests-keeps :
    (net : Net) (app : Text) (cached : CachedRules) (qs : List Request) (cache : Cache)
    → lookup app cache ≡ some cached
    → All (InTime app cached.fetched_at) qs
    → lookup app (after_requests net qs cache) ≡ some cached
unfolding after_requests evaluate_access
after_requests-keeps net app cached [] cache held in_time = held
after_requests-keeps net app cached (q ∷ qs) cache held (first, rest) =
    after_requests-keeps net app cached qs _
      (get_rules-keeps q.since q.now app q.app q.listed cached cache held first) rest

-- Once the cache of an application is invalidated the next request is judged by the rules that the
-- database lists then, and so is a later one within five minutes of it, whatever the database holds and
-- whatever requests come in between, of this application within the five minutes and of others at any
-- time, where the requests come one after another and no rule is changed.
pub evaluate_access-fresh :
    (net : Net) (since now since' now' : ℕ) (app client_ip client_ip' : Text) (rules : List IpRule)
    (listed' : Option (List IpRule)) (between : List Request) (cache : Cache)
    → All (InTime app now) between
    → since' - now < 5 * minute
    → ((evaluate_access net since now app client_ip (some rules) (invalidate_cache app cache)).0
        ≡ evaluate_rules net client_ip rules)
      × ((evaluate_access net since' now' app client_ip' listed' (
            after_requests net between
              (evaluate_access net since now app client_ip
                (some rules)
                (invalidate_cache app cache)).1)).0
          ≡ evaluate_rules net client_ip' rules)
unfolding evaluate_access invalidate_cache
evaluate_access-fresh net since now since' now' app client_ip client_ip' rules listed' between cache
      in_time recent =
    let cached : CachedRules = record { rules = rules; fetched_at = now } in
    let gone : lookup app (erase app cache) ≡ none =
      ground (arith, lookup-erase app app cache, text_eq_refl app) in
    let held : lookup app (insert app cached (erase app cache)) ≡ some cached =
      ground (arith, lookup-insert app app cached (erase app cache), text_eq_refl app) in
    let miss = get_rules-miss since now app rules (erase app cache) gone in
    let kept =
      after_requests-keeps net app cached between
        (get_rules since now app (some rules) (erase app cache)).1
        (ap (λ x. lookup app x.1) miss ∙ held) in_time in
    (
      ap (λ x. evaluate_rules net client_ip x.0) miss,
      ap (λ x. evaluate_rules net client_ip' x.0)
          (get_rules-hit since' now' app listed' cached _ kept recent),
    )
