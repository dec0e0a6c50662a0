-- ===== src/Oidc/Codes/Exchange.antt =====
-- What a request has shown when ExchangeCode succeeds, and how often it can.
use mathlib.Core.Path.{subst}
use graaa_golang_auth_api.Common.{
  ℕ, ◌+◌, ◌≤◌, ◌≡◌, ◌≢◌, ◌∙◌, ◌⊎◌, true, false, some, Text, text_eq_iff, text_eq_refl, is_empty,
  arith,
}
use graaa_golang_auth_api.Database.{Fate, served, first_where}
use graaa_golang_auth_api.Flow.{guard, accept}
use graaa_golang_auth_api.Flow.Laws.{guard-accept, bind-accept, bind-result, obtain-accept}
use graaa_golang_auth_api.Database.Laws.{first-ok}
use graaa_golang_auth_api.Oidc.{
  code_not_found, database_error, OidcAuthCode, User, Tables, Library, verify_pkce,
}
use graaa_golang_auth_api.Oidc.Codes.{
  has_code, has_user_id, create_auth_code, get_auth_code, mark_auth_code_used, get_user_by_id,
  CodeRequest, new_auth_code, code_ttl, issue_auth_code, ExchangeRequest, check_code, redeem,
  exchange_code,
}
use graaa_golang_auth_api.Oidc.Codes.Replay.{
  Distinct, IsDead, Steps, Steps-IsDead, mark-kills, check_code-state, check_code-fails,
  redeem-codes,
}

-- A code that the tables hold for the request, not used, not expired, of the same client and redirect
-- URI, with its challenge met.
pub record Redeemable (lib : Library) (q : ExchangeRequest) (now : ℕ) (t : Tables)
    (ac : OidcAuthCode) : Type 0 where
  pub stored : first_where (has_code q.code) t.auth_codes ≡ some ac
  pub unused : ac.used ≡ false
  pub fresh : now ≤ ac.expires_at
  pub same_client : ac.client_id ≡ q.client_id
  pub same_uri : ac.redirect_uri ≡ q.redirect_uri
  pub challenge_met :
      (is_empty ac.code_challenge ≡ true)
      ⊎ ((is_empty q.code_verifier ≡ false)
          × (verify_pkce lib ac.code_challenge ac.code_challenge_method q.code_verifier ≡ true))

module _ (lib : Library) where
  check_code_sound :
      (load : Fate) (q : ExchangeRequest) (now : ℕ) (t : Tables) (ac : OidcAuthCode)
      → (check_code lib load q now t).0 ≡ accept ac
      → Redeemable lib q now t ac
  unfolding check_code get_auth_code
  check_code_sound load q now t ac h =
      let (x, found, h0) =
        obtain-accept (get_auth_code load q.code) code_not_found database_error _ t ac h in
      let (unused, h1) = guard-accept _ _ _ t ac h0 in
      let (fresh, h2) = guard-accept _ _ _ t ac h1 in
      let (client, h3) = guard-accept _ _ _ t ac h2 in
      let (uri, h4) = guard-accept _ _ _ t ac h3 in
      let (given, h5) = guard-accept _ _ _ t ac h4 in
      let (met, h6) = guard-accept _ _ _ t ac h5 in
      let same : x ≡ ac = ground arith in
      subst (λ y. Redeemable lib q now t y) same
        (record {
          stored = first-ok load (has_code q.code) t.auth_codes x found;
          unused = ground (arith, unused);
          fresh = ground (arith, fresh);
          same_client = (text_eq_iff x.client_id q.client_id).0 client;
          same_uri = (text_eq_iff x.redirect_uri q.redirect_uri).0 uri;
          challenge_met = ground (arith, given, met);
        })

  redeem_parts :
      (save load_user : Fate) (ac ac' : OidcAuthCode) (u : User) (t : Tables)
      → (redeem save load_user ac t).0 ≡ accept (ac', u)
      → (save ≡ served) × (ac ≡ ac') × (first_where (has_user_id ac.user_id) t.users ≡ some u)
  unfolding redeem mark_auth_code_used get_user_by_id
  redeem_parts save load_user ac ac' u t h = ground arith

  redeem-users :
      (save load_user : Fate) (ac : OidcAuthCode) (t t' : Tables)
      → t.users ≡ t'.users
      → (redeem save load_user ac t).0 ≡ (redeem save load_user ac t').0
  unfolding redeem mark_auth_code_used get_user_by_id
  redeem-users save load_user ac t t' same = ground (arith, same)

  redeem-keeps_users :
      (save load_user : Fate) (ac : OidcAuthCode) (t : Tables)
      → (redeem save load_user ac t).1.users ≡ t.users
  unfolding redeem mark_auth_code_used get_user_by_id
  redeem-keeps_users save load_user ac t = ground arith

  -- ExchangeCode succeeds for a code that the tables hold, not used before, not expired, issued to the
  -- client and redirect URI of the request and with its challenge met by the verifier, and gives that
  -- code and the user that it was issued for.
  pub exchange_code_sound :
      (load save load_user : Fate) (q : ExchangeRequest) (now : ℕ) (t : Tables) (ac : OidcAuthCode)
      (u : User)
      → (exchange_code lib load save load_user q now t).0 ≡ accept (ac, u)
      → Redeemable lib q now t ac × (first_where (has_user_id ac.user_id) t.users ≡ some u)
  unfolding exchange_code
  exchange_code_sound load save load_user q now t ac u h =
      let (x, checked, redeemed) = bind-accept (check_code lib load q now) _ t (ac, u) h in
      let (_, same, owner) = redeem_parts save load_user x ac u _ redeemed in
      let state = check_code-state lib load q now t in
      (
        subst (λ y. Redeemable lib q now t y) same (check_code_sound load q now t x checked),
        rw (← same) (rw state at owner),
      )

  exchange_code-kills :
      (load save load_user : Fate) (q : ExchangeRequest) (now : ℕ) (t : Tables)
      (r : OidcAuthCode × User)
      → Distinct t.auth_codes
      → (exchange_code lib load save load_user q now t).0 ≡ accept r
      → IsDead q.code (exchange_code lib load save load_user q now t).1
  unfolding exchange_code
  exchange_code-kills load save load_user q now t r apart h =
      let (x, checked, redeemed) = bind-accept (check_code lib load q now) _ t r h in
      let (answered, _, _) = redeem_parts save load_user x r.0 r.1 _ redeemed in
      let state = check_code-state lib load q now t in
      let found = (check_code_sound load q now t x checked).stored in
      rw (bind-result (check_code lib load q now) (λ ac. redeem save load_user ac) t x checked) (
        rw state (
          rw (redeem-codes lib save load_user x t)
            (rw answered (mark-kills lib q.code x t.auth_codes apart found))))

  -- Once ExchangeCode has succeeded for a code, it does not succeed for that code again, whatever codes
  -- are issued, exchanged, finished or purged in between, as long as that code is not issued again; the
  -- codes of the table differ, by its unique index.
  pub exchange_code-single_use :
      (load save load_user load' save' load_user' : Fate) (q q' : ExchangeRequest) (now later : ℕ)
      (t t' : Tables) (r r' : OidcAuthCode × User)
      → Distinct t.auth_codes
      → (exchange_code lib load save load_user q now t).0 ≡ accept r
      → Steps lib q.code (exchange_code lib load save load_user q now t).1 t'
      → q'.code ≡ q.code
      → (exchange_code lib load' save' load_user' q' later t').0 ≢ accept r'
  unfolding exchange_code
  exchange_code-single_use load save load_user load' save' load_user' q q' now later t t' r r' apart
        h steps same h' =
      let dead = exchange_code-kills load save load_user q now t r apart h in
      let still = Steps-IsDead lib steps dead in
      let (x, checked, _) = bind-accept (check_code lib load' q' later) _ t' r' h' in
      check_code-fails lib load' q' later t' x (rw same still) checked

  -- Two requests for one code, each of which would succeed alone, both succeed where both have read the
  -- code before either marks it: the second, that finishes on what the first has left, still gives its
  -- code and user.
  pub exchange_code-races :
      (load save load_user load' save' load_user' : Fate) (q q' : ExchangeRequest) (now later : ℕ)
      (t : Tables) (r r' : OidcAuthCode × User)
      → (exchange_code lib load save load_user q now t).0 ≡ accept r
      → (exchange_code lib load' save' load_user' q' later t).0 ≡ accept r'
      → (ac : OidcAuthCode) × (ac' : OidcAuthCode) × ((check_code lib load q now t).0 ≡ accept ac)
        × ((check_code lib load' q' later t).0 ≡ accept ac')
        × ((redeem save load_user ac t).0 ≡ accept r)
        × ((redeem save' load_user' ac' (redeem save load_user ac t).1).0 ≡ accept r')
  unfolding exchange_code
  exchange_code-races load save load_user load' save' load_user' q q' now later t r r' h h' =
      let (ac, checked, redeemed) = bind-accept (check_code lib load q now) _ t r h in
      let (ac', checked', redeemed') = bind-accept (check_code lib load' q' later) _ t r' h' in
      let state = check_code-state lib load q now t in
      let state' = check_code-state lib load' q' later t in
      (
        ac,
        ac',
        checked,
        checked',
        rw state at redeemed,
        redeem-users save' load_user' ac' (redeem save load_user ac t).1 t
              (redeem-keeps_users save load_user ac t)
            ∙ (rw state' at redeemed'),
      )

  -- A code that IssueAuthCode has just stored is exchanged for its user: by the client and redirect URI
  -- that it was issued to, before it expires, with the verifier of its challenge, where the database
  -- answers and holds the user.
  pub exchange_code-issued :
      (minutes : ℕ) (id : Text) (q : CodeRequest) (now later : ℕ) (e : ExchangeRequest) (t : Tables)
      (ac : OidcAuthCode) (u : User)
      → (issue_auth_code minutes served id e.code q now t).0 ≡ accept ac
      → later ≤ now + code_ttl minutes
      → q.client_id ≡ e.client_id
      → q.redirect_uri ≡ e.redirect_uri
      → (is_empty q.code_challenge ≡ true)
        ⊎ ((is_empty e.code_verifier ≡ false)
            × (verify_pkce lib q.code_challenge q.code_challenge_method e.code_verifier ≡ true))
      → first_where (has_user_id q.user_id) t.users ≡ some u
      → (exchange_code lib served served served e later
          (issue_auth_code minutes served id e.code q now t).1).0
        ≡ accept (ac, u)
  unfolding issue_auth_code create_auth_code new_auth_code exchange_code check_code get_auth_code
      guard redeem mark_auth_code_used get_user_by_id
  exchange_code-issued minutes id q now later e t ac u issued fresh client uri met owner = ground (
    arith,
    issued,
    fresh,
    client,
    uri,
    met,
    owner,
    text_eq_refl e.code,
    text_eq_refl e.client_id,
    text_eq_refl e.redirect_uri,
  )
