-- ===== src/Oidc/Clients/Admission.antt =====
-- Which clients may ask for a code, and which authenticate at the token endpoint.
use mathlib.Core.Path.{subst}
use graaa_golang_auth_api.Common.{
  ◌≡◌, refl, ◌↔◌, ◌⊎◌, true, false, not, some, List, [], ◌∷◌, Text, codes, text_eq_iff, is_empty,
  any, All, arith, Some, split, trim_space, text_eq, Bool-cases, inl, inr, ◌≢◌, ap, length,
  split_step, trim, trim_left, is_space,
}
use graaa_golang_auth_api.Database.{served, first_where}
use graaa_golang_auth_api.Database.Laws.{first-ok}
use graaa_golang_auth_api.Flow.{accept, guard}
use graaa_golang_auth_api.Flow.Laws.{guard-accept, obtain-accept}
use graaa_golang_auth_api.Oidc.{
  OidcClient, Tables, Library, contains_scope, slice_contains, is_redirect_uri_allowed,
  unknown_client, database_error,
}
use graaa_golang_auth_api.Oidc.Clients.{
  has_client_id, get_client_by_client_id, validate_client_credentials, validate_auth_request,
}

-- A name of a list separated by commas, blanks around it aside.
abbrev pub Lists : Text → Text → Type 0
Lists csv name = Some (λ piece. trim_space piece ≡ name) (split b',' csv)

any-Some :
    (name : Text) (pieces : List Text)
    → any (λ s. text_eq (trim_space s) name) pieces ≡ true
    → Some (λ piece. trim_space piece ≡ name) pieces
any-Some name [] h = absurd (cc h)
any-Some name (s ∷ ss) h = elim (Bool-cases (text_eq (trim_space s) name)) [
  | inl here ↦ inl ((text_eq_iff (trim_space s) name).0 here)
  | inr there ↦ inr (any-Some name ss (ground (arith, h, there)))
]

contains_scope-Lists : (csv name : Text) → contains_scope csv name ≡ true → Lists csv name
unfolding contains_scope
contains_scope-Lists csv name h = any-Some name (split b',' csv) h

-- What the request of an active, registered client keeps to.
pub record Admissible (t : Tables) (client_id redirect_uri response_type : Text)
    (scopes : List Text) (code_challenge : Text) (c : OidcClient) : Type 0 where
  pub registered : first_where (has_client_id client_id) t.clients ≡ some c
  pub active : c.is_active ≡ true
  pub asks_code : response_type ≡ codes "code"
  pub own_uri : is_redirect_uri_allowed c.redirect_uris redirect_uri ≡ true
  pub openid_allowed : Lists c.allowed_scopes (codes "openid")
  pub openid_asked : slice_contains scopes (codes "openid") ≡ true
  pub scopes_allowed : All (λ s. Lists c.allowed_scopes s) scopes
  pub challenged : (c.is_confidential ≡ true) ⊎ (is_empty code_challenge ≡ false)

none_refused :
    (allowed : Text) (scopes : List Text)
    → not (any (λ s. not (contains_scope allowed s)) scopes) ≡ true
    → All (λ s. Lists allowed s) scopes
none_refused allowed [] h = tt
none_refused allowed (s ∷ ss) h =
    (contains_scope-Lists allowed s (ground arith), none_refused allowed ss (ground arith))

none_refused_of_all :
    (allowed : Text) (scopes : List Text)
    → All (λ s. contains_scope allowed s ≡ true) scopes
    → any (λ s. not (contains_scope allowed s)) scopes ≡ false
none_refused_of_all allowed [] h = refl
none_refused_of_all allowed (s ∷ ss) (h, hs) =
    let rest = none_refused_of_all allowed ss hs in ground (arith, h)

module _ (client_id redirect_uri response_type : Text) (scopes : List Text) (code_challenge : Text)
    (t : Tables) (c : OidcClient) where
  -- Where the database answers, ValidateAuthRequest accepts only requests of a registered, active client
  -- that ask for a code, with a redirect URI of the client, the scope openid and only scopes that stand
  -- in the client's list, which commas separate, and with a code challenge where the client is public.
  pub validate_auth_request_sound :
      (validate_auth_request served client_id redirect_uri response_type scopes code_challenge t).0
        ≡ accept c
      → Admissible t client_id redirect_uri response_type scopes code_challenge c
  unfolding validate_auth_request
  validate_auth_request_sound h =
      let (x, found, h0) =
        obtain-accept (get_client_by_client_id served client_id) unknown_client database_error _ t c
          h in
      let (active, h1) = guard-accept _ _ _ t c h0 in
      let (asks, h2) = guard-accept _ _ _ t c h1 in
      let (uri, h3) = guard-accept _ _ _ t c h2 in
      let (openid, h4) = guard-accept _ _ _ t c h3 in
      let (scoped, h5) = guard-accept _ _ _ t c h4 in
      let (challenged, h6) = guard-accept _ _ _ t c h5 in
      let same : x ≡ c = ground arith in
      subst (λ y. Admissible t client_id redirect_uri response_type scopes code_challenge y) same
        (record {
          registered =
              first-ok served (has_client_id client_id) t.clients x
                (unfold get_client_by_client_id in found);
          active = active;
          asks_code = (text_eq_iff response_type (codes "code")).0 asks;
          own_uri = uri;
          openid_allowed = contains_scope-Lists _ _ (ground (arith, openid));
          openid_asked = ground (arith, openid);
          scopes_allowed = none_refused x.allowed_scopes scopes scoped;
          challenged = ground (arith, challenged);
        })

  -- A confidential client that is set to require a code challenge gets through with any code challenge,
  -- also with none, where the rest of its request is in order: the flag is not looked at.
  pub validate_auth_request-pkce_required :
      first_where (has_client_id client_id) t.clients ≡ some c
      → c.is_active ≡ true
      → c.is_confidential ≡ true
      → c.pkce_required ≡ true
      → response_type ≡ codes "code"
      → is_redirect_uri_allowed c.redirect_uris redirect_uri ≡ true
      → contains_scope c.allowed_scopes (codes "openid") ≡ true
      → slice_contains scopes (codes "openid") ≡ true
      → All (λ s. contains_scope c.allowed_scopes s ≡ true) scopes
      → (validate_auth_request served client_id redirect_uri response_type scopes code_challenge
          t).0
        ≡ accept c
  unfolding validate_auth_request get_client_by_client_id guard
  validate_auth_request-pkce_required registered active confidential required asks_code own_uri
        openid_allowed openid_asked scopes_allowed =
      let refused = none_refused_of_all c.allowed_scopes scopes scopes_allowed in
      let asks = (text_eq_iff response_type (codes "code")).1 asks_code in
      rw registered (
        rw active (
          rw asks (
            rw own_uri
              (rw openid_allowed (rw openid_asked (rw refused (ground (arith, confidential))))))))

blanks-Lists : Lists (codes "openid profile email") (codes "openid") → ⊥
unfolding split split_step trim_space trim trim_left is_space
blanks-Lists (inl e) = omega (arith, ap length e)
blanks-Lists (inr e) = elim e [ ]

-- A client with the scopes that the model has by default, which blanks separate, has every request
-- refused: the whole text is read as one scope.
pub validate_auth_request-default_scopes :
    (client_id redirect_uri response_type : Text) (scopes : List Text) (code_challenge : Text)
    (t : Tables) (c c' : OidcClient)
    → first_where (has_client_id client_id) t.clients ≡ some c
    → c.allowed_scopes ≡ codes "openid profile email"
    → (validate_auth_request served client_id redirect_uri response_type scopes code_challenge t).0
      ≢ accept c'
validate_auth_request-default_scopes client_id redirect_uri response_type scopes code_challenge t c
      c' registered default h =
    let a =
      validate_auth_request_sound client_id redirect_uri response_type scopes code_challenge t c'
        h in
    let same : some c' ≡ some c = cc (a.registered, registered) in
    let blanks : c'.allowed_scopes ≡ codes "openid profile email" = cc (same, default) in
    blanks-Lists (subst (λ csv. Lists csv (codes "openid")) blanks a.openid_allowed)

-- A client that may use the token endpoint: a confidential one has shown its secret.
pub record Authenticated (lib : Library) (t : Tables) (client_id secret : Text) (c : OidcClient)
    : Type 0 where
  pub given : is_empty client_id ≡ false
  pub registered : first_where (has_client_id client_id) t.clients ≡ some c
  pub active : c.is_active ≡ true
  pub secret_shown :
      (c.is_confidential ≡ false)
      ⊎ ((is_empty secret ≡ false) × (lib.matches_hash c.client_secret_hash secret ≡ true))

module _ (lib : Library) (client_id secret : Text) (t : Tables) (c : OidcClient) where
  shown :
      (validate_client_credentials lib served client_id secret t).0 ≡ accept c
      → Authenticated lib t client_id secret c
  unfolding validate_client_credentials
  shown h =
      let (given, h0) = guard-accept _ _ _ t c h in
      let (x, found, h1) =
        obtain-accept (get_client_by_client_id served client_id) unknown_client unknown_client _ _ c
          h0 in
      let (active, h2) = guard-accept _ _ _ _ c h1 in
      let (nonempty, h3) = guard-accept _ _ _ _ c h2 in
      let (matches, h4) = guard-accept _ _ _ _ c h3 in
      let same : x ≡ c = ground arith in
      subst (λ y. Authenticated lib t client_id secret y) same
        (record {
          given = ground (arith, given);
          registered =
              first-ok served (has_client_id client_id) t.clients x
                (unfold get_client_by_client_id in found);
          active = active;
          secret_shown = ground (arith, nonempty, matches);
        })

  shows :
      Authenticated lib t client_id secret c
      → (validate_client_credentials lib served client_id secret t).0 ≡ accept c
  unfolding validate_client_credentials get_client_by_client_id guard
  shows a = rw a.given (rw a.registered (rw a.active (ground (arith, a.secret_shown))))

  -- Where the database answers, validateClientCredentials accepts just the registered, active clients
  -- of the identifier, a confidential one only with a secret that bcrypt matches with its hash.
  pub validate_client_credentials_iff :
      ((validate_client_credentials lib served client_id secret t).0 ≡ accept c)
      ↔ Authenticated lib t client_id secret c
  validate_client_credentials_iff = (shown, shows)
