-- ===== src/Oidc/ConsentToken.antt =====
-- internal/oidc/handler.go: the signed token that carries an authorization request through the login
-- and consent forms. The HMAC under JWT_SECRET in base64url, and the query encoding of package
-- net/url, are parameters.
use graaa_golang_auth_api.Common.{
  ℕ, ◌+◌, ◌*◌, ◌/◌, ◌≡◌, refl, ◌≢◌, ap, true, Option, none, some, [], ◌∷◌, ◌++◌, Text, text_eq,
  text_eq_iff, All, ltb, ◌==◌, if◌then◌else◌, arith,
}
use graaa_golang_auth_api.Redis.Sessions.{second, minute}

pub record AuthorizeRequest : Type 0 where
  pub client_id : Text
  pub redirect_uri : Text
  pub scope : Text
  pub state : Text
  pub nonce : Text
  pub code_challenge : Text
  pub code_challenge_method : Text

-- `write` encodes the app, the request, a random text and the expiry in seconds; `read` gives back the
-- request and the expiry, where there is one.
pub record Codec : Type 0 where
  pub sign : Text → Text
  pub write : Text → AuthorizeRequest → Text → ℕ → Text
  pub read : Text → Option (AuthorizeRequest × Option ℕ)

-- strings.LastIndex(token, "."), as the texts before and after it.
abbrev last_dot_step : ℕ → Text → Option (Text × Text) → Option (Text × Text)
last_dot_step c s (some (p, q)) = some (c ∷ p, q)
last_dot_step c s none = if c == b'.' then some ([], s) else none

unfoldable pub split_last_dot : Text → Option (Text × Text)
split_last_dot [] = none
split_last_dot (c ∷ s) = last_dot_step c s (split_last_dot s)

module _ (k : Codec) where
  abbrev pub signed : Text → Text
  signed payload = payload ++ (b'.' ∷ k.sign payload)

  unfoldable pub build_consent_token : Text → AuthorizeRequest → Text → ℕ → Text
  build_consent_token app req random now =
      signed (k.write app req random ((now + 10 * minute) / second))

  -- A token without an expiry does not expire.
  abbrev unexpired : ℕ → Option (AuthorizeRequest × Option ℕ) → Option AuthorizeRequest
  unexpired now none = none
  unexpired now (some (req, none)) = some req
  unexpired now (some (req, some exp)) = if ltb exp (now / second) then none else some req

  abbrev verified : ℕ → Option (Text × Text) → Option AuthorizeRequest
  verified now none = none
  verified now (some (payload, sig)) =
      if text_eq sig (k.sign payload) then unexpired now (k.read payload) else none

  unfoldable pub parse_consent_token : Text → ℕ → Option AuthorizeRequest
  parse_consent_token token now = verified now (split_last_dot token)

-- The signature is base64url, so it has no dot, and a query reads back.
pub record IsCodec (k : Codec) : Type 0 where
  pub sign_no_dot : (payload : Text) → All (λ c. c ≢ b'.') (k.sign payload)
  pub read_write :
      (app : Text) (req : AuthorizeRequest) (random : Text) (exp : ℕ)
      → k.read (k.write app req random exp) ≡ some (req, some exp)

split_last_dot_sound :
    (token p s : Text) → split_last_dot token ≡ some (p, s) → token ≡ p ++ (b'.' ∷ s)
unfolding split_last_dot
split_last_dot_sound [] p s h = cc
split_last_dot_sound (c ∷ t) p s h = last_dot c t p s (split_last_dot t) (split_last_dot_sound t) h
  where
    last_dot :
        (c : ℕ) (t p s : Text) (o : Option (Text × Text))
        → ((p s : Text) → o ≡ some (p, s) → t ≡ p ++ (b'.' ∷ s))
        → last_dot_step c t o ≡ some (p, s)
        → c ∷ t ≡ p ++ (b'.' ∷ s)
    last_dot c t p s (some (q, r)) whole h =
        let first : c ∷ q ≡ p = cc (h) in
        let rest : r ≡ s = cc (h) in rw (← first, ← rest) (ap (λ x. c ∷ x) (whole q r refl))
    last_dot c t p s none whole h = ground (arith, h)

-- A token that is accepted is a payload with its signature, that reads as the request.
pub parse_consent_token_sound :
    (k : Codec) (token : Text) (now : ℕ) (req : AuthorizeRequest)
    → parse_consent_token k token now ≡ some req
    → (payload : Text) × (exp : Option ℕ) × (token ≡ payload ++ (b'.' ∷ k.sign payload))
      × (k.read payload ≡ some (req, exp))
unfolding parse_consent_token
parse_consent_token_sound k token now req h = parts (split_last_dot token) refl h
  where
    parts :
        (o : Option (Text × Text))
        → split_last_dot token ≡ o
        → verified k now o ≡ some req
        → (payload : Text) × (exp : Option ℕ) × (token ≡ payload ++ (b'.' ∷ k.sign payload))
          × (k.read payload ≡ some (req, exp))
    parts none e v = cc
    parts (some (payload, sig)) e v =
        let genuine : text_eq sig (k.sign payload) ≡ true = ground arith in
        let same = (text_eq_iff sig (k.sign payload)).0 genuine in
        let (exp, held) = read_back (k.read payload) refl (ground (arith, genuine, v)) in
        (payload, exp, rw (← same) (split_last_dot_sound token payload sig e), held)
      where
        read_back :
            (r : Option (AuthorizeRequest × Option ℕ))
            → k.read payload ≡ r
            → unexpired k now r ≡ some req
            → (exp : Option ℕ) × (k.read payload ≡ some (req, exp))
        read_back none e u = cc
        read_back (some (q, none)) e u = (none, ground (arith, e, u))
        read_back (some (q, some exp)) e u = (some exp, ground (arith, e, u))
