-- ===== src/Middleware/Auth/Decision.antt =====
-- What a request has shown when AuthMiddleware lets it through, and what keeps it out.
use mathlib.Core.Path.{subst}
use graaa_golang_auth_api.Common.{
  ap, ℕ, ◌≡◌, ◌≢◌, ◌⊎◌, inl, inr, Bool, true, false, Option, none, some, Text, text_eq_iff,
  is_empty, arith, Bool-cases,
}
use graaa_golang_auth_api.Redis.Interface.{ok, str, Redis, IsRedis}
use graaa_golang_auth_api.Redis.Keys.{session_key, blacklist_token_key, blacklist_user_key}
use graaa_golang_auth_api.Redis.Sessions.Revocation.{session_exists-Gone}
use graaa_golang_auth_api.Redis.Tokens.{
  is_access_token_blacklisted, is_user_tokens_blacklisted, found,
}
use graaa_golang_auth_api.Jwt.{Claims, Jwt, parse_token, type_access}
use graaa_golang_auth_api.Middleware.Auth.{
  authenticated, check_session, check_server, check_token, auth_middleware, token_of_header,
}

module _ (r : Redis) (laws : IsRedis r) where
  found_absent : (key : Text) (d : r.Db) → found (r.get key d) ≡ ok false → r.entry d key ≡ none
  found_absent key d h = laws.get_nil key d (ground arith)

  found_present :
      (key v : Text) (d : r.Db) → r.entry d key ≡ some (str v) → found (r.get key d) ≢ ok false
  found_present key v d h = ground (arith, laws.get_present key v d h)

-- What the server shows of a request that is let through.
pub record Cleared (r : Redis) (token : Text) (c : Claims) (d : r.Db) : Type 0 where
  pub token_free : r.entry d (blacklist_token_key c.app_id token) ≡ none
  pub user_free : r.entry d (blacklist_user_key c.app_id c.user_id) ≡ none
  pub session_live :
      (is_empty c.session_id ≡ true) ⊎ (r.entry d (session_key c.app_id c.session_id) ≢ none)

module _ (r : Redis) (laws : IsRedis r) (token : Text) (c c' : Claims) (d : r.Db) where
  check_session_sound :
      check_session r c d ≡ authenticated c'
      → (c ≡ c')
        × ((is_empty c.session_id ≡ true) ⊎ (r.entry d (session_key c.app_id c.session_id) ≢ none))
  unfolding check_session
  check_session_sound h = elim (Bool-cases (is_empty c.session_id)) [
    | inl legacy ↦ (ground arith, inl legacy)
    | inr named ↦ (
      ground arith,
      inr (λ gone. session_exists-Gone r laws c.app_id c.session_id d gone (ground arith)),
    )
  ]

  check_server_sound : check_server r token c d ≡ authenticated c' → (c ≡ c') × Cleared r token c d
  unfolding check_server is_access_token_blacklisted is_user_tokens_blacklisted
  check_server_sound h =
      let token_free : found (r.get (blacklist_token_key c.app_id token) d) ≡ ok false =
        ground arith in
      let user_free : found (r.get (blacklist_user_key c.app_id c.user_id) d) ≡ ok false =
        ground arith in
      let (same, live) = check_session_sound (ground arith) in
      (
        same,
        record {
          token_free = found_absent r laws (blacklist_token_key c.app_id token) d token_free;
          user_free = found_absent r laws (blacklist_user_key c.app_id c.user_id) d user_free;
          session_live = live;
        },
      )

-- What AuthMiddleware has established of a request that it lets through.
pub record Accepted (r : Redis) (j : Jwt) (header : Text) (now : ℕ) (d : r.Db) (c : Claims)
    : Type 0 where
  pub parsed : parse_token j now (token_of_header header) ≡ some c
  pub is_access : (is_empty c.token_type ≡ true) ⊎ (c.token_type ≡ type_access)
  pub cleared : Cleared r (token_of_header header) c d

module _ (r : Redis) (laws : IsRedis r) where
  check_token_sound :
      (available : Bool) (token : Text) (o : Option Claims) (c : Claims) (d : r.Db)
      → check_token r available token o d ≡ authenticated c
      → (o ≡ some c)
        × ((is_empty c.token_type ≡ true) ⊎ (c.token_type ≡ type_access))
        × Cleared r token c d
  unfolding check_token
  check_token_sound available token none c d h = cc
  check_token_sound available token (some c') c d h =
      let served : check_server r token c' d ≡ authenticated c = ground arith in
      let (same, cleared) = check_server_sound r laws token c' c d served in
      let kind : (is_empty c'.token_type ≡ true) ⊎ (c'.token_type ≡ type_access) =
        ground (arith, text_eq_iff c'.token_type type_access) in
      (
        ap some same,
        subst (λ x. (is_empty x.token_type ≡ true) ⊎ (x.token_type ≡ type_access)) same kind,
        subst (λ x. Cleared r token x d) same cleared,
      )

  -- A request that is let through carries a valid access token (or one with no type) that is not
  -- blacklisted, of a user who is not, and of a session that exists if it names one.
  pub auth_middleware_sound :
      (j : Jwt) (available : Bool) (header : Text) (now : ℕ) (d : r.Db) (c : Claims)
      → auth_middleware r j available header now d ≡ authenticated c
      → Accepted r j header now d c
  unfolding auth_middleware
  auth_middleware_sound j available header now d c h =
      let token = token_of_header header in
      let (parsed, kind, cleared) =
        check_token_sound available token (parse_token j now token) c d (ground arith) in
      record { parsed = parsed; is_access = kind; cleared = cleared }
