-- ===== src/Session/Rotation.antt =====
-- RefreshSession: who is refreshed, and that the old refresh token is good for one use.
use graaa_golang_auth_api.Common.{
  ℕ, ◌<◌, ◌≡◌, refl, ◌≢◌, ◌∙◌, ap, ◌⊎◌, true, false, Option, none, some, [], ◌∷◌, Text, codes,
  text_eq, text_eq_iff, is_empty, lookup, arith,
}
use graaa_golang_auth_api.Redis.Interface.{Reply, ok, nil, failed, field, Redis, IsRedis}
use graaa_golang_auth_api.Redis.Keys.{session_key}
use graaa_golang_auth_api.Redis.Sessions.{
  get_session_refresh_token, update_session_refresh_token, reset_session_ttl, touch_session,
}
use graaa_golang_auth_api.Jwt.{
  Claims, Jwt, IsJwt, TokenConfig, parse_token, type_refresh, effective_ttl, generate_access_token,
  generate_refresh_token,
}
use graaa_golang_auth_api.Session.{
  success, Issued, guard, session_revoked, refresh_token_revoked, check_claims, rotate,
  refresh_session, or_error_reply, after,
}

module _ (r : Redis) (j : Jwt) (cfg : TokenConfig) (old : Text) (c : Claims) (d : r.Db) where
  -- What the claims of a refresh token have shown when they pass.
  pub record Renewable : Type 0 where
    pub is_refresh : (is_empty c.token_type ≡ true) ⊎ (c.token_type ≡ type_refresh)
    pub named : is_empty c.session_id ≡ false
    pub stored : r.hget (session_key c.app_id c.session_id) (codes "refresh_token") d ≡ ok old

  stored_matches :
      (x : Reply Text)
      → (after
          (or_error_reply x session_revoked)
          (λ s. guard (text_eq s old) refresh_token_revoked)
          d).0
        ≡ success tt
      → x ≡ ok old
  stored_matches (ok v) h = ap ok ((text_eq_iff v old).0 (ground arith))
  stored_matches nil h = cc
  stored_matches failed h = cc

  check_claims_sound : (check_claims r j cfg old c d).0 ≡ success tt → Renewable
  unfolding check_claims get_session_refresh_token
  check_claims_sound h = record {
    is_refresh = ground (arith, text_eq_iff c.token_type type_refresh);
    named = ground arith;
    stored = stored_matches _ (ground arith);
  }

  check_claims-state : (check_claims r j cfg old c d).1 ≡ d
  unfolding check_claims get_session_refresh_token
  check_claims-state = ground arith

module _ (r : Redis) (laws : IsRedis r) (j : Jwt) (cfg : TokenConfig) (c : Claims)
    (access_ttl refresh_ttl now : ℕ) (stamp : Text) (d : r.Db)
    (pos : 0 < effective_ttl refresh_ttl cfg.default_refresh_ttl) where
  abbrev key : Text
  key = session_key c.app_id c.session_id

  abbrev renewed : Text → r.Db
  renewed refresh =
      (r.hset key ((codes "last_active", stamp) ∷ [])
        (r.expire key (effective_ttl refresh_ttl cfg.default_refresh_ttl)
          (r.hset key ((codes "refresh_token", refresh) ∷ []) d).1).1).1

  field-renewed :
      (refresh : Text)
      → (r.hset key ((codes "refresh_token", refresh) ∷ []) d).0 ≡ ok tt
      → field (codes "refresh_token") (r.entry (renewed refresh) key) ≡ some refresh
  unfolding lookup text_eq
  field-renewed refresh stored =
      laws.hset_field_other key (codes "refresh_token") ((codes "last_active", stamp) ∷ []) _ refl
      ∙ rw
          (laws.expire_keeps key _ (r.hset key ((codes "refresh_token", refresh) ∷ []) d).1 key pos)
          (laws.hset_ok key (codes "refresh_token") refresh ((codes "refresh_token", refresh) ∷ [])
            d stored refl)

  -- A rotation that succeeds leaves the new refresh token in the session.
  field-rotate :
      (o p : Option Text) (issued : Issued)
      → generate_access_token j cfg c.app_id c.user_id c.session_id c.roles access_ttl now ≡ o
      → generate_refresh_token j cfg c.app_id c.user_id c.session_id c.roles refresh_ttl now ≡ p
      → (rotate r j cfg c access_ttl refresh_ttl now stamp d).0 ≡ success issued
      → field
          (codes "refresh_token")
          (r.entry (rotate r j cfg c access_ttl refresh_ttl now stamp d).1 key)
        ≡ some issued.refresh_token
  unfolding rotate update_session_refresh_token reset_session_ttl touch_session
  field-rotate none p issued e f h = absurd (ground arith)
  field-rotate (some access) none issued e f h = absurd (ground arith)
  field-rotate (some access) (some refresh) issued e f h =
      let stored : (r.hset key ((codes "refresh_token", refresh) ∷ []) d).0 ≡ ok tt =
        ground arith in
      let same : refresh ≡ issued.refresh_token = ground arith in
      rw (e, rotate) (rw f (rw stored (field-renewed refresh stored ∙ ap some same)))

module _ (r : Redis) (laws : IsRedis r) (j : Jwt) (cfg : TokenConfig) (old : Text) where
  -- A session whose stored token is another one does not accept `old`.
  check_claims-fails :
      (c : Claims) (d : r.Db) (new : Text)
      → field (codes "refresh_token") (r.entry d (session_key c.app_id c.session_id)) ≡ some new
      → new ≢ old
      → (check_claims r j cfg old c d).0 ≢ success tt
  check_claims-fails c d new held ne h = ne (
      cc (
        laws.hget_ok (session_key c.app_id c.session_id) (codes "refresh_token") old d
            ((check_claims_sound r j cfg old c d h).stored),
        held,
      ))

  -- Inversion of a refresh that succeeds.
  refresh_session_parts :
      (o : Option Claims) (access_ttl refresh_ttl now : ℕ) (stamp : Text) (d : r.Db)
      (issued : Issued)
      → parse_token j now old ≡ o
      → (refresh_session r j cfg old access_ttl refresh_ttl now stamp d).0 ≡ success issued
      → (c : Claims) × (o ≡ some c)
        × ((check_claims r j cfg old c d).0 ≡ success tt)
        × (refresh_session r j cfg old access_ttl refresh_ttl now stamp d
            ≡ rotate r j cfg c access_ttl refresh_ttl now stamp d)
  unfolding refresh_session
  refresh_session_parts none access_ttl refresh_ttl now stamp d issued e h = absurd (ground arith)
  refresh_session_parts (some c) access_ttl refresh_ttl now stamp d issued e h =
      let checked : (check_claims r j cfg old c d).0 ≡ success tt = ground arith in
      (
        c,
        refl,
        checked,
        rw (e, refresh_session) (rw checked (rw (check_claims-state r j cfg old c d) refl)),
      )

  -- Only a token of a session is refreshed that verifies, is a refresh token (or has no type), and
  -- is the one that the session holds.
  pub refresh_session_sound :
      (access_ttl refresh_ttl now : ℕ) (stamp : Text) (d : r.Db) (issued : Issued)
      → (refresh_session r j cfg old access_ttl refresh_ttl now stamp d).0 ≡ success issued
      → (c : Claims) × (parse_token j now old ≡ some c)
        × ((is_empty c.token_type ≡ true) ⊎ (c.token_type ≡ type_refresh))
        × (is_empty c.session_id ≡ false)
        × (field (codes "refresh_token") (r.entry d (session_key c.app_id c.session_id)) ≡ some old)
  refresh_session_sound access_ttl refresh_ttl now stamp d issued h =
      let (c, parsed, checked, _) =
        refresh_session_parts (parse_token j now old) access_ttl refresh_ttl now stamp d issued refl
          h in
      let renewable = check_claims_sound r j cfg old c d checked in
      (
        c,
        parsed,
        renewable.is_refresh,
        renewable.named,
        laws.hget_ok (session_key c.app_id c.session_id) (codes "refresh_token") old d
            renewable.stored,
      )

  -- A refresh token is good for one use: once RefreshSession has succeeded with it and issued
  -- another token, it does not succeed with it again on what the first call left.
  pub refresh_session-once :
      (signed : IsJwt j) (access_ttl refresh_ttl now later : ℕ) (stamp : Text)
      (access_ttl' refresh_ttl' : ℕ) (stamp' : Text) (d : r.Db) (issued again : Issued)
      → 0 < effective_ttl refresh_ttl cfg.default_refresh_ttl
      → (refresh_session r j cfg old access_ttl refresh_ttl now stamp d).0 ≡ success issued
      → issued.refresh_token ≢ old
      → (refresh_session r j cfg old access_ttl' refresh_ttl' later stamp'
          (refresh_session r j cfg old access_ttl refresh_ttl now stamp d).1).0
        ≢ success again
  refresh_session-once signed access_ttl refresh_ttl now later stamp access_ttl' refresh_ttl' stamp'
        d issued again pos h ne h' =
      let (c, parsed, checked, rotated) =
        refresh_session_parts (parse_token j now old) access_ttl refresh_ttl now stamp d issued refl
          h in
      let d' = (refresh_session r j cfg old access_ttl refresh_ttl now stamp d).1 in
      let (c', parsed', checked', _) =
        refresh_session_parts (parse_token j later old) access_ttl' refresh_ttl' later stamp' d'
          again refl h' in
      let same : c ≡ c' =
        signed.verify_agrees old now later c c' (unfold parse_token in parsed)
          (unfold parse_token in parsed') in
      let held =
        field-rotate r laws j cfg c access_ttl refresh_ttl now stamp d pos
          (generate_access_token j cfg c.app_id c.user_id c.session_id c.roles access_ttl now)
          (generate_refresh_token j cfg c.app_id c.user_id c.session_id c.roles refresh_ttl now)
          issued refl refl (rw rotated at h) in
      check_claims-fails c d' issued.refresh_token (rw rotated held) ne (rw (← same) at checked')
