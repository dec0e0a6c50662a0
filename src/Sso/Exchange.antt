-- ===== src/Sso/Exchange.antt =====
-- What an exchange that succeeds has checked, and that a token is exchanged once.
use graaa_golang_auth_api.Common.{
  ◌<◌, ◌≡◌, refl, ◌≢◌, ◌∙◌, ap, Bool, true, false, Option, none, some, List, Text, arith,
}
use graaa_golang_auth_api.Redis.Interface.{Reply, ok, Entry, Redis, IsRedis}
use graaa_golang_auth_api.Redis.Keys.{
  nth, session_key, user_sessions_key, all_sessions_key, session_meta_key, blacklist_user_key,
}
use graaa_golang_auth_api.Redis.Sessions as Sessions
use graaa_golang_auth_api.Redis.Sessions.Lifecycle.{create_session-Keeps, Apart}
use graaa_golang_auth_api.Redis.Slots.Handover.{sso_token_key, get_sso_token, delete_sso_token}
use graaa_golang_auth_api.Redis.Tokens.{clear_user_token_blacklist}
use graaa_golang_auth_api.Flow.{accept, reject, Flow, guard, ◌>>=◌, ◌>>◌}
use graaa_golang_auth_api.Flow.Laws.{guard-accept, obtain-accept}
use graaa_golang_auth_api.Jwt.{
  Jwt, TokenConfig, effective_ttl, generate_access_token, generate_refresh_token,
}
use graaa_golang_auth_api.Session as Session
use graaa_golang_auth_api.Session.{Issued}
use graaa_golang_auth_api.Sso.{
  invalid_token, group_failed, no_source_user, no_target_user, other_group, deactivated, TargetUser,
  SsoDirectory, given, in_group, Client, open_session, admit, exchange,
}

module _ {E S A B : Type 0} where
  given-accept :
      (o : Option A) (e : E) (k : A → Flow E S B) (s : S) (b : B)
      → ((given o e >>= k) s).0 ≡ accept b
      → (a : A) × (o ≡ some a) × ((k a s).0 ≡ accept b)
  unfolding given
  given-accept none e k s b h = cc
  given-accept (some a) e k s b h = (a, refl, h)

-- The token's user has, by e-mail, an active account in an application of the token's group.
pub record IsAdmitted (dir : SsoDirectory) (group user target : Text) : Type 0 where
  pub apps : List Text
  pub email : Text
  pub peer : TargetUser
  pub of_group : dir.get_apps_in_session_group group ≡ some apps
  pub has_target : in_group apps target ≡ true
  pub of_user : dir.email_of_user user ≡ some email
  pub of_target : dir.user_by_email target email ≡ some peer
  pub active : peer.is_active ≡ true

module _ {E S : Type 0} (X : Type 0) (view : S → X) where
  -- The view of the state that a flow leaves as it is.
  abbrev Same : {A : Type 0} → Flow E S A → Type 0
  Same m = (s : S) → view (m s).1 ≡ view s

  after_given :
      {A B : Type 0} (o : Option A) (e : E) (k : A → Flow E S B)
      → ((a : A) → Same (k a))
      → Same (given o e >>= k)
  unfolding given
  after_given none e k q s = refl
  after_given (some a) e k q s = q a s

  after_guard : {B : Type 0} (b : Bool) (e : E) (k : Flow E S B) → Same k → Same (guard b e >> k)
  unfolding guard
  after_guard true e k q s = q s
  after_guard false e k q s = refl

module _ (r : Redis) (laws : IsRedis r) (dir : SsoDirectory) (j : Jwt) (cfg : TokenConfig) where
  admit_sound :
      (target group source user : Text) (client : Client) (d : r.Db) (issued : Issued)
      → (admit r dir j cfg target (group, source, user) client d).0 ≡ accept issued
      → IsAdmitted dir group user target
  unfolding admit
  admit_sound target group source user client d issued h =
      let (apps, of_group, h1) =
        given-accept (dir.get_apps_in_session_group group) group_failed _ d issued h in
      let (inside, h2) = guard-accept _ _ _ d issued h1 in
      let (email, of_user, h3) =
        given-accept (dir.email_of_user user) no_source_user _ d issued h2 in
      let (peer, of_target, h4) =
        given-accept (dir.user_by_email target email) no_target_user _ d issued h3 in
      let (active, _) = guard-accept _ _ _ d issued h4 in
      record {
        apps = apps;
        email = email;
        peer = peer;
        of_group = of_group;
        has_target = inside;
        of_user = of_user;
        of_target = of_target;
        active = active;
      }

  -- Where Exchange issues tokens, the server held the token, the target is an application of the token's
  -- group, and the token's user has an active account there with the same e-mail.
  pub exchange_sound :
      (target token : Text) (client : Client) (d : r.Db) (issued : Issued)
      → (exchange r dir j cfg target token client d).0 ≡ accept issued
      → (group source user : Text) × ((get_sso_token r token d).0 ≡ ok (group, source, user))
        × IsAdmitted dir group user target
  unfolding exchange
  exchange_sound target token client d issued h =
      let ((group, source, user), held, rest) =
        obtain-accept (λ d. (get_sso_token r token d).0) invalid_token invalid_token _ d issued h in
      (
        group,
        source,
        user,
        held,
        admit_sound target group source user client (delete_sso_token r token d).1 issued rest,
      )

  -- No key that a new session writes is the key of an SSO token.
  sso-Apart : (app user sid token : Text) → Apart app user sid (sso_token_key token)
  unfolding user_sessions_key all_sessions_key session_meta_key
  sso-Apart app user sid token = record {
    user_index = λ h. omega (arith, ap (nth 0) h);
    app_index = λ h. omega (arith, ap (nth 0) h);
    meta = λ h. omega (arith, ap (nth 1) h);
  }

  session-ne-sso : (app sid token : Text) → session_key app sid ≢ sso_token_key token
  unfolding session_key
  session-ne-sso app sid token h = omega (arith, ap (nth 0) h)

  blacklist-ne-sso : (app user token : Text) → blacklist_user_key app user ≢ sso_token_key token
  unfolding blacklist_user_key
  blacklist-ne-sso app user token h = omega (arith, ap (nth 0) h)

  module _ (target token : Text) (client : Client) where
    abbrev held_at : r.Db → Option Entry
    held_at d = r.entry d (sso_token_key token)

    abbrev stored : Text → Text → r.Db → Reply (Unit {0}) × r.Db
    stored user refresh =
        Sessions.create_session r target client.fresh user refresh client.ip client.user_agent
          client.stamp (effective_ttl (dir.refresh_ttl target) cfg.default_refresh_ttl)

    open_session-Same :
        (user : Text)
        → 0 < effective_ttl (dir.refresh_ttl target) cfg.default_refresh_ttl
        → Same (Option Entry) held_at (open_session r dir j cfg target user client)
    unfolding open_session Session.create_session clear_user_token_blacklist
    open_session-Same user pos d = issued _ _ refl refl
      where
        kept : (refresh : Text) → held_at (stored user refresh d).1 ≡ held_at d
        kept refresh =
            (create_session-Keeps r laws target client.fresh user refresh client.ip
                client.user_agent client.stamp _ pos (session-ne-sso target client.fresh token)
                (sso-Apart target user client.fresh token)).at
              d

        cleared : (d' : r.Db) → held_at (r.del (blacklist_user_key target user) d').1 ≡ held_at d'
        cleared d' =
            laws.del_other (blacklist_user_key target user) d' (sso_token_key token)
              (blacklist-ne-sso target user token)

        issued :
            (o p : Option Text)
            → generate_access_token j cfg target user client.fresh
                (dir.lookup_roles target user)
                (dir.access_ttl target)
                client.now
              ≡ o
            → generate_refresh_token j cfg target user client.fresh
                (dir.lookup_roles target user)
                (dir.refresh_ttl target)
                client.now
              ≡ p
            → held_at (open_session r dir j cfg target user client d).1 ≡ held_at d
        issued none p e f = ground (arith, e)
        issued (some access) none e f = ground (arith, e, f)
        issued (some access) (some refresh) e f =
            ground (arith, e, f, kept refresh, cleared (stored user refresh d).1)

    admit-Same :
        (group source user : Text)
        → 0 < effective_ttl (dir.refresh_ttl target) cfg.default_refresh_ttl
        → Same (Option Entry) held_at (admit r dir j cfg target (group, source, user) client)
    unfolding admit
    admit-Same group source user pos =
        after_given (Option Entry) held_at (dir.get_apps_in_session_group group) group_failed _
          (λ apps. after_guard (Option Entry) held_at (in_group apps target) other_group _ (
            after_given (Option Entry) held_at (dir.email_of_user user) no_source_user _ (λ email.
              after_given (Option Entry) held_at (dir.user_by_email target email) no_target_user _
                (λ peer.
                  after_guard (Option Entry) held_at peer.is_active deactivated _
                    (open_session-Same peer.id pos)))))

    -- A token that Exchange has read is exchanged once: whatever comes of that exchange, a later one of
    -- the token with the state that it leaves is refused as invalid, where the server answered the
    -- deletion of the token and sessions have a positive time to live.
    pub exchange-once :
        (d : r.Db) (group source user other : Text) (later : Client)
        → 0 < effective_ttl (dir.refresh_ttl target) cfg.default_refresh_ttl
        → (get_sso_token r token d).0 ≡ ok (group, source, user)
        → (delete_sso_token r token d).0 ≡ ok tt
        → (exchange r dir j cfg other token later (exchange r dir j cfg target token client d).1).0
          ≡ reject invalid_token
    unfolding exchange get_sso_token delete_sso_token
    exchange-once d group source user other later pos held deleted =
        let d' = (delete_sso_token r token d).1 in
        let gone : held_at (exchange r dir j cfg target token client d).1 ≡ none =
          rw held
            (admit-Same group source user pos d' ∙ laws.del_ok (sso_token_key token) d deleted) in
        ground (arith, laws.get_absent (sso_token_key token) _ gone)
