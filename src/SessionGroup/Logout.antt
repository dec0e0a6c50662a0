-- ===== src/SessionGroup/Logout.antt =====
-- A logout reaches the other applications of the group.
use mathlib.Core.Path.{subst}
use mathlib.Core.List.{append_cancel_left}
use graaa_golang_auth_api.Common.{
  ℕ, ◌≡◌, refl, ◌≢◌, ◌∙◌, ap, inl, inr, Bool, true, false, Option, none, some, List, [], ◌∷◌, ◌++◌,
  Text, codes, text_eq, text_eq_iff, All, Some, arith, Bool-cases,
}
use graaa_golang_auth_api.Redis.Interface.{Reply, ok, nil, failed, str, Redis, IsRedis}
use graaa_golang_auth_api.Redis.Keys.{
  app_key, nth, NoColon, apps_eq, session_key, user_sessions_key, all_sessions_key,
  blacklist_user_key,
}
use graaa_golang_auth_api.Redis.Sessions.{
  live_sessions, indexed_sessions, get_user_session_ids, delete_sessions, rebuild_index,
  delete_all_user_sessions,
}
use graaa_golang_auth_api.Redis.Tokens.{blacklist_all_user_tokens}
use graaa_golang_auth_api.Jwt.{Claims, Jwt, TokenConfig, parse_token}
use graaa_golang_auth_api.Session.{revoke_all_user_sessions}
use graaa_golang_auth_api.SessionGroup.{
  SessionGroup, Directory, revoke_found, revoke_in_apps, revoke_all_user_sessions_in_group,
}
use graaa_golang_auth_api.Middleware.Auth.{authenticated, auth_middleware, token_of_header}
use graaa_golang_auth_api.Middleware.Auth.Decision.{Cleared, auth_middleware_sound}

-- Keys of two apps, that differ in their kinds from the third character on.
kinds_apart :
    (a b : Text) (k i l j : Text)
    → NoColon a
    → NoColon b
    → nth 0 (k ++ i) ≢ nth 0 (l ++ j)
    → app_key a (b':' ∷ k) i ≢ app_key b (b':' ∷ l) j
kinds_apart a b k i l j p q ne h =
    let (_, tails) =
      apps_eq a b (k ++ i) (l ++ j) p q
        (append_cancel_left (codes "app:") (a ++ (b':' ∷ (k ++ i))) (b ++ (b':' ∷ (l ++ j))) h) in
    ne (ap (nth 0) tails)

module _ (a b u s : Text) (p : NoColon a) (q : NoColon b) where
  session_apart : session_key b s ≢ blacklist_user_key a u
  unfolding session_key blacklist_user_key
  session_apart =
      kinds_apart b a (codes "session:") s (codes "blacklist_user:") u q p (λ e. omega (arith, e))

  user_sessions_apart : user_sessions_key b s ≢ blacklist_user_key a u
  unfolding user_sessions_key blacklist_user_key
  user_sessions_apart =
      kinds_apart b a (codes "user_sessions:") s (codes "blacklist_user:") u q p
        (λ e. omega (arith, e))

  all_sessions_apart : all_sessions_key b ≢ blacklist_user_key a u
  unfolding all_sessions_key blacklist_user_key
  all_sessions_apart =
      kinds_apart b a (codes "all_sessions") [] (codes "blacklist_user:") u q p
        (λ e. omega (arith, e))

module _ (r : Redis) (laws : IsRedis r) (app key : Text)
    (index : (s : Text) → user_sessions_key app s ≢ key) (all : all_sessions_key app ≢ key)
    (sessions : (s : Text) → session_key app s ≢ key) where
  live_sessions-keeps :
      (user : Text) (sids : List Text) (d : r.Db)
      → r.entry (live_sessions r app (user_sessions_key app user) sids d).1 key ≡ r.entry d key
  unfolding live_sessions
  live_sessions-keeps user [] d = refl
  live_sessions-keeps user (sid ∷ sids) d =
      let removed = (r.srem (user_sessions_key app user) sid d).1 in
      ground (
        arith,
        live_sessions-keeps user sids d,
        live_sessions-keeps user sids removed,
        laws.srem_other (user_sessions_key app user) sid d key (index user),
      )

  delete_sessions-keeps :
      (except : Text) (sids : List Text) (d : r.Db)
      → r.entry (delete_sessions r app except sids d) key ≡ r.entry d key
  unfolding delete_sessions
  delete_sessions-keeps except [] d = refl
  delete_sessions-keeps except (sid ∷ sids) d = elim (Bool-cases (text_eq sid except)) [
    | inl kept ↦ rw kept (delete_sessions-keeps except sids d)
    | inr gone ↦
        let deleted = (r.del (session_key app sid) d).1 in
        let removed = (r.srem (all_sessions_key app) sid deleted).1 in
        rw gone (
          delete_sessions-keeps except sids removed
          ∙ laws.srem_other (all_sessions_key app) sid deleted key all
          ∙ laws.del_other (session_key app sid) d key (sessions sid))
  ]

  listed_keeps :
      (user : Text) (d : r.Db) (o : Reply (List Text))
      → r.smembers (user_sessions_key app user) d ≡ o
      → r.entry (delete_all_user_sessions r app user [] d).1 key ≡ r.entry d key
  unfolding delete_all_user_sessions get_user_session_ids indexed_sessions rebuild_index
  listed_keeps user d nil e = rw e refl
  listed_keeps user d failed e = rw e refl
  listed_keeps user d (ok sids) e =
      let (valid, d') = live_sessions r app (user_sessions_key app user) sids d in
      rw e (
        laws.del_other (user_sessions_key app user) _ key (index user)
        ∙ delete_sessions-keeps [] valid d'
        ∙ live_sessions-keeps user sids d)

  delete_all_user_sessions-keeps :
      (user : Text) (d : r.Db)
      → r.entry (delete_all_user_sessions r app user [] d).1 key ≡ r.entry d key
  delete_all_user_sessions-keeps user d =
      listed_keeps user d (r.smembers (user_sessions_key app user) d) refl

module _ (r : Redis) (laws : IsRedis r) (j : Jwt) (cfg : TokenConfig) (dir : Directory)
    (answers : (k v : Text) (ttl : ℕ) (d : r.Db) → (r.put k v ttl d).0 ≡ ok tt) where
  open r use {Db}

  -- The tokens of the user in the app are blacklisted.
  abbrev Locked : Text → Text → Db → Type 0
  Locked app user d =
      r.entry d (blacklist_user_key app user) ≡ some (str (codes "all_tokens_revoked"))

  revoked_locks :
      (app user : Text) (d : Db) → Locked app user (revoke_all_user_sessions r j cfg app user d).1
  unfolding revoke_all_user_sessions blacklist_all_user_tokens
  revoked_locks app user d = laws.put_ok _ _ _ _ (answers _ _ _ _)

  revoked_keeps :
      (a u b v : Text) (d : Db)
      → NoColon a
      → NoColon b
      → Locked a u d
      → Locked a u (revoke_all_user_sessions r j cfg b v d).1
  unfolding revoke_all_user_sessions blacklist_all_user_tokens
  revoked_keeps a u b v d p q held =
      let d' = (delete_all_user_sessions r b v [] d).1 in
      elim (Bool-cases (text_eq (blacklist_user_key b v) (blacklist_user_key a u))) [
        | inl equal ↦
            let same = (text_eq_iff (blacklist_user_key b v) (blacklist_user_key a u)).0 equal in
            rw (← same) (laws.put_ok _ _ _ d' (answers _ _ _ _))
        | inr differs ↦
            laws.put_other (blacklist_user_key b v) _ _ d' (blacklist_user_key a u) (λ e.
              ground (
                arith,
                (text_eq_iff (blacklist_user_key b v) (blacklist_user_key a u)).1 e,
                differs,
              ))
            ∙ delete_all_user_sessions-keeps r laws b (blacklist_user_key a u)
                (λ s. user_sessions_apart a b u s p q) (all_sessions_apart a b u [] p q)
                (λ s. session_apart a b u s p q) v d
            ∙ held
      ]

  found_keeps :
      (a u b : Text) (o : Option Text) (d : Db)
      → NoColon a
      → NoColon b
      → Locked a u d
      → Locked a u (revoke_found r j cfg dir b o d)
  found_keeps a u b none d p q held = held
  found_keeps a u b (some v) d p q held = revoked_keeps a u b v d p q held

  apps_keep :
      (app email a u : Text) (apps : List Text) (d : Db)
      → NoColon a
      → All NoColon apps
      → Locked a u d
      → Locked a u (revoke_in_apps r j cfg dir app email apps d)
  unfolding revoke_in_apps
  apps_keep app email a u [] d p q held = held
  apps_keep app email a u (b ∷ bs) d p (q, qs) held = elim (Bool-cases (text_eq b app)) [
    | inl own ↦ rw own (apps_keep app email a u bs d p qs held)
    | inr other ↦ rw other (
        apps_keep app email a u bs _ p qs
          (found_keeps a u b (dir.user_by_email b email) d p q held))
  ]

  apps_lock :
      (app email a u : Text) (apps : List Text) (d : Db)
      → NoColon a
      → All NoColon apps
      → Some (λ b. b ≡ a) apps
      → text_eq a app ≡ false
      → dir.user_by_email a email ≡ some u
      → Locked a u (revoke_in_apps r j cfg dir app email apps d)
  unfolding revoke_in_apps
  apps_lock app email a u [] d p q there other found = elim there [ ]
  apps_lock app email a u (b ∷ bs) d p (q, qs) (inl here) other found =
      rw (here, other, found) (apps_keep app email a u bs _ p qs (revoked_locks a u d))
  apps_lock app email a u (b ∷ bs) d p (q, qs) (inr there) other found =
      apps_lock app email a u bs _ p qs there other found

  -- After RevokeAllUserSessionsInGroup for an app whose group has global logout, AuthMiddleware lets no
  -- token through of the user with the same e-mail address in any other app of the group, at any later
  -- time at which the server holds what was left, where Redis answers every SET and the identifiers of
  -- the apps have no colon.
  pub revoke_all_user_sessions_in_group-rejects :
      (app email other user : Text) (group : SessionGroup) (apps : List Text) (d : Db)
      (available : Bool) (header : Text) (later : ℕ) (c c' : Claims)
      → dir.get_session_group_for_app app ≡ some group
      → group.global_logout ≡ true
      → dir.get_apps_in_session_group group.id ≡ some apps
      → All NoColon apps
      → NoColon other
      → Some (λ b. b ≡ other) apps
      → text_eq other app ≡ false
      → dir.user_by_email other email ≡ some user
      → parse_token j later (token_of_header header) ≡ some c
      → c.app_id ≡ other
      → c.user_id ≡ user
      → auth_middleware r j available header later
          (revoke_all_user_sessions_in_group r j cfg dir app email d)
        ≢ authenticated c'
  unfolding revoke_all_user_sessions_in_group
  revoke_all_user_sessions_in_group-rejects app email other user group apps d available header later
        c c' grouped global_ listed plain own_plain member other_app found parsed of_app of_user
        passed =
      let d' = revoke_in_apps r j cfg dir app email apps d in
      let locked = apps_lock app email other user apps d own_plain plain member other_app found in
      let left : revoke_all_user_sessions_in_group r j cfg dir app email d ≡ d' =
        ground (arith, grouped, global_, listed) in
      let accepted =
        auth_middleware_sound r laws j available header later d' c' (rw left at passed) in
      let same : c' ≡ c = cc (parsed, accepted.parsed) in
      let free =
        (subst (λ x. Cleared r (token_of_header header) x d') same accepted.cleared).user_free in
      cc (rw (of_app, of_user) at free, locked)
