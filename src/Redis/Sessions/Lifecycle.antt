-- ===== src/Redis/Sessions/Lifecycle.antt =====
-- What creating and deleting a session do to the sessions of the server.
use graaa_golang_auth_api.Common.{
  ℕ, ◌<◌, ◌+◌, ◌*◌, ◌≡◌, refl, ◌≢◌, sym, ◌∙◌, none, some, Text, codes, text_eq, lookup, text_key,
  arith,
}
use graaa_golang_auth_api.Redis.Interface.{ok, field, Redis, IsRedis}
use graaa_golang_auth_api.Redis.Keeps.{
  Keeps, Keeps-seq, Keeps-hset, Keeps-expire, Keeps-sadd, Keeps-del, keeps_rules, continue_ok,
}
use graaa_golang_auth_api.Redis.Exec.{Exec, ◌>>◌}
use graaa_golang_auth_api.Redis.Keys.{
  session_key, user_sessions_key, all_sessions_key, session_meta_key, session-ne-user_sessions,
  session-ne-all_sessions, session-ne-meta, session_key-injective, blacklist_user_key,
  blacklist_user-ne-user_sessions, blacklist_user-ne-all_sessions, blacklist_user-ne-meta,
}
use graaa_golang_auth_api.Redis.Sessions.{
  hour, session_fields, index_session, create_session, unindex_session, delete_session,
}

-- The index and the metadata keys of a session are not `j`.
pub record Apart (app user sid j : Text) : Type 0 where
  pub user_index : user_sessions_key app user ≢ j
  pub app_index : all_sessions_key app ≢ j
  pub meta : session_meta_key app user sid ≢ j

pub session-Apart : (app user sid t : Text) → Apart app user sid (session_key app t)
session-Apart app user sid t = record {
  user_index = session-ne-user_sessions app t user;
  app_index = session-ne-all_sessions app t;
  meta = session-ne-meta app app user t sid;
}

pub blacklist-Apart : (app user sid v : Text) → Apart app user sid (blacklist_user_key app v)
blacklist-Apart app user sid v = record {
  user_index = blacklist_user-ne-user_sessions app user v;
  app_index = blacklist_user-ne-all_sessions app v;
  meta = blacklist_user-ne-meta app app user v sid;
}

module _ (r : Redis) (laws : IsRedis r) {j : Text} (app sid user : Text) where
  index_session-Keeps :
      (ttl : ℕ) → 0 < ttl → Apart app user sid j → Keeps r j (index_session r app sid user ttl)
  unfolding index_session
  index_session-Keeps ttl pos apart =
      let later : 0 < ttl + 24 * hour = omega arith in
      search (keeps_rules, laws, apart.app_index, apart.meta, later) depth 9

  unindex_session-Keeps : Apart app user sid j → Keeps r j (unindex_session r app sid user)
  unfolding unindex_session
  unindex_session-Keeps apart =
      search (keeps_rules, laws, apart.user_index, apart.app_index, apart.meta) depth 9

  -- Creating a session changes its own key and its indexes.
  pub create_session-Keeps :
      (token ip user_agent now : Text) (ttl : ℕ)
      → 0 < ttl
      → session_key app sid ≢ j
      → Apart app user sid j
      → Keeps r j (create_session r app sid user token ip user_agent now ttl)
  unfolding create_session
  create_session-Keeps token ip user_agent now ttl pos ne apart =
      Keeps-seq r _ _ (Keeps-hset r laws _ _ ne) (
        Keeps-seq r _ _ (Keeps-expire r laws _ ttl pos) (
          Keeps-seq r _ _ (Keeps-sadd r laws _ _ apart.user_index)
            (index_session-Keeps ttl pos apart)))

  -- Deleting a session changes its own key and its indexes.
  pub delete_session-Keeps :
      session_key app sid ≢ j → Apart app user sid j → Keeps r j (delete_session r app sid user)
  unfolding delete_session
  delete_session-Keeps ne apart =
      Keeps-seq r _ _ (Keeps-del r laws _ ne) (unindex_session-Keeps apart)

-- The entry of a session that was deleted without an error.
pub delete_session_gone :
    (r : Redis) (laws : IsRedis r) (app sid user : Text) (d : r.Db)
    → (delete_session r app sid user d).0 ≡ ok tt
    → r.entry (delete_session r app sid user d).1 (session_key app sid) ≡ none
unfolding delete_session
delete_session_gone r laws app sid user d h =
    let (a, deleted, rest) =
      continue_ok (r.del (session_key app sid) d).0 (λ _. unindex_session r app sid user)
        (r.del (session_key app sid) d).1 h in
    rw rest (
      (unindex_session-Keeps r laws app sid user (session-Apart app user sid sid)).at _
      ∙ laws.del_ok (session_key app sid) d deleted)

-- A session that was deleted without an error is gone, and another session of the app is as before.
pub delete_session_effect :
    (r : Redis) (laws : IsRedis r) (app sid user other : Text) (d : r.Db)
    → (delete_session r app sid user d).0 ≡ ok tt
    → other ≢ sid
    → (r.entry (delete_session r app sid user d).1 (session_key app sid) ≡ none)
      × (r.entry (delete_session r app sid user d).1 (session_key app other)
          ≡ r.entry d (session_key app other))
delete_session_effect r laws app sid user other d h ne = (
  delete_session_gone r laws app sid user d h,
  (delete_session-Keeps r laws app sid user (λ e. ne (sym (session_key-injective app sid other e)))
        (session-Apart app user sid other)).at
      d,
)

module _ (r : Redis) (laws : IsRedis r) (app sid user token ip user_agent now : Text) (ttl : ℕ)
    (pos : 0 < ttl) where
  abbrev create : Exec r.Db (Unit {0})
  create = create_session r app sid user token ip user_agent now ttl

  abbrev after_hset : Exec r.Db (Unit {0})
  after_hset =
      r.expire (session_key app sid) ttl
      >> (r.sadd (user_sessions_key app user) sid >> index_session r app sid user ttl)

  after_hset-Keeps : Keeps r (session_key app sid) after_hset
  after_hset-Keeps =
      let apart = session-Apart app user sid sid in
      Keeps-seq r _ _ (Keeps-expire r laws _ ttl pos) (
        Keeps-seq r _ _ (Keeps-sadd r laws _ _ apart.user_index)
          (index_session-Keeps r laws app sid user ttl pos apart))

  -- A session that was created without an error holds the refresh token that it was given.
  pub create_session_field :
      (d : r.Db)
      → (create d).0 ≡ ok tt
      → field (codes "refresh_token") (r.entry (create d).1 (session_key app sid)) ≡ some token
  unfolding create_session text_eq lookup
  create_session_field d created =
      let fields = session_fields user token ip user_agent now in
      let key = session_key app sid in
      let (a, stored, rest) =
        continue_ok (r.hset key fields d).0 (λ (u : Unit {0}). after_hset) (r.hset key fields d).1
          created in
      rw rest (
        rw (after_hset-Keeps.at (r.hset key fields d).1)
          (laws.hset_ok key (codes "refresh_token") token fields d stored refl))
