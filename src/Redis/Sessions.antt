-- ===== src/Redis/Sessions.antt =====
-- Session functions of internal/redis/redis.go. Each takes the server `r`; a result is the Go
-- result with its error, beside the server's state. `now` is the formatted clock reading.
pub mod Lifecycle
pub mod Revocation
use graaa_golang_auth_api.Common.{
  ℕ, ◌+◌, ◌*◌, Bool, true, false, List, [], ◌∷◌, Text, codes, text_eq, lookup, text_key, is_empty,
  if◌then◌else◌, ltb,
}
use graaa_golang_auth_api.Redis.Interface.{Reply, ok, nil, failed, Entry, Redis}
use graaa_golang_auth_api.Redis.Exec.{Exec, pure, read, attempt, ◌>>=◌, ◌>>◌}
use graaa_golang_auth_api.Redis.Keys.{
  session_key, user_sessions_key, all_sessions_key, session_meta_key,
}

-- time.Duration counts nanoseconds.
abbrev pub second : ℕ
second = 1000000000

abbrev pub minute : ℕ
minute = 60 * second

abbrev pub hour : ℕ
hour = 60 * minute

-- The fields that CreateSession writes.
abbrev pub session_fields : Text → Text → Text → Text → Text → List (Text × Text)
session_fields user refresh_token ip user_agent now =
    (codes "user_id", user)
    ∷ (codes "refresh_token", refresh_token)
    ∷ (codes "ip", ip)
    ∷ (codes "user_agent", user_agent)
    ∷ (codes "created_at", now)
    ∷ (codes "last_active", now)
    ∷ []

module _ (r : Redis) where
  open r use {Db}

  -- The part of CreateSession whose errors are dropped or only logged.
  unfoldable pub index_session : Text → Text → Text → ℕ → Exec Db (Unit {0})
  index_session app sid user ttl = do
    attempt (r.expire (user_sessions_key app user) (ttl + 24 * hour))
    attempt (r.sadd (all_sessions_key app) sid)
    attempt (r.expire (all_sessions_key app) (ttl + 24 * hour))
    attempt (r.put (session_meta_key app user sid) (codes "1") ttl)

  unfoldable pub create_session :
      Text → Text → Text → Text → Text → Text → Text → ℕ → Exec Db (Unit {0})
  create_session app sid user refresh_token ip user_agent now ttl = do
    r.hset (session_key app sid) (session_fields user refresh_token ip user_agent now)
    r.expire (session_key app sid) ttl
    r.sadd (user_sessions_key app user) sid
    index_session app sid user ttl

  unfoldable pub get_session_refresh_token : Text → Text → Exec Db Text
  get_session_refresh_token app sid = read (r.hget (session_key app sid) (codes "refresh_token"))

  unfoldable pub update_session_refresh_token : Text → Text → Text → Exec Db (Unit {0})
  update_session_refresh_token app sid token =
      r.hset (session_key app sid) ((codes "refresh_token", token) ∷ [])

  unfoldable pub reset_session_ttl : Text → Text → ℕ → Exec Db (Unit {0})
  reset_session_ttl app sid ttl = r.expire (session_key app sid) ttl

  unfoldable pub touch_session : Text → Text → Text → Exec Db (Unit {0})
  touch_session app sid now = r.hset (session_key app sid) ((codes "last_active", now) ∷ [])

  -- The part of DeleteSession whose errors are dropped.
  unfoldable pub unindex_session : Text → Text → Text → Exec Db (Unit {0})
  unindex_session app sid user = do
    attempt (r.srem (user_sessions_key app user) sid)
    attempt (r.srem (all_sessions_key app) sid)
    attempt (r.del (session_meta_key app user sid))

  unfoldable pub delete_session : Text → Text → Text → Exec Db (Unit {0})
  delete_session app sid user = do r.del (session_key app sid); unindex_session app sid user

  unfoldable pub session_exists : Text → Text → Exec Db Bool
  session_exists app sid = do exists ← read (r.exists (session_key app sid)); pure (ltb 0 exists)

  -- The loop of GetUserSessionIDs and GetAppSessionIDs: stale members leave the index.
  unfoldable pub live_sessions : Text → Text → List Text → Db → List Text × Db
  live_sessions app index_key [] d = ([], d)
  live_sessions app index_key (sid ∷ sids) d = elim (r.exists (session_key app sid) d) [
    | nil ↦ live_sessions app index_key sids d
    | failed ↦ live_sessions app index_key sids d
    | ok exists ↦ elim (ltb 0 exists) [
      | false ↦ live_sessions app index_key sids (r.srem index_key sid d).1
      | true ↦ let (rest, d') = live_sessions app index_key sids d in (sid ∷ rest, d')
    ]
  ]

  unfoldable pub indexed_sessions : Text → Text → Exec Db (List Text)
  indexed_sessions app index_key = do
    sids ← read (r.smembers index_key)
    λ d. let (valid, d') = live_sessions app index_key sids d in (ok valid, d')

  unfoldable pub get_user_session_ids : Text → Text → Exec Db (List Text)
  get_user_session_ids app user = indexed_sessions app (user_sessions_key app user)

  unfoldable pub get_app_session_ids : Text → Exec Db (List Text)
  get_app_session_ids app = indexed_sessions app (all_sessions_key app)

  -- The loop of DeleteAllUserSessions, which drops the errors of its commands.
  unfoldable pub delete_sessions : Text → Text → List Text → Db → Db
  delete_sessions app except [] d = d
  delete_sessions app except (sid ∷ sids) d = delete_sessions app except sids (
      if text_eq sid except
      then d
      else (r.srem (all_sessions_key app) sid (r.del (session_key app sid) d).1).1)

  -- The end of DeleteAllUserSessions.
  unfoldable pub rebuild_index : Text → Text → Text → Db → Db
  rebuild_index app user except d =
      if is_empty except
      then (r.del (user_sessions_key app user) d).1
      else (r.sadd (user_sessions_key app user) except (r.del (user_sessions_key app user) d).1).1

  unfoldable pub delete_all_user_sessions : Text → Text → Text → Exec Db (Unit {0})
  delete_all_user_sessions app user except = do
    sids ← get_user_session_ids app user
    λ d. (ok tt, rebuild_index app user except (delete_sessions app except sids d))
