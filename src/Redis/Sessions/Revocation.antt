-- ===== src/Redis/Sessions/Revocation.antt =====
-- Revoking all sessions of a user, and what the existence test says of a session.
use graaa_golang_auth_api.Common.{
  ℕ, ◌≡◌, refl, ◌≢◌, sym, ap, ◌∙◌, ◌⊎◌, inl, inr, true, false, none, some, List, [], ◌∷◌, Text,
  text_eq, text_eq_iff, is_empty, arith, ltb, Some, Bool-cases, Option-cases,
}
use graaa_golang_auth_api.Redis.Interface.{ok, failed, Entry, Redis, IsRedis}
use graaa_golang_auth_api.Redis.Keys.{
  session_key, user_sessions_key, all_sessions_key, session-ne-user_sessions,
  session-ne-all_sessions, session_key-injective,
}
use graaa_golang_auth_api.Redis.Sessions.{
  session_exists, live_sessions, indexed_sessions, get_user_session_ids, delete_sessions,
  rebuild_index, delete_all_user_sessions,
}

-- The server answers DEL and EXISTS: no such command is lost.
pub record Answers (r : Redis) : Type 0 where
  pub del_answers : (k : Text) (d : r.Db) → (r.del k d).0 ≡ ok tt
  pub exists_answers : (k : Text) (d : r.Db) → (n : ℕ) × (r.exists k d ≡ ok n)

module _ (r : Redis) (laws : IsRedis r) (app : Text) where
  -- The session has no entry.
  abbrev pub Gone : r.Db → Text → Type 0
  Gone d sid = r.entry d (session_key app sid) ≡ none

  -- The existence test of a session that is gone never says yes.
  pub session_exists-Gone :
      (sid : Text) (d : r.Db) → Gone d sid → (session_exists r app sid d).0 ≢ ok true
  unfolding session_exists
  session_exists-Gone sid d gone h = ground (arith, laws.exists_absent (session_key app sid) d gone)

  -- A session with an entry is found, unless the server is lost.
  pub session_exists_live :
      (sid : Text) (e : Entry) (d : r.Db)
      → r.entry d (session_key app sid) ≡ some e
      → ((session_exists r app sid d).0 ≡ ok true) ⊎ ((session_exists r app sid d).0 ≡ failed)
  unfolding session_exists
  session_exists_live sid e d live =
      ground (arith, laws.exists_present (session_key app sid) e d live)

  Gone-of_zero : (sid : Text) (d : r.Db) → r.exists (session_key app sid) d ≡ ok 0 → Gone d sid
  Gone-of_zero sid d h = elim (Option-cases (r.entry d (session_key app sid))) [
    | inl absent ↦ absent
    | inr (e, present) ↦
        absurd (ground (arith, laws.exists_present (session_key app sid) e d present))
  ]

  Gone-del : (sid x : Text) (d : r.Db) → Gone d sid → Gone (r.del (session_key app x) d).1 sid
  Gone-del sid x d gone = elim (Bool-cases (text_eq x sid)) [
    | inl same ↦
        let e = (text_eq_iff x sid).0 same in
        rw e (laws.del_keeps_none (session_key app sid) d gone)
    | inr other ↦
        laws.del_other (session_key app x) d (session_key app sid)
          (λ e. cc ((text_eq_iff x sid).1 (session_key-injective app x sid e)))
        ∙ gone
  ]

  Gone-srem :
      (sid x : Text) (d : r.Db) → Gone d sid → Gone (r.srem (all_sessions_key app) x d).1 sid
  Gone-srem sid x d gone =
      laws.srem_other (all_sessions_key app) x d (session_key app sid)
        (session-ne-all_sessions app sid)
      ∙ gone

  delete_sessions-Gone :
      (except sid : Text) (sids : List Text) (d : r.Db)
      → Gone d sid
      → Gone (delete_sessions r app except sids d) sid
  unfolding delete_sessions
  delete_sessions-Gone except sid [] d gone = gone
  delete_sessions-Gone except sid (x ∷ sids) d gone =
      delete_sessions-Gone except sid sids _ (elim (Bool-cases (text_eq x except)) [
        | inl kept ↦ rw kept gone
        | inr dropped ↦ rw dropped (Gone-srem sid x _ (Gone-del sid x d gone))
      ])

  delete_sessions-all :
      (up : Answers r) (except sid : Text) (sids : List Text) (d : r.Db)
      → sid ≢ except
      → Some (λ x. sid ≡ x) sids
      → Gone (delete_sessions r app except sids d) sid
  unfolding delete_sessions
  delete_sessions-all up except sid [] d ne h = elim h [ ]
  delete_sessions-all up except sid (x ∷ sids) d ne (inl same) =
      let kept : text_eq x except ≡ false = ground (arith, text_eq_iff x except) in
      rw kept (
        delete_sessions-Gone except sid sids _ (
          Gone-srem sid x _
            (rw same (laws.del_ok (session_key app x) d (up.del_answers (session_key app x) d)))))
  delete_sessions-all up except sid (x ∷ sids) d ne (inr later) =
      delete_sessions-all up except sid sids _ ne later

  -- The cleaning loop changes no session, and skips only those that are gone.
  live_sessions-keeps :
      (user sid : Text) (sids : List Text) (d : r.Db)
      → r.entry (live_sessions r app (user_sessions_key app user) sids d).1 (session_key app sid)
        ≡ r.entry d (session_key app sid)
  unfolding live_sessions
  live_sessions-keeps user sid [] d = refl
  live_sessions-keeps user sid (x ∷ sids) d = ground (
    arith,
    live_sessions-keeps user sid sids d,
    live_sessions-keeps user sid sids (r.srem (user_sessions_key app user) x d).1,
    laws.srem_other (user_sessions_key app user) x d (session_key app sid)
        (session-ne-user_sessions app sid user),
  )

  -- One round of the cleaning loop, for a session that exists and for one that does not.
  live_sessions_found :
      (key x : Text) (sids : List Text) (n : ℕ) (d : r.Db)
      → r.exists (session_key app x) d ≡ ok n
      → ltb 0 n ≡ true
      → (live_sessions r app key (x ∷ sids) d).0 ≡ x ∷ (live_sessions r app key sids d).0
  unfolding live_sessions
  live_sessions_found key x sids n d answered live = ground arith

  live_sessions_stale :
      (key x : Text) (sids : List Text) (n : ℕ) (d : r.Db)
      → r.exists (session_key app x) d ≡ ok n
      → ltb 0 n ≡ false
      → (live_sessions r app key (x ∷ sids) d).0
        ≡ (live_sessions r app key sids (r.srem key x d).1).0
  unfolding live_sessions
  live_sessions_stale key x sids n d answered stale = ground arith

  -- A member of the index is kept by the cleaning loop, or is gone.
  live_sessions-covers :
      (up : Answers r) (user sid : Text) (sids : List Text) (d : r.Db)
      → Some (λ x. sid ≡ x) sids
      → Some (λ x. sid ≡ x) (live_sessions r app (user_sessions_key app user) sids d).0 ⊎ Gone d sid
  live_sessions-covers up user sid [] d h = elim h [ ]
  live_sessions-covers up user sid (x ∷ sids) d (inl same) =
      let (n, answered) = up.exists_answers (session_key app x) d in
      elim (Bool-cases (ltb 0 n)) [
        | inl live ↦ inl (
            rw (live_sessions_found (user_sessions_key app user) x sids n d answered live)
              (inl same))
        | inr stale ↦ inr (rw same (Gone-of_zero x d (answered ∙ ap ok (ground arith))))
      ]
  live_sessions-covers up user sid (x ∷ sids) d (inr later) =
      let (n, answered) = up.exists_answers (session_key app x) d in
      let d' = (r.srem (user_sessions_key app user) x d).1 in
      let same =
        laws.srem_other (user_sessions_key app user) x d (session_key app sid)
          (session-ne-user_sessions app sid user) in
      elim (Bool-cases (ltb 0 n)) [
        | inl live ↦ elim (live_sessions-covers up user sid sids d later) [
          | inl kept ↦ inl (
              rw (live_sessions_found (user_sessions_key app user) x sids n d answered live)
                (inr kept))
          | inr gone ↦ inr gone
        ]
        | inr stale ↦ elim (live_sessions-covers up user sid sids d' later) [
          | inl kept ↦
              inl (
                rw (live_sessions_stale (user_sessions_key app user) x sids n d answered stale)
                  kept)
          | inr gone ↦ inr (sym same ∙ gone)
        ]
      ]

  Gone-rebuild :
      (user except sid : Text) (d : r.Db)
      → Gone d sid
      → Gone (rebuild_index r app user except d) sid
  unfolding rebuild_index
  Gone-rebuild user except sid d gone =
      let key = user_sessions_key app user in
      let ne = session-ne-user_sessions app sid user in
      let cleared = laws.del_other key d (session_key app sid) ne in
      elim (Bool-cases (is_empty except)) [
        | inl all ↦ rw all (cleared ∙ gone)
        | inr but ↦
            rw but
              (laws.sadd_other key except (r.del key d).1 (session_key app sid) ne ∙ cleared ∙ gone)
      ]

-- Once DeleteAllUserSessions returns, every session of the user's index but the excepted one is
-- gone, where the server loses no DEL and no EXISTS.
pub delete_all_user_sessions_effect :
    (r : Redis) (laws : IsRedis r) (up : Answers r) (app user except sid : Text) (sids : List Text)
    (d : r.Db)
    → r.smembers (user_sessions_key app user) d ≡ ok sids
    → Some (λ x. sid ≡ x) sids
    → sid ≢ except
    → r.entry (delete_all_user_sessions r app user except d).1 (session_key app sid) ≡ none
unfolding delete_all_user_sessions get_user_session_ids indexed_sessions
delete_all_user_sessions_effect r laws up app user except sid sids d listed member ne =
    let (valid, d') = live_sessions r app (user_sessions_key app user) sids d in
    rw listed (
      Gone-rebuild r laws app user except sid _
        (elim (live_sessions-covers r laws app up user sid sids d member) [
          | inl kept ↦ delete_sessions-all r laws app up except sid valid d' ne kept
          | inr gone ↦
              delete_sessions-Gone r laws app except sid valid d'
                (live_sessions-keeps r laws app user sid sids d ∙ gone)
        ]))
