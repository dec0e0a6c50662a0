-- ===== src/Redis/Tokens.antt =====
-- Token functions of internal/redis/redis.go: blacklists, refresh tokens, magic links, email
-- verification tokens, and the key of the session metadata.
pub mod MagicLink
pub mod MetaKey
use graaa_golang_auth_api.Common.{
  ℕ, ◌*◌, ◌≡◌, refl, Bool, true, false, not, Option, none, some, List, [], ◌∷◌, ◌++◌, Text, codes,
  text_eq, is_empty, if◌then◌else◌, split, has_prefix,
}
use graaa_golang_auth_api.Redis.Interface.{Reply, ok, nil, failed, Redis}
use graaa_golang_auth_api.Redis.Exec.{Exec, pure, read, attempt, ◌>>=◌, ◌>>◌}
use graaa_golang_auth_api.Redis.Keys.{app_key, blacklist_token_key, blacklist_user_key}

unfoldable pub refresh_token_key : Text → Text → Text
refresh_token_key app user = app_key app (codes ":refresh_token:") user

unfoldable pub magic_link_key : Text → Text → Text
magic_link_key app token = app_key app (codes ":magic_link:") token

unfoldable pub magic_link_user_key : Text → Text → Text
magic_link_user_key app user = app_key app (codes ":magic_link_user:") user

-- `err == redis.Nil` means that the key is not there; any other error is passed on.
abbrev pub found : Reply Text → Reply Bool
found (ok v) = ok true
found nil = ok false
found failed = failed

abbrev pub superseded : Text → Reply Text → Reply Bool
superseded token (ok v) = ok (not (text_eq v token))
superseded token nil = ok true
superseded token failed = failed

module _ (r : Redis) where
  open r use {Db}

  unfoldable pub blacklist_access_token : Text → Text → Text → ℕ → Exec Db (Unit {0})
  blacklist_access_token app token user ttl = r.put (blacklist_token_key app token) user ttl

  unfoldable pub is_access_token_blacklisted : Text → Text → Exec Db Bool
  is_access_token_blacklisted app token =
      read (λ d. found (r.get (blacklist_token_key app token) d))

  unfoldable pub blacklist_all_user_tokens : Text → Text → ℕ → Exec Db (Unit {0})
  blacklist_all_user_tokens app user ttl =
      r.put (blacklist_user_key app user) (codes "all_tokens_revoked") ttl

  unfoldable pub is_user_tokens_blacklisted : Text → Text → Exec Db Bool
  is_user_tokens_blacklisted app user = read (λ d. found (r.get (blacklist_user_key app user) d))

  unfoldable pub clear_user_token_blacklist : Text → Text → Exec Db (Unit {0})
  clear_user_token_blacklist app user = r.del (blacklist_user_key app user)

  -- The time to live is REFRESH_TOKEN_EXPIRATION_HOURS.
  unfoldable pub set_refresh_token : Text → Text → Text → ℕ → Exec Db (Unit {0})
  set_refresh_token app user token ttl = r.put (refresh_token_key app user) token ttl

  unfoldable pub get_refresh_token : Text → Text → Exec Db Text
  get_refresh_token app user = read (r.get (refresh_token_key app user))

  unfoldable pub revoke_refresh_token : Text → Text → Text → Exec Db (Unit {0})
  revoke_refresh_token app user token d = elim (r.get (refresh_token_key app user) d) [
    | nil ↦ (ok tt, d)
    | failed ↦ (failed, d)
    | ok val ↦ if text_eq val token then r.del (refresh_token_key app user) d else (ok tt, d)
  ]

  unfoldable pub is_refresh_token_revoked : Text → Text → Text → Exec Db Bool
  is_refresh_token_revoked app user token =
      read (λ d. superseded token (r.get (refresh_token_key app user) d))

  -- SetMagicLinkToken drops the user's old link, as far as it can be read, before it stores one.
  unfoldable pub drop_old_link : Text → Text → Db → Db
  drop_old_link app user d = elim (r.get (magic_link_user_key app user) d) [
    | nil ↦ d
    | failed ↦ d
    | ok old ↦ if is_empty old then d else (r.del (magic_link_key app old) d).1
  ]

  unfoldable pub store_link : Text → Text → Text → ℕ → Exec Db (Unit {0})
  store_link app user token ttl = do
    r.put (magic_link_key app token) user ttl
    r.put (magic_link_user_key app user) token ttl

  unfoldable pub set_magic_link_token : Text → Text → Text → ℕ → Exec Db (Unit {0})
  set_magic_link_token app user token ttl d =
      store_link app user token ttl (drop_old_link app user d)

  unfoldable pub get_magic_link_token : Text → Text → Exec Db Text
  get_magic_link_token app token = read (r.get (magic_link_key app token))

  -- DeleteMagicLinkToken: the reverse key is removed where the link still names its user.
  unfoldable pub drop_reverse_link : Text → Text → Db → Db
  drop_reverse_link app token d = elim (r.get (magic_link_key app token) d) [
    | nil ↦ d
    | failed ↦ d
    | ok user ↦ if is_empty user then d else (r.del (magic_link_user_key app user) d).1
  ]

  unfoldable pub delete_magic_link_token : Text → Text → Exec Db (Unit {0})
  delete_magic_link_token app token d =
      r.del (magic_link_key app token) (drop_reverse_link app token d)

-- The three parts of a session_meta key, or an error.
abbrev pub three_parts : List Text → Option (Text × Text × Text)
three_parts (app ∷ user ∷ sid ∷ []) = some (app, user, sid)
three_parts _ = none

abbrev pub drop_text : Text → Text → Text
drop_text [] s = s
drop_text (c ∷ p) [] = []
drop_text (c ∷ p) (d ∷ s) = drop_text p s

unfoldable pub parse_session_meta_key : Text → Option (Text × Text × Text)
unfolding has_prefix split
parse_session_meta_key key =
    if has_prefix key (codes "session_meta:")
    then three_parts (split b':' (drop_text (codes "session_meta:") key))
    else none
