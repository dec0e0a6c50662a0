-- ===== src/Redis/Keys.antt =====
-- The keys that internal/redis/redis.go builds by `fmt.Sprintf`, and that they differ.
use mathlib.Core.List.{append_cancel_left}
use graaa_golang_auth_api.Common.{ℕ, zero, suc, ◌≡◌, ◌≢◌, ap, ◌++◌, [], ◌∷◌, Text, codes, arith}

-- "app:" + appID + kind + id
abbrev pub app_key : Text → Text → Text → Text
app_key app kind id = codes "app:" ++ (app ++ (kind ++ id))

unfoldable pub session_key : Text → Text → Text
session_key app sid = app_key app (codes ":session:") sid

unfoldable pub user_sessions_key : Text → Text → Text
user_sessions_key app user = app_key app (codes ":user_sessions:") user

unfoldable pub all_sessions_key : Text → Text
all_sessions_key app = app_key app (codes ":all_sessions") []

unfoldable pub blacklist_token_key : Text → Text → Text
blacklist_token_key app token = app_key app (codes ":blacklist_token:") token

unfoldable pub blacklist_user_key : Text → Text → Text
blacklist_user_key app user = app_key app (codes ":blacklist_user:") user

unfoldable pub failed_login_key : Text → Text → Text
failed_login_key app identifier = app_key app (codes ":failed_login:") identifier

unfoldable pub lockout_tier_key : Text → Text → Text
lockout_tier_key app email = app_key app (codes ":lockout_tier:") email

unfoldable pub delay_tier_key : Text → Text → Text
delay_tier_key app identifier = app_key app (codes ":delay_tier:") identifier

unfoldable pub session_meta_key : Text → Text → Text → Text
session_meta_key app user sid =
    codes "session_meta:" ++ (app ++ (codes ":" ++ (user ++ (codes ":" ++ sid))))

-- The character at an index, to tell two texts apart.
abbrev pub nth : ℕ → Text → ℕ
nth i [] = 0
nth zero (c ∷ s) = c
nth (suc i) (c ∷ s) = nth i s

-- Keys of one app are equal just where their kinds and identifiers run together.
pub app_key-tail : (app k i l j : Text) → app_key app k i ≡ app_key app l j → k ++ i ≡ l ++ j
app_key-tail app k i l j h =
    append_cancel_left app (k ++ i) (l ++ j)
      (append_cancel_left (codes "app:") (app ++ (k ++ i)) (app ++ (l ++ j)) h)

pub session-ne-user_sessions : (a s u : Text) → user_sessions_key a u ≢ session_key a s
unfolding session_key user_sessions_key
session-ne-user_sessions a s u h =
    omega (arith, ap (nth 1) (app_key-tail a (codes ":user_sessions:") u (codes ":session:") s h))

pub session-ne-all_sessions : (a s : Text) → all_sessions_key a ≢ session_key a s
unfolding session_key all_sessions_key
session-ne-all_sessions a s h =
    omega (arith, ap (nth 1) (app_key-tail a (codes ":all_sessions") [] (codes ":session:") s h))

pub session-ne-blacklist_user : (a s u : Text) → blacklist_user_key a u ≢ session_key a s
unfolding session_key blacklist_user_key
session-ne-blacklist_user a s u h =
    omega (arith, ap (nth 1) (app_key-tail a (codes ":blacklist_user:") u (codes ":session:") s h))

pub session-ne-blacklist_token : (a s t : Text) → blacklist_token_key a t ≢ session_key a s
unfolding session_key blacklist_token_key
session-ne-blacklist_token a s t h =
    omega (arith, ap (nth 1) (app_key-tail a (codes ":blacklist_token:") t (codes ":session:") s h))

pub session-ne-meta : (a b u s t : Text) → session_meta_key b u t ≢ session_key a s
unfolding session_key session_meta_key
session-ne-meta a b u s t h = omega (arith, ap (nth 0) h)

pub blacklist_user-ne-session : (a s u : Text) → session_key a s ≢ blacklist_user_key a u
unfolding session_key blacklist_user_key
blacklist_user-ne-session a s u h =
    omega (arith, ap (nth 1) (app_key-tail a (codes ":session:") s (codes ":blacklist_user:") u h))

pub blacklist_user-ne-user_sessions :
    (a s u : Text) → user_sessions_key a s ≢ blacklist_user_key a u
unfolding user_sessions_key blacklist_user_key
blacklist_user-ne-user_sessions a s u h =
    omega (
      arith,
      ap (nth 1) (app_key-tail a (codes ":user_sessions:") s (codes ":blacklist_user:") u h),
    )

pub blacklist_user-ne-all_sessions : (a u : Text) → all_sessions_key a ≢ blacklist_user_key a u
unfolding all_sessions_key blacklist_user_key
blacklist_user-ne-all_sessions a u h =
    omega
      (arith, ap (nth 1) (app_key-tail a (codes ":all_sessions") [] (codes ":blacklist_user:") u h))

pub blacklist_user-ne-meta : (a b u s t : Text) → session_meta_key b u t ≢ blacklist_user_key a s
unfolding blacklist_user_key session_meta_key
blacklist_user-ne-meta a b u s t h = omega (arith, ap (nth 0) h)

pub blacklist_token-ne-session : (a s t : Text) → session_key a s ≢ blacklist_token_key a t
unfolding session_key blacklist_token_key
blacklist_token-ne-session a s t h =
    omega (arith, ap (nth 1) (app_key-tail a (codes ":session:") s (codes ":blacklist_token:") t h))

pub blacklist_token-ne-user_sessions :
    (a u t : Text) → user_sessions_key a u ≢ blacklist_token_key a t
unfolding user_sessions_key blacklist_token_key
blacklist_token-ne-user_sessions a u t h =
    omega (
      arith,
      ap (nth 1) (app_key-tail a (codes ":user_sessions:") u (codes ":blacklist_token:") t h),
    )

pub blacklist_token-ne-all_sessions : (a t : Text) → all_sessions_key a ≢ blacklist_token_key a t
unfolding all_sessions_key blacklist_token_key
blacklist_token-ne-all_sessions a t h =
    omega (
      arith,
      ap (nth 1) (app_key-tail a (codes ":all_sessions") [] (codes ":blacklist_token:") t h),
    )

pub blacklist_token-ne-meta : (a b u s t : Text) → session_meta_key b u s ≢ blacklist_token_key a t
unfolding blacklist_token_key session_meta_key
blacklist_token-ne-meta a b u s t h = omega (arith, ap (nth 0) h)

pub blacklist_token-ne-blacklist_user :
    (a u t : Text) → blacklist_user_key a u ≢ blacklist_token_key a t
unfolding blacklist_token_key blacklist_user_key
blacklist_token-ne-blacklist_user a u t h = omega (
  arith,
  ap (nth 11) (app_key-tail a (codes ":blacklist_user:") u (codes ":blacklist_token:") t h),
)

-- Two sessions of one app have two keys.
pub session_key-injective : (a s t : Text) → session_key a s ≡ session_key a t → s ≡ t
unfolding session_key
session_key-injective a s t h =
    append_cancel_left (codes ":session:") s t
      (app_key-tail a (codes ":session:") s (codes ":session:") t h)

pub user_sessions-ne-session : (a s u : Text) → session_key a s ≢ user_sessions_key a u
unfolding session_key user_sessions_key
user_sessions-ne-session a s u h =
    omega (arith, ap (nth 1) (app_key-tail a (codes ":session:") s (codes ":user_sessions:") u h))

-- An app's identifier, as a UUID, has no colon.
abbrev pub NoColon : Text → Type 0
NoColon [] = Unit
NoColon (c ∷ s) = (c ≢ b':') × NoColon s

pub apps_eq :
    (a b x y : Text) → NoColon a → NoColon b → a ++ (b':' ∷ x) ≡ b ++ (b':' ∷ y) → (a ≡ b) × (x ≡ y)
apps_eq [] [] x y p q h = (cc, cc)
apps_eq [] (d ∷ b) x y p q h = absurd (q.0 (cc))
apps_eq (c ∷ a) [] x y p q h = absurd (p.0 (cc))
apps_eq (c ∷ a) (d ∷ b) x y p q h = let (same, rest) = apps_eq a b x y p.1 q.1 (cc) in (cc, rest)

-- Where the identifiers of apps have no colon, a session key belongs to one app and one session: two
-- equal keys have equal apps and equal sessions.
pub session_keys_apart :
    (a b s t : Text) → NoColon a → NoColon b → session_key a s ≡ session_key b t → (a ≡ b) × (s ≡ t)
unfolding session_key
session_keys_apart a b s t p q h =
    let tails =
      append_cancel_left (codes "app:") (a ++ (codes ":session:" ++ s))
        (b ++ (codes ":session:" ++ t)) h in
    let (same, rest) = apps_eq a b (codes "session:" ++ s) (codes "session:" ++ t) p q tails in
    (same, append_cancel_left (codes "session:") s t rest)
