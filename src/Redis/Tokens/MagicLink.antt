-- ===== src/Redis/Tokens/MagicLink.antt =====
-- At most one magic link of a user is active, and a link is good for one use.
use mathlib.Core.List.{append_cancel_left}
use graaa_golang_auth_api.Common.{
  ℕ, ◌≡◌, ◌≢◌, ◌⊎◌, ◌∙◌, ap, false, none, Text, codes, arith, is_empty,
}
use graaa_golang_auth_api.Redis.Interface.{ok, failed, Redis, IsRedis}
use graaa_golang_auth_api.Redis.Keeps.{Keeps, Keeps-seq, Keeps-put, continue_ok}
use graaa_golang_auth_api.Redis.Keys.{app_key-tail, nth}
use graaa_golang_auth_api.Redis.Tokens.{
  magic_link_key, magic_link_user_key, drop_old_link, store_link, set_magic_link_token,
  get_magic_link_token, drop_reverse_link, delete_magic_link_token,
}

link-ne-user : (a u t : Text) → magic_link_user_key a u ≢ magic_link_key a t
unfolding magic_link_key magic_link_user_key
link-ne-user a u t h =
    omega
      (arith, ap (nth 11) (app_key-tail a (codes ":magic_link_user:") u (codes ":magic_link:") t h))

link-injective : (a s t : Text) → magic_link_key a s ≡ magic_link_key a t → s ≡ t
unfolding magic_link_key
link-injective a s t h =
    append_cancel_left (codes ":magic_link:") s t
      (app_key-tail a (codes ":magic_link:") s (codes ":magic_link:") t h)

module _ (r : Redis) (laws : IsRedis r) (app user : Text) where
  store_link-Keeps :
      (token other : Text) (ttl : ℕ)
      → token ≢ other
      → Keeps r (magic_link_key app other) (store_link r app user token ttl)
  unfolding store_link
  store_link-Keeps token other ttl ne =
      Keeps-seq r _ _
        (Keeps-put r laws (magic_link_key app token) user ttl
          (λ e. ne (link-injective app token other e)))
        (Keeps-put r laws (magic_link_user_key app user) token ttl (link-ne-user app user other))

  -- Storing a new link of a user removes the user's current one, where the server answers the
  -- removal and the new token is another.
  pub set_magic_link_token-replaces :
      (old token : Text) (ttl : ℕ) (d : r.Db)
      → r.get (magic_link_user_key app user) d ≡ ok old
      → is_empty old ≡ false
      → (r.del (magic_link_key app old) d).0 ≡ ok tt
      → token ≢ old
      → r.entry (set_magic_link_token r app user token ttl d).1 (magic_link_key app old) ≡ none
  unfolding set_magic_link_token drop_old_link
  set_magic_link_token-replaces old token ttl d current real answered ne =
      (store_link-Keeps token old ttl ne).at (drop_old_link r app user d)
      ∙ rw (current, drop_old_link) (rw real (laws.del_ok (magic_link_key app old) d answered))

  -- Storing a link without an error makes the token name its user, unless the server is lost.
  pub set_magic_link_token-get :
      (token : Text) (ttl : ℕ) (d : r.Db)
      → (set_magic_link_token r app user token ttl d).0 ≡ ok tt
      → ((get_magic_link_token r app token (set_magic_link_token r app user token ttl d).1).0
          ≡ ok user)
        ⊎ ((get_magic_link_token r app token (set_magic_link_token r app user token ttl d).1).0
            ≡ failed)
  unfolding set_magic_link_token get_magic_link_token store_link
  set_magic_link_token-get token ttl d stored =
      let d' = drop_old_link r app user d in
      let key = magic_link_key app token in
      let (a, put, rest) =
        continue_ok (r.put key user ttl d').0
          (λ (u : Unit {0}). r.put (magic_link_user_key app user) token ttl)
          (r.put key user ttl d').1 stored in
      laws.get_present key user _ (
        rw rest (
          laws.put_other (magic_link_user_key app user) token ttl _ key
            (link-ne-user app user token)
          ∙ laws.put_ok key user ttl d' put))

  -- A link that was deleted without an error is of no further use.
  pub delete_magic_link_token-once :
      (token : Text) (d : r.Db)
      → (delete_magic_link_token r app token d).0 ≡ ok tt
      → (v : Text)
      → (get_magic_link_token r app token (delete_magic_link_token r app token d).1).0 ≢ ok v
  unfolding delete_magic_link_token get_magic_link_token
  delete_magic_link_token-once token d deleted v h =
      let key = magic_link_key app token in
      cc (
        laws.del_ok key (drop_reverse_link r app token d) deleted,
        laws.get_ok key v (r.del key (drop_reverse_link r app token d)).1 h,
      )
