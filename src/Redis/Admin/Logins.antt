-- ===== src/Redis/Admin/Logins.antt =====
-- Lockouts, magic links and cooldowns of the admin keys.
use graaa_golang_auth_api.Common.{
  ℕ, ◌≡◌, refl, ◌≢◌, ◌⊎◌, ◌∙◌, inl, inr, ap, true, Text, codes, none, arith,
}
use graaa_golang_auth_api.Redis.Interface.{Reply, ok, nil, failed, Redis, IsRedis}
use graaa_golang_auth_api.Redis.Keys.{nth}
use graaa_golang_auth_api.Redis.Counters.{count_or_zero}
use graaa_golang_auth_api.Redis.Tokens.{found}
use graaa_golang_auth_api.Redis.Admin.{
  login_attempts_key, login_lockout_key, both, del_two, get_login_attempts, is_login_locked,
  clear_login_attempts, admin_magic_link_key, get_admin_magic_link_token, drop_reverse_admin_link,
  delete_admin_magic_link_token, set_notification_cooldown, is_notification_on_cooldown,
  notification_cooldown_key,
}

both_ok : (a b : Reply (Unit {0})) → both a b ≡ ok tt → (a ≡ ok tt) × (b ≡ ok tt)
both_ok (ok u) b h = (refl, h)
both_ok nil b h = absurd (cc h)
both_ok failed b h = absurd (cc h)

absent_found : (a : Reply Text) → (a ≡ nil) ⊎ (a ≡ failed) → found a ≢ ok true
absent_found a (inl e) h = cc (ap found e, h)
absent_found a (inr e) h = cc (ap found e, h)

present_found :
    {v : Text} (a : Reply Text)
    → (a ≡ ok v) ⊎ (a ≡ failed)
    → (found a ≡ ok true) ⊎ (found a ≡ failed)
present_found a (inl e) = inl (ap found e)
present_found a (inr e) = inr (ap found e)

absent_count :
    (a : Reply Text)
    → (a ≡ nil) ⊎ (a ≡ failed)
    → (count_or_zero a ≡ ok 0) ⊎ (count_or_zero a ≡ failed)
absent_count a (inl e) = inl (ap count_or_zero e)
absent_count a (inr e) = inr (ap count_or_zero e)

attempts-ne-lockout : (ip : Text) → login_lockout_key ip ≢ login_attempts_key ip
unfolding login_attempts_key login_lockout_key
attempts-ne-lockout ip h = omega (arith, ap (nth 12) h)

module _ (r : Redis) (laws : IsRedis r) where
  del_two_effect :
      (k l : Text) (d : r.Db)
      → l ≢ k
      → (del_two r k l d).0 ≡ ok tt
      → (r.entry (del_two r k l d).1 k ≡ none) × (r.entry (del_two r k l d).1 l ≡ none)
  unfolding del_two
  del_two_effect k l d apart h =
      let (first, second) = both_ok (r.del k d).0 (r.del l (r.del k d).1).0 h in
      (
        laws.del_other l (r.del k d).1 k apart ∙ laws.del_ok k d first,
        laws.del_ok l (r.del k d).1 second,
      )

  -- Clearing the attempts of an address without an error lifts its lockout and sets its count to 0, as
  -- far as the server answers.
  pub clear_login_attempts_effect :
      (ip : Text) (d : r.Db)
      → (clear_login_attempts r ip d).0 ≡ ok tt
      → ((is_login_locked r ip (clear_login_attempts r ip d).1).0 ≢ ok true)
        × (((get_login_attempts r ip (clear_login_attempts r ip d).1).0 ≡ ok 0)
            ⊎ ((get_login_attempts r ip (clear_login_attempts r ip d).1).0 ≡ failed))
  unfolding clear_login_attempts is_login_locked get_login_attempts
  clear_login_attempts_effect ip d h =
      let (attempts, lockout) =
        del_two_effect (login_attempts_key ip) (login_lockout_key ip) d (attempts-ne-lockout ip)
          h in
      (
        absent_found _ (laws.get_absent (login_lockout_key ip) _ lockout),
        absent_count _ (laws.get_absent (login_attempts_key ip) _ attempts),
      )

  -- An admin's link that was deleted without an error is of no further use.
  pub delete_admin_magic_link_token-once :
      (token admin : Text) (d : r.Db)
      → (delete_admin_magic_link_token r token d).0 ≡ ok tt
      → (get_admin_magic_link_token r token (delete_admin_magic_link_token r token d).1).0
        ≢ ok admin
  unfolding delete_admin_magic_link_token get_admin_magic_link_token
  delete_admin_magic_link_token-once token admin d deleted h =
      let key = admin_magic_link_key token in
      cc (
        laws.del_ok key (drop_reverse_admin_link r token d) deleted,
        laws.get_ok key admin (r.del key (drop_reverse_admin_link r token d)).1 h,
      )

  -- A cooldown that was set without an error is in force, unless the server is lost.
  pub is_notification_on_cooldown-set :
      (app user kind : Text) (cooldown : ℕ) (d : r.Db)
      → (set_notification_cooldown r app user kind cooldown d).0 ≡ ok tt
      → ((is_notification_on_cooldown r app user kind
            (set_notification_cooldown r app user kind cooldown d).1).0
          ≡ ok true)
        ⊎ ((is_notification_on_cooldown r app user kind
              (set_notification_cooldown r app user kind cooldown d).1).0
            ≡ failed)
  unfolding set_notification_cooldown is_notification_on_cooldown
  is_notification_on_cooldown-set app user kind cooldown d stored =
      let key = notification_cooldown_key app user kind in
      present_found _
        (laws.get_present key (codes "1") _ (laws.put_ok key (codes "1") cooldown d stored))
