-- ===== src/Redis/Slots/Handover.antt =====
-- Tokens whose value joins several identifiers: the SSO token, and the token of a backup address; and
-- the verification token of an address, with its reverse key.
use graaa_golang_auth_api.Common.{
  ℕ, ◌*◌, ◌≡◌, refl, ◌≢◌, ◌⊎◌, Option, none, some, [], ◌∷◌, ◌++◌, Text, codes, is_empty, split_two,
  split_two-append, All, if◌then◌else◌, arith,
}
use graaa_golang_auth_api.Redis.Interface.{Reply, ok, nil, failed, Redis, IsRedis}
use graaa_golang_auth_api.Redis.Exec.{Exec, read, ◌>>◌}
use graaa_golang_auth_api.Redis.Keys.{app_key}
use graaa_golang_auth_api.Redis.Sessions.{second}

abbrev pub sso_token_key : Text → Text
sso_token_key token = codes "sso:token:" ++ token

abbrev backup_email_key : Text → Text → Text
backup_email_key app token = app_key app (codes ":backup_email_verify:") token

abbrev email_verify_key : Text → Text → Text
email_verify_key app token = app_key app (codes ":email_verify:") token

abbrev email_verify_user_key : Text → Text → Text
email_verify_user_key app user = app_key app (codes ":email_verify_user:") user

-- `SplitN(val, "|", 3)`, which must have three parts: what comes after the second bar is one part.
abbrev last_field : Text → Text × Option Text → Option (Text × Text × Text)
last_field first (second_, none) = none
last_field first (second_, some third) = some (first, second_, third)

abbrev later_fields : Text × Option Text → Option (Text × Text × Text)
later_fields (first, none) = none
later_fields (first, some rest) = last_field first (split_two b'|' rest)

unfoldable pub three_fields : Text → Option (Text × Text × Text)
three_fields val = later_fields (split_two b'|' val)

abbrev or_malformed : Option (Text × Text × Text) → Reply (Text × Text × Text)
or_malformed none = failed
or_malformed (some parts) = ok parts

abbrev read_sso : Reply Text → Reply (Text × Text × Text)
read_sso (ok val) = or_malformed (three_fields val)
read_sso nil = nil
read_sso failed = failed

-- The user and the pending address; without a bar all is the user.
abbrev second_or_empty : Text × Option Text → Text × Text
second_or_empty (user, none) = (user, [])
second_or_empty (user, some email) = (user, email)

abbrev read_backup : Reply Text → Reply (Text × Text)
read_backup (ok val) = ok (second_or_empty (split_two b'|' val))
read_backup nil = nil
read_backup failed = failed

module _ (r : Redis) where
  open r use {Db}

  unfoldable pub set_sso_token : Text → Text → Text → Text → Exec Db (Unit {0})
  set_sso_token token group source_app user =
      r.put (sso_token_key token) (group ++ (b'|' ∷ (source_app ++ (b'|' ∷ user)))) (60 * second)

  unfoldable pub get_sso_token : Text → Exec Db (Text × Text × Text)
  get_sso_token token = read (λ d. read_sso (r.get (sso_token_key token) d))

  unfoldable pub delete_sso_token : Text → Exec Db (Unit {0})
  delete_sso_token token = r.del (sso_token_key token)

  unfoldable pub set_backup_email_verification_token :
      Text → Text → Text → Text → ℕ → Exec Db (Unit {0})
  set_backup_email_verification_token app user token pending_email ttl =
      r.put (backup_email_key app token) (user ++ (b'|' ∷ pending_email)) ttl

  unfoldable pub get_backup_email_verification_token : Text → Text → Exec Db (Text × Text)
  get_backup_email_verification_token app token =
      read (λ d. read_backup (r.get (backup_email_key app token) d))

  unfoldable pub delete_backup_email_verification_token : Text → Text → Exec Db (Unit {0})
  delete_backup_email_verification_token app token = r.del (backup_email_key app token)

  unfoldable pub set_email_verification_token : Text → Text → Text → ℕ → Exec Db (Unit {0})
  set_email_verification_token app user token ttl =
      r.put (email_verify_key app token) user ttl
      >> r.put (email_verify_user_key app user) token ttl

  unfoldable pub get_email_verification_token : Text → Text → Exec Db Text
  get_email_verification_token app token = read (r.get (email_verify_key app token))

  unfoldable pub get_email_verification_token_by_user_id : Text → Text → Exec Db Text
  get_email_verification_token_by_user_id app user = read (r.get (email_verify_user_key app user))

  -- The reverse key is removed as far as the token can be read.
  unfoldable pub drop_email_reverse : Text → Text → Db → Db
  drop_email_reverse app token d = elim (r.get (email_verify_key app token) d) [
    | nil ↦ d
    | failed ↦ d
    | ok user ↦ if is_empty user then d else (r.del (email_verify_user_key app user) d).1
  ]

  unfoldable pub delete_email_verification_token : Text → Text → Exec Db (Unit {0})
  delete_email_verification_token app token d =
      r.del (email_verify_key app token) (drop_email_reverse app token d)

-- No separator in an identifier.
abbrev pub NoBar : Text → Type 0
NoBar s = All (λ c. c ≢ b'|') s

three_fields-join :
    (group source_app user : Text)
    → NoBar group
    → NoBar source_app
    → three_fields (group ++ (b'|' ∷ (source_app ++ (b'|' ∷ user))))
      ≡ some (group, source_app, user)
unfolding three_fields
three_fields-join group source_app user p q =
    rw
      (
        split_two-append b'|' group (source_app ++ (b'|' ∷ user)) p,
        split_two-append b'|' source_app user q,
      )
      refl

module _ (r : Redis) (laws : IsRedis r) where
  -- An SSO token that was stored gives back the group, the application and the user that it was
  -- stored for, unless the server is lost, where the first two have no bar.
  pub get_sso_token-set :
      (token group source_app user : Text) (d : r.Db)
      → NoBar group
      → NoBar source_app
      → (set_sso_token r token group source_app user d).0 ≡ ok tt
      → ((get_sso_token r token (set_sso_token r token group source_app user d).1).0
          ≡ ok (group, source_app, user))
        ⊎ ((get_sso_token r token (set_sso_token r token group source_app user d).1).0 ≡ failed)
  unfolding set_sso_token get_sso_token
  get_sso_token-set token group source_app user d p q stored =
      let key = sso_token_key token in
      let val = group ++ (b'|' ∷ (source_app ++ (b'|' ∷ user))) in
      ground (
        arith,
        laws.get_present key val (r.put key val (60 * second) d).1
            (laws.put_ok key val (60 * second) d stored),
        three_fields-join group source_app user p q,
      )

  -- An SSO token that was deleted without an error is of no further use.
  pub delete_sso_token-once :
      (token : Text) (d : r.Db) (parts : Text × Text × Text)
      → (delete_sso_token r token d).0 ≡ ok tt
      → (get_sso_token r token (delete_sso_token r token d).1).0 ≢ ok parts
  unfolding get_sso_token delete_sso_token
  delete_sso_token-once token d parts deleted h =
      let key = sso_token_key token in
      ground (arith, h, laws.get_absent key (r.del key d).1 (laws.del_ok key d deleted))

  -- A backup address that waits for its verification is read back with its user, unless the server
  -- is lost, where the user's identifier has no bar; the address may have one.
  pub get_backup_email_verification_token-set :
      (app user token pending_email : Text) (ttl : ℕ) (d : r.Db)
      → NoBar user
      → (set_backup_email_verification_token r app user token pending_email ttl d).0 ≡ ok tt
      → ((get_backup_email_verification_token r app token
            (set_backup_email_verification_token r app user token pending_email ttl d).1).0
          ≡ ok (user, pending_email))
        ⊎ ((get_backup_email_verification_token r app token
              (set_backup_email_verification_token r app user token pending_email ttl d).1).0
            ≡ failed)
  unfolding set_backup_email_verification_token get_backup_email_verification_token
  get_backup_email_verification_token-set app user token pending_email ttl d p stored =
      let key = backup_email_key app token in
      let val = user ++ (b'|' ∷ pending_email) in
      ground (
        arith,
        laws.get_present key val (r.put key val ttl d).1 (laws.put_ok key val ttl d stored),
        split_two-append b'|' user pending_email p,
      )
