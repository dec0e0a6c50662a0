-- ===== src/Oidc/Codes/Replay.antt =====
-- A code that was exchanged stays dead, whatever the provider does next.
use graaa_golang_auth_api.Common.{
  ℕ, ◌≡◌, refl, sym, ◌≢◌, ◌∙◌, inl, inr, true, Option, none, some, List, [], ◌∷◌, Text, text_eq,
  text_eq_iff, text_eq_refl, All, ltb, arith, Bool-cases,
}
use graaa_golang_auth_api.Database.{Fate, first_where, update_where, written}
use graaa_golang_auth_api.Database.Laws.{
  All-update_where, All-delete_where, All-first_where, first_where-satisfies, All-implies,
  written-All, OptionAll,
}
use graaa_golang_auth_api.Flow.{guard, Verdict, accept, reject, after}
use graaa_golang_auth_api.Oidc.{OidcAuthCode, OidcError, Tables, Library}
use graaa_golang_auth_api.Oidc.Codes.{
  has_code, has_code_id, mark, create_auth_code, get_auth_code, mark_auth_code_used,
  delete_expired_auth_codes, CodeRequest, new_auth_code, issue_auth_code, ExchangeRequest,
  check_code, redeem, exchange_code,
}

-- The unique index on the code.
abbrev pub Distinct : List OidcAuthCode → Type 0
Distinct [] = Unit
Distinct (x ∷ xs) = All (λ y. y.code ≢ x.code) xs × Distinct xs

-- A row that cannot be exchanged for the code.
abbrev pub Spent : Text → OidcAuthCode → Type 0
Spent code ac = ac.code ≡ code → ac.used ≡ true

abbrev pub IsDead : Text → Tables → Type 0
IsDead code t = All (Spent code) t.auth_codes

-- What the provider does to its codes, code `c` not being issued again: codes are issued, requests
-- exchange them, in one go or in two steps with others between, expired codes are deleted, and the
-- other tables change.
pub data Step (lib : Library) (c : Text) (t t' : Tables) : Type 0 where
  issue :
      (minutes : ℕ) (save : Fate) (id code : Text) (q : CodeRequest) (now : ℕ)
      → code ≢ c
      → t' ≡ (issue_auth_code minutes save id code q now t).1
      → Step lib c t t'
  exchange :
      (load save load_user : Fate) (q : ExchangeRequest) (now : ℕ)
      → t' ≡ (exchange_code lib load save load_user q now t).1
      → Step lib c t t'
  finish :
      (save load_user : Fate) (ac : OidcAuthCode)
      → t' ≡ (redeem save load_user ac t).1
      → Step lib c t t'
  purge : (fate : Fate) (now : ℕ) → t' ≡ (delete_expired_auth_codes fate now t).1 → Step lib c t t'
  elsewhere : t'.auth_codes ≡ t.auth_codes → Step lib c t t'

pub data Steps (lib : Library) (c : Text) (t : Tables) : Tables → Type 0 where
  start : Steps lib c t t
  follow : {u v : Tables} → Steps lib c t u → Step lib c u v → Steps lib c t v

module _ (lib : Library) where
  pub check_code-state :
      (load : Fate) (q : ExchangeRequest) (now : ℕ) (t : Tables)
      → (check_code lib load q now t).1 ≡ t
  unfolding check_code guard
  check_code-state load q now t = ground arith

  pub redeem-codes :
      (save load_user : Fate) (ac : OidcAuthCode) (t : Tables)
      → (redeem save load_user ac t).1.auth_codes
        ≡ written save t.auth_codes (update_where (has_code_id ac.id) mark t.auth_codes)
  unfolding redeem mark_auth_code_used
  redeem-codes save load_user ac t = ground arith

  Distinct-update :
      (id : Text) (xs : List OidcAuthCode)
      → Distinct xs
      → Distinct (update_where (has_code_id id) mark xs)
  Distinct-update id [] h = tt
  Distinct-update id (x ∷ xs) (new, rest) =
      let kept = Distinct-update id xs rest in
      let apart =
        All-update_where (λ y. y.code ≢ x.code) (has_code_id id) mark (λ y other. other) xs new in
      elim (Bool-cases (has_code_id id x)) [
        | inl e ↦ rw e (apart, kept)
        | inr e ↦ rw e (apart, kept)
      ]

  mark-Spent : (code : Text) (x : OidcAuthCode) → Spent code x → Spent code (mark x)
  mark-Spent code x h same = refl

  -- Marking the row that a query for the code has found kills the code.
  pub mark-kills :
      (code : Text) (ac : OidcAuthCode) (xs : List OidcAuthCode)
      → Distinct xs
      → first_where (has_code code) xs ≡ some ac
      → All (Spent code) (update_where (has_code_id ac.id) mark xs)
  mark-kills code ac [] apart h = cc
  mark-kills code ac (x ∷ xs) (new, rest) h =
      let named : text_eq x.code code ≡ true → x.code ≡ code = (text_eq_iff x.code code).0 in
      elim (Bool-cases (text_eq x.code code)) [
        | inl same ↦
            let found : x ≡ ac = ground arith in
            let others =
              All-update_where (Spent code) (has_code_id ac.id) mark (mark-Spent code) xs
                (All-implies (λ y ne eq. absurd (ne (eq ∙ sym (named same)))) xs new) in
            ((λ eq. ground (arith, text_eq_refl x.id, found)), others)
        | inr other ↦
            let rest_dead = mark-kills code ac xs rest (ground arith) in
            ((λ eq. ground (arith, text_eq_iff x.code code, eq)), rest_dead)
      ]

  redeem-IsDead :
      (code : Text) (save load_user : Fate) (ac : OidcAuthCode) (t : Tables)
      → IsDead code t
      → IsDead code (redeem save load_user ac t).1
  redeem-IsDead code save load_user ac t dead = rw (redeem-codes save load_user ac t) (
      written-All (Spent code) save t.auth_codes _ dead (
        All-update_where (Spent code) (has_code_id ac.id) mark (mark-Spent code) t.auth_codes dead))

  issue-IsDead :
      (c : Text) (minutes : ℕ) (save : Fate) (id code : Text) (q : CodeRequest) (now : ℕ)
      (t : Tables)
      → code ≢ c
      → IsDead c t
      → IsDead c (issue_auth_code minutes save id code q now t).1
  unfolding issue_auth_code create_auth_code new_auth_code
  issue-IsDead c minutes save id code q now t other dead = ground (arith, other, dead)

  purge-IsDead :
      (c : Text) (fate : Fate) (now : ℕ) (t : Tables)
      → IsDead c t
      → IsDead c (delete_expired_auth_codes fate now t).1
  unfolding delete_expired_auth_codes
  purge-IsDead c fate now t dead =
      written-All (Spent c) fate t.auth_codes _ dead
        (All-delete_where (Spent c) (λ ac. ltb ac.expires_at now) t.auth_codes dead)

  after-IsDead :
      (c : Text) (save load_user : Fate) (t : Tables)
      → IsDead c t
      → (v : Verdict OidcError OidcAuthCode)
      → IsDead c (after v (λ ac. redeem save load_user ac) t).1
  after-IsDead c save load_user t dead (accept ac) = redeem-IsDead c save load_user ac t dead
  after-IsDead c save load_user t dead (reject e) = dead

  exchange-IsDead :
      (c : Text) (load save load_user : Fate) (q : ExchangeRequest) (now : ℕ) (t : Tables)
      → IsDead c t
      → IsDead c (exchange_code lib load save load_user q now t).1
  unfolding exchange_code
  exchange-IsDead c load save load_user q now t dead =
      rw (check_code-state load q now t)
        (after-IsDead c save load_user t dead (check_code lib load q now t).0)

  found-fails :
      (load : Fate) (q : ExchangeRequest) (now : ℕ) (t : Tables) (ac : OidcAuthCode)
      (o : Option OidcAuthCode)
      → first_where (has_code q.code) t.auth_codes ≡ o
      → OptionAll (Spent q.code) o
      → (check_code lib load q now t).0 ≢ accept ac
  unfolding check_code get_auth_code guard
  found-fails load q now t ac none e dead h = ground (arith, e, h)
  found-fails load q now t ac (some x) e dead h =
      let named =
        (text_eq_iff x.code q.code).0 (first_where-satisfies (has_code q.code) x t.auth_codes e) in
      ground (arith, e, h, dead named)

  pub check_code-fails :
      (load : Fate) (q : ExchangeRequest) (now : ℕ) (t : Tables) (ac : OidcAuthCode)
      → IsDead q.code t
      → (check_code lib load q now t).0 ≢ accept ac
  unfolding check_code get_auth_code guard
  check_code-fails load q now t ac dead h =
      found-fails load q now t ac (first_where (has_code q.code) t.auth_codes) refl
        (All-first_where (Spent q.code) (has_code q.code) t.auth_codes dead) h

  Step-IsDead : (c : Text) (t t' : Tables) → Step lib c t t' → IsDead c t → IsDead c t'
  Step-IsDead c t t' (issue minutes save id code q now other e) dead =
      rw e (issue-IsDead c minutes save id code q now t other dead)
  Step-IsDead c t t' (exchange load save load_user q now e) dead =
      rw e (exchange-IsDead c load save load_user q now t dead)
  Step-IsDead c t t' (finish save load_user ac e) dead =
      rw e (redeem-IsDead c save load_user ac t dead)
  Step-IsDead c t t' (purge fate now e) dead = rw e (purge-IsDead c fate now t dead)
  Step-IsDead c t t' (elsewhere e) dead = rw e dead

  pub Steps-IsDead : {c : Text} {t t' : Tables} → Steps lib c t t' → IsDead c t → IsDead c t'
  Steps-IsDead start dead = dead
  Steps-IsDead (follow steps step) dead = Step-IsDead _ _ _ step (Steps-IsDead steps dead)
