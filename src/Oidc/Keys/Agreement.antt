-- ===== src/Oidc/Keys/Agreement.antt =====
-- All callers of GetOrCreateRSAKey get one key.
use graaa_golang_auth_api.Common.{
  ◌≡◌, refl, inl, inr, false, Option, none, some, List, [], ◌∷◌, Text, text_eq, text_eq_iff, arith,
  Bool-cases,
}
use graaa_golang_auth_api.Database.{Fate, served, refused, lost, first_where, update_where}
use graaa_golang_auth_api.Database.Laws.{first_where-update_where, first_where-satisfies}
use graaa_golang_auth_api.Flow.{accept}
use graaa_golang_auth_api.Oidc.Keys.{
  KeyRow, Pem, IsPem, of_app, Stored, present, broken, missing, stored_key, save_key, under_lock,
  create_key, after_read, get_or_create_rsa_key,
}

-- What other calls do to the table: each has read the key of an application some time before, and goes
-- on from what it read, whatever that was; `fresh` is the key that it would generate.
pub data Calls (p : Pem) (rows : List KeyRow) : List KeyRow → Type 0 where
  idle : Calls p rows rows
  call :
      {rows' : List KeyRow} (read : Stored p.Key) (load save : Fate) (app : Text) (fresh : p.Key)
      → Calls p rows rows'
      → Calls p rows (after_read p read load save app fresh rows').1

module _ (p : Pem) (laws : IsPem p) (app : Text) where
  open p use {Key}

  under_lock_stores :
      (load save : Fate) (fresh key : Key) (rows : List KeyRow) (o : Option KeyRow)
      → first_where (of_app app) rows ≡ o
      → (create_key p load save app fresh rows).0 ≡ accept key
      → stored_key p served app (create_key p load save app fresh rows).1 ≡ present key
  unfolding create_key stored_key save_key
  under_lock_stores load save fresh key rows none e h = absurd (ground (arith, e, h))
  under_lock_stores load save fresh key rows (some row) e h =
      let mine = first_where-satisfies (of_app app) row rows e in
      let changed =
        first_where-update_where (of_app app) (of_app app)
          (λ row. record row { oidc_rsa_private_key = p.print fresh }) (λ x. refl) rows in
      ground (arith, e, h, mine, changed, laws.parse_print fresh, laws.print_nonempty fresh)

  second :
      (load save : Fate) (fresh key key' : Key) (rows : List KeyRow)
      → stored_key p served app rows ≡ present key
      → (create_key p load save app fresh rows).0 ≡ accept key'
      → key ≡ key'
  unfolding create_key stored_key
  second served save fresh key key' rows kept h = ground (arith, kept, h)
  second refused save fresh key key' rows kept h = absurd (ground (arith, h))
  second lost save fresh key key' rows kept h = absurd (ground (arith, h))

  -- A call that returns a key leaves it in the table.
  get_or_create_rsa_key-stores :
      (read load save : Fate) (fresh key : Key) (rows : List KeyRow)
      → (get_or_create_rsa_key p read load save app fresh rows).0 ≡ accept key
      → stored_key p served app (get_or_create_rsa_key p read load save app fresh rows).1
        ≡ present key
  unfolding get_or_create_rsa_key stored_key
  get_or_create_rsa_key-stores read load save fresh key rows h = after_reading read _ refl h
    where
      after_reading :
          (fate : Fate) (o : Stored Key)
          → stored_key p fate app rows ≡ o
          → (after_read p o load save app fresh rows).0 ≡ accept key
          → stored_key p served app (after_read p o load save app fresh rows).1 ≡ present key
      after_reading served (present k) e a = ground (arith, e, a)
      after_reading refused (present k) e a = absurd (ground (arith, e))
      after_reading lost (present k) e a = absurd (ground (arith, e))
      after_reading fate (broken x) e a = absurd (cc a)
      after_reading fate missing e a =
          under_lock_stores load save fresh key rows (first_where (of_app app) rows) refl a

  update_where-other :
      (other pem : Text) (rows : List KeyRow)
      → text_eq other app ≡ false
      → first_where
          (of_app app)
          (update_where (of_app other) (λ row. record row { oidc_rsa_private_key = pem }) rows)
        ≡ first_where (of_app app) rows
  update_where-other other pem [] apart = refl
  update_where-other other pem (x ∷ xs) apart =
      let rest = update_where-other other pem xs apart in
      elim (Bool-cases (text_eq x.id other)) [
        | inr elsewhere ↦ ground (arith, elsewhere, rest)
        | inl there ↦
            let not_mine : text_eq x.id app ≡ false = rw ((text_eq_iff x.id other).0 there) apart in
            ground (arith, there, not_mine, rest)
      ]

  -- The save of another application leaves the key alone.
  save_key-other :
      (save : Fate) (other pem : Text) (rows : List KeyRow) (key : Key)
      → text_eq other app ≡ false
      → stored_key p served app rows ≡ present key
      → stored_key p served app (save_key p save other pem rows) ≡ present key
  unfolding stored_key save_key
  save_key-other served other pem rows key apart kept =
      rw (update_where-other other pem rows apart) kept
  save_key-other refused other pem rows key apart kept = kept
  save_key-other lost other pem rows key apart kept =
      rw (update_where-other other pem rows apart) kept

  under_lock-other :
      (o : Stored Key) (save : Fate) (other : Text) (fresh key : Key) (rows : List KeyRow)
      → text_eq other app ≡ false
      → stored_key p served app rows ≡ present key
      → stored_key p served app (under_lock p o save other fresh rows).1 ≡ present key
  under_lock-other (present k) save other fresh key rows apart kept = kept
  under_lock-other (broken e) save other fresh key rows apart kept = kept
  under_lock-other missing save other fresh key rows apart kept =
      save_key-other save other (p.print fresh) rows key apart kept

  create_key-same :
      (load save : Fate) (fresh key : Key) (rows : List KeyRow)
      → stored_key p served app rows ≡ present key
      → (create_key p load save app fresh rows).1 ≡ rows
  unfolding create_key stored_key
  create_key-same served save fresh key rows kept = ground (arith, kept)
  create_key-same refused save fresh key rows kept = refl
  create_key-same lost save fresh key rows kept = refl

  create_key-keeps :
      (load save : Fate) (other : Text) (fresh key : Key) (rows : List KeyRow)
      → stored_key p served app rows ≡ present key
      → stored_key p served app (create_key p load save other fresh rows).1 ≡ present key
  unfolding create_key
  create_key-keeps load save other fresh key rows kept = elim (Bool-cases (text_eq other app)) [
    | inr apart ↦
        under_lock-other (stored_key p load other rows) save other fresh key rows apart kept
    | inl same ↦
        rw ((text_eq_iff other app).0 same)
          (rw (create_key-same load save fresh key rows kept) kept)
  ]

  after_read-same :
      (read load save : Fate) (fresh key key' : Key) (rows : List KeyRow)
      → stored_key p served app rows ≡ present key
      → (get_or_create_rsa_key p read load save app fresh rows).0 ≡ accept key'
      → key ≡ key'
  unfolding get_or_create_rsa_key stored_key
  after_read-same served load save fresh key key' rows kept h = ground (arith, kept, h)
  after_read-same refused load save fresh key key' rows kept h = absurd (ground (arith, h))
  after_read-same lost load save fresh key key' rows kept h = absurd (ground (arith, h))

  Calls-keeps :
      (key : Key) (rows rows' : List KeyRow)
      → Calls p rows rows'
      → stored_key p served app rows ≡ present key
      → stored_key p served app rows' ≡ present key
  Calls-keeps key rows rows' idle kept = kept
  Calls-keeps key rows rows' (call (present k) load save other fresh calls) kept =
      Calls-keeps key rows _ calls kept
  Calls-keeps key rows rows' (call (broken e) load save other fresh calls) kept =
      Calls-keeps key rows _ calls kept
  Calls-keeps key rows rows' (call missing load save other fresh calls) kept =
      create_key-keeps load save other fresh key _ (Calls-keeps key rows _ calls kept)

  -- Once a call of GetOrCreateRSAKey has returned a key for an application, every later call for it that
  -- returns one returns the same, and so does one that had found no key before the first stored its own
  -- and waited for the lock, whatever calls run in between, of this application or of others, and
  -- whatever becomes of their queries.
  pub get_or_create_rsa_key-agrees :
      (read load save read' load' save' : Fate) (fresh fresh' key key' : Key)
      (rows rows' : List KeyRow)
      → (get_or_create_rsa_key p read load save app fresh rows).0 ≡ accept key
      → Calls p (get_or_create_rsa_key p read load save app fresh rows).1 rows'
      → ((get_or_create_rsa_key p read' load' save' app fresh' rows').0 ≡ accept key' → key ≡ key')
        × ((after_read p missing load' save' app fresh' rows').0 ≡ accept key' → key ≡ key')
  get_or_create_rsa_key-agrees read load save read' load' save' fresh fresh' key key' rows rows' h
        calls =
      let stored = get_or_create_rsa_key-stores read load save fresh key rows h in
      let kept = Calls-keeps key _ rows' calls stored in
      (
        λ later. after_read-same read' load' save' fresh' key key' rows' kept later,
        λ waited. second load' save' fresh' key key' rows' kept waited,
      )
