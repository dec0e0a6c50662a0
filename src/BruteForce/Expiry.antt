-- ===== src/BruteForce/Expiry.antt =====
-- How long a lock lasts.
use graaa_golang_auth_api.Common.{
  ℕ, ◌≤◌, ◌<◌, ◌≡◌, refl, true, false, none, some, Text, ltb, arith, ◌⊎◌, inl, inr, Bool-cases,
}
use graaa_golang_auth_api.BruteForce.Columns.{LockFields, cleared, Accounts}
use graaa_golang_auth_api.BruteForce.{done, error, is_account_locked, clear_expired}

module _ (a : Accounts) (now expires locked_at : ℕ) (id : Text) (user : LockFields) (db : a.Db)
    (locked : user.locked_at ≡ some locked_at) (until : user.lock_expires_at ≡ some expires) where
  -- A locked account is locked up to its instant of expiry, that instant included, and the check
  -- changes nothing. Later the check answers that it is not locked, with the columns cleared, or
  -- with an error, and the user as it was, where the database fails.
  pub is_account_locked-until :
      ((now ≤ expires)
        × (is_account_locked a now id user db ≡ (done (true, some expires), user, db)))
      ⊎ ((expires < now)
          × ((is_account_locked a now id user db
                ≡ (done (false, none), cleared, (a.update_by_id id cleared db).1))
              ⊎ (((a.update_by_id id cleared db).0 ≡ false)
                  × (is_account_locked a now id user db
                      ≡ (error, user, (a.update_by_id id cleared db).1)))))
  unfolding is_account_locked clear_expired
  is_account_locked-until = elim (Bool-cases (ltb expires now)) [
    | inr kept ↦ inl (ground arith, rw (locked, until, kept) refl)
    | inl over ↦ elim (Bool-cases (a.update_by_id id cleared db).0) [
      | inl updated ↦ inr (ground arith, inl (rw (locked, until, over, updated) refl))
      | inr lost ↦ inr (ground arith, inr (lost, rw (locked, until, over, lost) refl))
    ]
  ]
