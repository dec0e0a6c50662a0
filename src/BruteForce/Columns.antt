-- ===== src/BruteForce/Columns.antt =====
-- The columns of a user that a lockout writes, and the database behind them. The database and gorm
-- are not part of the repository: they are the record `Accounts`, with its documented behaviour.
use graaa_golang_auth_api.Common.{ℕ, ◌≡◌, Bool, true, Option, none, some, Text}

-- The text of `LockReason`: empty, or "Too many failed login attempts (tier %d)".
pub data LockReason : Type 0 where
  no_reason : LockReason
  too_many_failed_tier : ℕ → LockReason

pub record LockFields : Type 0 where
  pub locked_at : Option ℕ
  pub lock_reason : LockReason
  pub lock_expires_at : Option ℕ

abbrev pub cleared : LockFields
cleared = record { locked_at = none; lock_reason = no_reason; lock_expires_at = none }

-- A user is found by the application and the email, or by its key; an update says whether it went
-- without an error.
pub record Accounts : Type 1 where
  pub Db : Type 0
  pub lock_of : Db → Text → Text → Option LockFields
  pub update_by_email : Text → Text → LockFields → Db → Bool × Db
  pub update_by_id : Text → LockFields → Db → Bool × Db

-- An update without an error has set the columns of a user that is there.
pub record IsAccounts (a : Accounts) : Type 0 where
  pub update_by_email_ok :
      (app email : Text) (before fields : LockFields) (d : a.Db)
      → a.lock_of d app email ≡ some before
      → (a.update_by_email app email fields d).0 ≡ true
      → a.lock_of (a.update_by_email app email fields d).1 app email ≡ some fields
