-- ===== src/Redis/Exec.antt =====
-- Functions of internal/redis that run commands in turn: the state of the server is passed on, and
-- `if err := …; err != nil { return err }` is the bind.
use graaa_golang_auth_api.Redis.Interface.{Reply, ok, nil, failed}

abbrev pub Exec : Type 0 → Type 0 → Type 0
Exec Db A = Db → Reply A × Db

module _ {Db A : Type 0} where
  abbrev pub pure : A → Exec Db A
  pure a d = (ok a, d)

  -- A command that reads.
  abbrev pub read : (Db → Reply A) → Exec Db A
  read f d = (f d, d)

  -- A call whose error the program drops.
  abbrev pub attempt : Exec Db A → Exec Db (Unit {0})
  attempt m d = (ok tt, (m d).1)

module _ {Db A B : Type 0} where
  abbrev pub continue : Reply A → (A → Exec Db B) → Exec Db B
  continue (ok a) f d = f a d
  continue nil f d = (nil, d)
  continue failed f d = (failed, d)

  infixl 5 ◌>>=◌ ◌>>◌
  abbrev pub ◌>>=◌ : Exec Db A → (A → Exec Db B) → Exec Db B
  ◌>>=◌ m f d = continue (m d).0 f (m d).1

  abbrev pub ◌>>◌ : Exec Db A → Exec Db B → Exec Db B
  ◌>>◌ m k d = continue (m d).0 (λ _. k) (m d).1
