-- ===== src/Flow.antt =====
-- Functions that end in a result or in an error, and pass a state on: the bind is
-- `if err != nil { return err }`.
pub mod Laws
use graaa_golang_auth_api.Common.{Bool, true, false}
use graaa_golang_auth_api.Redis.Interface.{Reply, ok, nil, failed}

pub data Verdict (E A : Type 0) : Type 0 where
  accept : A → Verdict E A
  reject : E → Verdict E A

abbrev pub Flow : Type 0 → Type 0 → Type 0 → Type 0
Flow E S A = S → Verdict E A × S

-- An answer, with the error for a missing value and the one for a lost query.
abbrev pub answer : {E A : Type 0} → E → E → Reply A → Verdict E A
answer absent_error query_error (ok a) = accept a
answer absent_error query_error nil = reject absent_error
answer absent_error query_error failed = reject query_error

module _ {E S A : Type 0} where
  abbrev pub done : A → Flow E S A
  done a s = (accept a, s)

  abbrev pub fail : E → Flow E S A
  fail e s = (reject e, s)

  abbrev pub obtain : (S → Reply A) → E → E → Flow E S A
  obtain f absent_error query_error s = (answer absent_error query_error (f s), s)

  -- A call on the state, with the error that its failure becomes.
  abbrev pub call : (S → Reply A × S) → E → Flow E S A
  call f e s = (answer e e (f s).0, (f s).1)

  -- A call whose error is only logged.
  abbrev pub attempt : (S → Reply A × S) → Flow E S (Unit {0})
  attempt f s = (accept tt, (f s).1)

unfoldable pub guard : {E S : Type 0} → Bool → E → Flow E S (Unit {0})
guard true e s = (accept tt, s)
guard false e s = (reject e, s)

module _ {E S A B : Type 0} where
  abbrev pub after : Verdict E A → (A → Flow E S B) → Flow E S B
  after (accept a) f s = f a s
  after (reject e) f s = (reject e, s)

  infixl 5 ◌>>=◌ ◌>>◌
  abbrev pub ◌>>=◌ : Flow E S A → (A → Flow E S B) → Flow E S B
  ◌>>=◌ m f s = after (m s).0 f (m s).1

  abbrev pub ◌>>◌ : Flow E S A → Flow E S B → Flow E S B
  ◌>>◌ m k s = after (m s).0 (λ _. k) (m s).1
