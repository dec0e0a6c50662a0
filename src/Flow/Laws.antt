-- ===== src/Flow/Laws.antt =====
-- What a chain of tests has shown when it ends in a result, one test at a time.
use graaa_golang_auth_api.Common.{◌≡◌, refl, Bool, true, false, arith}
use graaa_golang_auth_api.Redis.Interface.{Reply, ok, nil, failed}
use graaa_golang_auth_api.Flow.{
  Verdict, accept, reject, Flow, obtain, answer, guard, after, ◌>>=◌, ◌>>◌,
}

module _ {E S B : Type 0} where
  pub guard-accept :
      (b : Bool) (e : E) (k : Flow E S B) (s : S) (a : B)
      → ((guard b e >> k) s).0 ≡ accept a
      → (b ≡ true) × ((k s).0 ≡ accept a)
  unfolding guard
  guard-accept true e k s a h = (refl, h)
  guard-accept false e k s a h = cc

answer-accept :
    {E A : Type 0} (absent_error query_error : E) (o : Reply A) (a : A)
    → answer absent_error query_error o ≡ accept a
    → o ≡ ok a
answer-accept absent_error query_error (ok x) a h = ground arith
answer-accept absent_error query_error nil a h = cc
answer-accept absent_error query_error failed a h = cc

module _ {E S A B : Type 0} where
  pub bind-accept :
      (m : Flow E S A) (k : A → Flow E S B) (s : S) (b : B)
      → ((m >>= k) s).0 ≡ accept b
      → (a : A) × ((m s).0 ≡ accept a) × ((k a (m s).1).0 ≡ accept b)
  bind-accept m k s b h = ended (m s).0 refl h
    where
      ended :
          (v : Verdict E A)
          → (m s).0 ≡ v
          → (after v k (m s).1).0 ≡ accept b
          → (a : A) × ((m s).0 ≡ accept a) × ((k a (m s).1).0 ≡ accept b)
      ended (accept a) e h = (a, e, h)
      ended (reject x) e h = cc

  pub bind-result :
      (m : Flow E S A) (k : A → Flow E S B) (s : S) (a : A)
      → (m s).0 ≡ accept a
      → (m >>= k) s ≡ k a (m s).1
  bind-result m k s a h = rw h refl

  pub obtain-accept :
      (f : S → Reply A) (absent_error query_error : E) (k : A → Flow E S B) (s : S) (b : B)
      → ((obtain f absent_error query_error >>= k) s).0 ≡ accept b
      → (x : A) × (f s ≡ ok x) × ((k x s).0 ≡ accept b)
  obtain-accept f absent_error query_error k s b h =
      let (x, found, rest) = bind-accept (obtain f absent_error query_error) k s b h in
      (x, answer-accept absent_error query_error (f s) x found, rest)
