-- ===== src/Redis/Keeps.antt =====
-- What an operation on the server leaves alone, one rule for each way to build an operation.
use graaa_golang_auth_api.Common.{ℕ, ◌<◌, ◌≡◌, refl, ◌≢◌, ◌∙◌, Text, List}
use graaa_golang_auth_api.Redis.Interface.{Reply, ok, nil, failed, Redis, IsRedis}
use graaa_golang_auth_api.Redis.Exec.{Exec, pure, read, attempt, continue, ◌>>=◌, ◌>>◌}

-- Inversion of a block that succeeds.
pub continue_ok :
    {Db A B : Type 0} (x : Reply A) (f : A → Exec Db B) (d : Db) {b : B}
    → (continue x f d).0 ≡ ok b
    → (a : A) × (x ≡ ok a) × (continue x f d ≡ f a d)
continue_ok (ok a) f d h = (a, refl, refl)
continue_ok nil f d h = cc
continue_ok failed f d h = cc

module _ (r : Redis) where
  -- `m` leaves the entry at `j` as it is, whatever its result.
  pub record Keeps {A : Type 0} (j : Text) (m : Exec r.Db A) : Type 0 where
    pub at : (d : r.Db) → r.entry (m d).1 j ≡ r.entry d j

module _ (r : Redis) {A B : Type 0} {j : Text} where
  continue-Keeps :
      (x : Reply A) (f : A → Exec r.Db B) (d : r.Db)
      → ((a : A) → Keeps r j (f a))
      → r.entry (continue x f d).1 j ≡ r.entry d j
  continue-Keeps (ok a) f d h = (h a).at d
  continue-Keeps nil f d h = refl
  continue-Keeps failed f d h = refl

  pub Keeps-bind :
      (m : Exec r.Db A) (f : A → Exec r.Db B)
      → Keeps r j m
      → ((a : A) → Keeps r j (f a))
      → Keeps r j (m >>= f)
  Keeps-bind m f km kf = record { at = λ d. continue-Keeps (m d).0 f (m d).1 kf ∙ km.at d }

  pub Keeps-seq :
      (m : Exec r.Db A) (k : Exec r.Db B) → Keeps r j m → Keeps r j k → Keeps r j (m >> k)
  Keeps-seq m k km kk = record {
    at = λ d. continue-Keeps (m d).0 (λ _. k) (m d).1 (λ _. kk) ∙ km.at d;
  }

module _ (r : Redis) {A : Type 0} {j : Text} where
  pub Keeps-read : (f : r.Db → Reply A) → Keeps r j (read f)
  Keeps-read f = record { at = λ d. refl }

  pub Keeps-pure : (a : A) → Keeps r j (pure a)
  Keeps-pure a = record { at = λ d. refl }

  pub Keeps-attempt : (m : Exec r.Db A) → Keeps r j m → Keeps r j (attempt m)
  Keeps-attempt m km = record { at = km.at }

module _ (r : Redis) (laws : IsRedis r) {j : Text} where
  pub Keeps-put : (k v : Text) (ttl : ℕ) → k ≢ j → Keeps r j (r.put k v ttl)
  Keeps-put k v ttl ne = record { at = λ d. laws.put_other k v ttl d j ne }

  pub Keeps-del : (k : Text) → k ≢ j → Keeps r j (r.del k)
  Keeps-del k ne = record { at = λ d. laws.del_other k d j ne }

  pub Keeps-expire : (k : Text) (ttl : ℕ) → 0 < ttl → Keeps r j (r.expire k ttl)
  Keeps-expire k ttl pos = record { at = λ d. laws.expire_keeps k ttl d j pos }

  pub Keeps-hset : (k : Text) (fields : List (Text × Text)) → k ≢ j → Keeps r j (r.hset k fields)
  Keeps-hset k fields ne = record { at = λ d. laws.hset_other k fields d j ne }

  pub Keeps-sadd : (k x : Text) → k ≢ j → Keeps r j (r.sadd k x)
  Keeps-sadd k x ne = record { at = λ d. laws.sadd_other k x d j ne }

  pub Keeps-srem : (k x : Text) → k ≢ j → Keeps r j (r.srem k x)
  Keeps-srem k x ne = record { at = λ d. laws.srem_other k x d j ne }

pub ruleset keeps_rules = (
  Keeps-bind, Keeps-seq, Keeps-read, Keeps-pure, Keeps-attempt, Keeps-put, Keeps-del, Keeps-expire,
  Keeps-hset, Keeps-sadd, Keeps-srem,
)
