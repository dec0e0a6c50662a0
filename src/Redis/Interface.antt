-- ===== src/Redis/Interface.antt =====
-- The Redis server behind internal/redis/redis.go, as the go-redis client shows it. The server and
-- the client are not part of the repository: they are the record `Redis`, a parameter of every
-- definition that calls them, and `IsRedis` states the documented behaviour that proofs rely on.
-- A command that the network loses is `failed`; what it did on the server is then left open.
-- No key expires while one call of the program runs.
use graaa_golang_auth_api.Common.{
  ℕ, suc, ◌<◌, ◌≡◌, ◌≢◌, ◌⊎◌, Option, none, some, List, Text, lookup, text_key, parse_int,
}

-- A result of go-redis: a value, the error `redis.Nil`, or any other error.
pub data Reply {ℓ} (A : Type ℓ) : Type ℓ where
  ok : A → Reply A
  nil : Reply A
  failed : Reply A

-- What a live key holds.
pub data Entry : Type 0 where
  str : Text → Entry
  hash : List (Text × Text) → Entry
  members : List Text → Entry

-- The integer that INCR counts from.
abbrev pub counter : Option Entry → Option ℕ
counter none = some 0
counter (some (str s)) = parse_int s
counter (some (hash fields)) = none
counter (some (members xs)) = none

abbrev pub field : Text → Option Entry → Option Text
field f none = none
field f (some (str s)) = none
field f (some (hash fields)) = lookup f fields
field f (some (members xs)) = none

-- The commands, each on the state of the server. `entry` is that state as a client could see it.
pub record Redis : Type 1 where
  pub Db : Type 0
  pub entry : Db → Text → Option Entry
  pub get : Text → Db → Reply Text
  pub exists : Text → Db → Reply ℕ
  pub hget : Text → Text → Db → Reply Text
  pub smembers : Text → Db → Reply (List Text)
  pub put : Text → Text → ℕ → Db → Reply (Unit {0}) × Db
  pub del : Text → Db → Reply (Unit {0}) × Db
  pub incr : Text → Db → Reply ℕ × Db
  pub expire : Text → ℕ → Db → Reply (Unit {0}) × Db
  pub hset : Text → List (Text × Text) → Db → Reply (Unit {0}) × Db
  pub sadd : Text → Text → Db → Reply (Unit {0}) × Db
  pub srem : Text → Text → Db → Reply (Unit {0}) × Db

-- Documented behaviour. The laws `…_other` hold of lost commands too.
pub record IsRedis (r : Redis) : Type 0 where
  pub get_ok : (k v : Text) (d : r.Db) → r.get k d ≡ ok v → r.entry d k ≡ some (str v)
  pub get_nil : (k : Text) (d : r.Db) → r.get k d ≡ nil → r.entry d k ≡ none
  pub get_absent : (k : Text) (d : r.Db) → r.entry d k ≡ none → r.get k d ≡ nil ⊎ r.get k d ≡ failed
  pub get_present :
      (k v : Text) (d : r.Db) → r.entry d k ≡ some (str v) → r.get k d ≡ ok v ⊎ r.get k d ≡ failed
  pub exists_absent :
      (k : Text) (d : r.Db) → r.entry d k ≡ none → r.exists k d ≡ ok 0 ⊎ r.exists k d ≡ failed
  pub exists_present :
      (k : Text) (e : Entry) (d : r.Db)
      → r.entry d k ≡ some e
      → r.exists k d ≡ ok 1 ⊎ r.exists k d ≡ failed
  pub hget_ok : (k f v : Text) (d : r.Db) → r.hget k f d ≡ ok v → field f (r.entry d k) ≡ some v
  pub hget_field :
      (k f v : Text) (d : r.Db)
      → field f (r.entry d k) ≡ some v
      → r.hget k f d ≡ ok v ⊎ r.hget k f d ≡ failed
  pub put_ok :
      (k v : Text) (ttl : ℕ) (d : r.Db)
      → (r.put k v ttl d).0 ≡ ok tt
      → r.entry (r.put k v ttl d).1 k ≡ some (str v)
  pub put_other :
      (k v : Text) (ttl : ℕ) (d : r.Db) (j : Text)
      → k ≢ j
      → r.entry (r.put k v ttl d).1 j ≡ r.entry d j
  pub del_ok : (k : Text) (d : r.Db) → (r.del k d).0 ≡ ok tt → r.entry (r.del k d).1 k ≡ none
  pub del_other : (k : Text) (d : r.Db) (j : Text) → k ≢ j → r.entry (r.del k d).1 j ≡ r.entry d j
  pub del_keeps_none : (k : Text) (d : r.Db) → r.entry d k ≡ none → r.entry (r.del k d).1 k ≡ none
  pub incr_ok :
      (k : Text) (d : r.Db) (n : ℕ)
      → (r.incr k d).0 ≡ ok n
      → (m : ℕ) × (n ≡ suc m)
        × (counter (r.entry d k) ≡ some m)
        × (counter (r.entry (r.incr k d).1 k) ≡ some n)
  pub incr_other : (k : Text) (d : r.Db) (j : Text) → k ≢ j → r.entry (r.incr k d).1 j ≡ r.entry d j
  pub expire_keeps :
      (k : Text) (ttl : ℕ) (d : r.Db) (j : Text)
      → 0 < ttl
      → r.entry (r.expire k ttl d).1 j ≡ r.entry d j
  pub hset_ok :
      (k f v : Text) (fields : List (Text × Text)) (d : r.Db)
      → (r.hset k fields d).0 ≡ ok tt
      → lookup f fields ≡ some v
      → field f (r.entry (r.hset k fields d).1 k) ≡ some v
  pub hset_field_other :
      (k f : Text) (fields : List (Text × Text)) (d : r.Db)
      → lookup f fields ≡ none
      → field f (r.entry (r.hset k fields d).1 k) ≡ field f (r.entry d k)
  pub hset_other :
      (k : Text) (fields : List (Text × Text)) (d : r.Db) (j : Text)
      → k ≢ j
      → r.entry (r.hset k fields d).1 j ≡ r.entry d j
  pub smembers_ok :
      (k : Text) (xs : List Text) (d : r.Db)
      → r.smembers k d ≡ ok xs
      → (r.entry d k ≡ some (members xs)) ⊎ ((r.entry d k ≡ none) × (xs ≡ List.[]))
  pub sadd_other :
      (k x : Text) (d : r.Db) (j : Text) → k ≢ j → r.entry (r.sadd k x d).1 j ≡ r.entry d j
  pub srem_other :
      (k x : Text) (d : r.Db) (j : Text) → k ≢ j → r.entry (r.srem k x d).1 j ≡ r.entry d j
