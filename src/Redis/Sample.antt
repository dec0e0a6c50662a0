-- ===== src/Redis/Sample.antt =====
-- A server that answers every command, to show that the laws can hold: an association list.
pub mod Laws
use graaa_golang_auth_api.Common.{
  ℕ, zero, suc, ◌<◌, ◌≡◌, refl, ap, ◌≢◌, ◌⊎◌, inl, inr, Option, none, some, List, [], ◌∷◌, ◌++◌,
  Text, lookup, insert, erase, lookup-insert, lookup-erase, text_key, text_eq, text_eq_iff,
  text_eq_refl, parse_int, decimal_suc, parse_int-decimal_suc, if◌then◌else◌, codes, arith,
}
use graaa_golang_auth_api.Redis.Interface.{
  Reply, ok, nil, failed, Entry, str, hash, members, counter, field, Redis, IsRedis,
}

abbrev pub Rows : Type 0
Rows = List (Text × Entry)

abbrev reply_str : Option Entry → Reply Text
reply_str none = nil
reply_str (some (str s)) = ok s
reply_str (some (hash fields)) = failed
reply_str (some (members xs)) = failed

abbrev reply_field : Option Text → Reply Text
reply_field none = nil
reply_field (some v) = ok v

abbrev reply_members : Option Entry → Reply (List Text)
reply_members none = ok []
reply_members (some (str s)) = failed
reply_members (some (hash fields)) = failed
reply_members (some (members xs)) = ok xs

abbrev reply_exists : Option Entry → Reply ℕ
reply_exists none = ok 0
reply_exists (some e) = ok 1

unfoldable pub incr_entry : Text → Option Entry → Rows → Reply ℕ × Rows
incr_entry k none d = (ok 1, insert k (str (codes "1")) d)
incr_entry k (some (str s)) d = elim (parse_int s) [
  | none ↦ (failed, d)
  | some n ↦ (ok (suc n), insert k (str (decimal_suc s)) d)
]
incr_entry k (some (hash fields)) d = (failed, d)
incr_entry k (some (members xs)) d = (failed, d)

unfoldable pub hset_entry :
    Text → List (Text × Text) → Option Entry → Rows → Reply (Unit {0}) × Rows
hset_entry k fields none d = (ok tt, insert k (hash fields) d)
hset_entry k fields (some (str s)) d = (failed, d)
hset_entry k fields (some (hash old)) d = (ok tt, insert k (hash (fields ++ old)) d)
hset_entry k fields (some (members xs)) d = (failed, d)

unfoldable pub sadd_entry : Text → Text → Option Entry → Rows → Reply (Unit {0}) × Rows
sadd_entry k x none d = (ok tt, insert k (members (x ∷ [])) d)
sadd_entry k x (some (str s)) d = (failed, d)
sadd_entry k x (some (hash fields)) d = (failed, d)
sadd_entry k x (some (members xs)) d = (ok tt, insert k (members (x ∷ xs)) d)

drop_member : Text → List Text → List Text
drop_member x [] = []
drop_member x (y ∷ ys) = let rest = drop_member x ys in if text_eq x y then rest else y ∷ rest

srem_left : Text → List Text → Rows → Rows
srem_left k [] d = erase k d
srem_left k (y ∷ ys) d = insert k (members (y ∷ ys)) d

unfoldable pub srem_entry : Text → Text → Option Entry → Rows → Reply (Unit {0}) × Rows
unfolding drop_member srem_left
srem_entry k x none d = (ok tt, d)
srem_entry k x (some (str s)) d = (failed, d)
srem_entry k x (some (hash fields)) d = (failed, d)
srem_entry k x (some (members xs)) d = (ok tt, srem_left k (drop_member x xs) d)

unfoldable pub expire_rows : Text → ℕ → Rows → Rows
expire_rows k zero d = erase k d
expire_rows k (suc ttl) d = d

-- Unfolding this name opens what the commands of `sample` compute with.
unfoldable pub running : Unit {0}
unfolding incr_entry hset_entry sadd_entry srem_entry expire_rows lookup insert erase text_eq
    parse_int decimal_suc
running = tt

abbrev pub sample : Redis
sample = record {
  Db = Rows;
  entry = λ d k. lookup k d;
  get = λ k d. reply_str (lookup k d);
  exists = λ k d. reply_exists (lookup k d);
  hget = λ k f d. reply_field (field f (lookup k d));
  smembers = λ k d. reply_members (lookup k d);
  put = λ k v ttl d. (ok tt, insert k (str v) d);
  del = λ k d. (ok tt, erase k d);
  incr = λ k d. incr_entry k (lookup k d) d;
  expire = λ k ttl d. (ok tt, expire_rows k ttl d);
  hset = λ k fields d. hset_entry k fields (lookup k d) d;
  sadd = λ k x d. sadd_entry k x (lookup k d) d;
  srem = λ k x d. srem_entry k x (lookup k d) d;
}
