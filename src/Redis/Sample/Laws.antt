-- ===== src/Redis/Sample/Laws.antt =====
-- The sample server satisfies the laws of Redis/Interface.
use graaa_golang_auth_api.Common.{
  ℕ, zero, suc, ◌<◌, ◌≡◌, refl, ap, ◌≢◌, ◌⊎◌, inl, inr, Option, none, some, List, [], ◌∷◌, ◌++◌,
  Text, lookup, insert, erase, lookup-insert, lookup-erase, text_key, text_eq_iff, text_eq_refl,
  parse_int, decimal_suc, parse_int-decimal_suc, arith,
}
use graaa_golang_auth_api.Redis.Interface.{
  ok, nil, Entry, str, hash, members, counter, field, IsRedis,
}
use graaa_golang_auth_api.Redis.Sample.{
  Rows, reply_str, reply_field, reply_members, reply_exists, incr_entry, hset_entry, sadd_entry,
  drop_member, srem_left, srem_entry, expire_rows, sample,
}

lookup-insert_self : (k : Text) (e : Entry) (d : Rows) → lookup k (insert k e d) ≡ some e
lookup-insert_self k e d = ground (arith, lookup-insert k k e d, text_eq_refl k)

lookup-insert_ne :
    (k j : Text) (e : Entry) (d : Rows) → k ≢ j → lookup j (insert k e d) ≡ lookup j d
lookup-insert_ne k j e d h = ground (arith, lookup-insert k j e d, text_eq_iff k j)

lookup-erase_self : (k : Text) (d : Rows) → lookup k (erase k d) ≡ none
lookup-erase_self k d = ground (arith, lookup-erase k k d, text_eq_refl k)

lookup-erase_ne : (k j : Text) (d : Rows) → k ≢ j → lookup j (erase k d) ≡ lookup j d
lookup-erase_ne k j d h = ground (arith, lookup-erase k j d, text_eq_iff k j)

-- The pending fields of HSET shadow the stored ones.
lookup-append_some :
    (f v : Text) (xs ys : List (Text × Text)) → lookup f xs ≡ some v → lookup f (xs ++ ys) ≡ some v
unfolding lookup
lookup-append_some f v [] ys h = cc
lookup-append_some f v ((g, w) ∷ xs) ys h = ground (arith, lookup-append_some f v xs ys)

lookup-append_none :
    (f : Text) (xs ys : List (Text × Text)) → lookup f xs ≡ none → lookup f (xs ++ ys) ≡ lookup f ys
unfolding lookup
lookup-append_none f [] ys h = refl
lookup-append_none f ((g, w) ∷ xs) ys h = ground (arith, lookup-append_none f xs ys)

incr_some :
    (k s : Text) (o : Option ℕ) (d : Rows) (n : ℕ)
    → parse_int s ≡ o
    → (incr_entry k (some (str s)) d).0 ≡ ok n
    → (m : ℕ) × (n ≡ suc m)
      × (o ≡ some m)
      × (counter (lookup k (incr_entry k (some (str s)) d).1) ≡ some n)
unfolding incr_entry
incr_some k s none d n e h = absurd (ground arith)
incr_some k s (some m) d n e h = (
  m,
  ground arith,
  refl,
  rw (e, incr_entry) (rw lookup-insert_self (ground (arith, parse_int-decimal_suc s m e))),
)

incr_entry_ok :
    (k : Text) (e : Option Entry) (d : Rows) (n : ℕ)
    → (incr_entry k e d).0 ≡ ok n
    → (m : ℕ) × (n ≡ suc m)
      × (counter e ≡ some m)
      × (counter (lookup k (incr_entry k e d).1) ≡ some n)
unfolding incr_entry parse_int
incr_entry_ok k none d n h = (0, ground arith, refl, rw lookup-insert_self (ground arith))
incr_entry_ok k (some (str s)) d n h = incr_some k s (parse_int s) d n refl h
incr_entry_ok k (some (hash fields)) d n h = cc
incr_entry_ok k (some (members xs)) d n h = cc

module _ (k j : Text) (ne : k ≢ j) (d : Rows) where
  incr_entry_other : (e : Option Entry) → lookup j (incr_entry k e d).1 ≡ lookup j d
  unfolding incr_entry
  incr_entry_other none = lookup-insert_ne k j _ d ne
  incr_entry_other (some (str s)) = ground (arith, lookup-insert_ne k j (str (decimal_suc s)) d ne)
  incr_entry_other (some (hash fields)) = refl
  incr_entry_other (some (members xs)) = refl

  hset_entry_other :
      (fields : List (Text × Text)) (e : Option Entry)
      → lookup j (hset_entry k fields e d).1 ≡ lookup j d
  unfolding hset_entry
  hset_entry_other fields none = lookup-insert_ne k j _ d ne
  hset_entry_other fields (some (str s)) = refl
  hset_entry_other fields (some (hash old)) = lookup-insert_ne k j _ d ne
  hset_entry_other fields (some (members xs)) = refl

  sadd_entry_other : (x : Text) (e : Option Entry) → lookup j (sadd_entry k x e d).1 ≡ lookup j d
  unfolding sadd_entry
  sadd_entry_other x none = lookup-insert_ne k j _ d ne
  sadd_entry_other x (some (str s)) = refl
  sadd_entry_other x (some (hash old)) = refl
  sadd_entry_other x (some (members xs)) = lookup-insert_ne k j _ d ne

  srem_left_other : (xs : List Text) → lookup j (srem_left k xs d) ≡ lookup j d
  unfolding srem_left
  srem_left_other [] = lookup-erase_ne k j d ne
  srem_left_other (y ∷ ys) = lookup-insert_ne k j _ d ne

  srem_entry_other : (x : Text) (e : Option Entry) → lookup j (srem_entry k x e d).1 ≡ lookup j d
  unfolding srem_entry
  srem_entry_other x none = refl
  srem_entry_other x (some (str s)) = refl
  srem_entry_other x (some (hash old)) = refl
  srem_entry_other x (some (members xs)) = srem_left_other (drop_member x xs)

expire_rows_keeps : (k : Text) (ttl : ℕ) (d : Rows) → 0 < ttl → expire_rows k ttl d ≡ d
unfolding expire_rows
expire_rows_keeps k zero d h = absurd (omega arith)
expire_rows_keeps k (suc ttl) d h = refl

module _ (k f : Text) (fields : List (Text × Text)) (d : Rows) where
  hset_entry_ok :
      (v : Text) (e : Option Entry)
      → (hset_entry k fields e d).0 ≡ ok tt
      → lookup f fields ≡ some v
      → field f (lookup k (hset_entry k fields e d).1) ≡ some v
  unfolding hset_entry
  hset_entry_ok v none h q = rw lookup-insert_self q
  hset_entry_ok v (some (str s)) h q = cc
  hset_entry_ok v (some (hash old)) h q =
      rw lookup-insert_self (lookup-append_some f v fields old q)
  hset_entry_ok v (some (members xs)) h q = cc

  hset_entry-field_other :
      (e : Option Entry)
      → lookup k d ≡ e
      → lookup f fields ≡ none
      → field f (lookup k (hset_entry k fields e d).1) ≡ field f e
  unfolding hset_entry
  hset_entry-field_other none p q = rw lookup-insert_self q
  hset_entry-field_other (some (str s)) p q = rw p
  hset_entry-field_other (some (hash old)) p q =
      rw lookup-insert_self (lookup-append_none f fields old q)
  hset_entry-field_other (some (members xs)) p q = rw p

reply_str_ok : (v : Text) (e : Option Entry) → reply_str e ≡ ok v → e ≡ some (str v)
reply_str_ok v e h = ground arith

reply_str_nil : (e : Option Entry) → reply_str e ≡ nil → e ≡ none
reply_str_nil e h = ground arith

reply_field_ok : (v : Text) (o : Option Text) → reply_field o ≡ ok v → o ≡ some v
reply_field_ok v o h = ground arith

reply_members_ok :
    (xs : List Text) (e : Option Entry)
    → reply_members e ≡ ok xs
    → (e ≡ some (members xs)) ⊎ ((e ≡ none) × (xs ≡ []))
reply_members_ok xs none h = inr (refl, ground arith)
reply_members_ok xs (some (str s)) h = cc
reply_members_ok xs (some (hash fields)) h = cc
reply_members_ok xs (some (members ys)) h = inl (ground arith)

pub sample-IsRedis : IsRedis sample
sample-IsRedis = record {
  get_ok = λ k v d h. reply_str_ok v (lookup k d) h;
  get_nil = λ k d h. reply_str_nil (lookup k d) h;
  get_absent = λ k d h. inl (ap reply_str h);
  get_present = λ k v d h. inl (ap reply_str h);
  exists_absent = λ k d h. inl (ap reply_exists h);
  exists_present = λ k e d h. inl (ap reply_exists h);
  hget_ok = λ k f v d h. reply_field_ok v (field f (lookup k d)) h;
  hget_field = λ k f v d h. inl (ap reply_field h);
  put_ok = λ k v ttl d h. lookup-insert_self k (str v) d;
  put_other = λ k v ttl d j ne. lookup-insert_ne k j (str v) d ne;
  del_ok = λ k d h. lookup-erase_self k d;
  del_other = λ k d j ne. lookup-erase_ne k j d ne;
  del_keeps_none = λ k d h. lookup-erase_self k d;
  incr_ok = λ k d n h. incr_entry_ok k (lookup k d) d n h;
  incr_other = λ k d j ne. incr_entry_other k j ne d (lookup k d);
  expire_keeps = λ k ttl d j pos. ap (lookup j) (expire_rows_keeps k ttl d pos);
  hset_ok = λ k f v fields d h q. hset_entry_ok k f fields d v (lookup k d) h q;
  hset_field_other = λ k f fields d q. hset_entry-field_other k f fields d (lookup k d) refl q;
  hset_other = λ k fields d j ne. hset_entry_other k j ne d fields (lookup k d);
  smembers_ok = λ k xs d h. reply_members_ok xs (lookup k d) h;
  sadd_other = λ k x d j ne. sadd_entry_other k j ne d x (lookup k d);
  srem_other = λ k x d j ne. srem_entry_other k j ne d x (lookup k d);
}
