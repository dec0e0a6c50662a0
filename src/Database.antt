-- ===== src/Database.antt =====
-- Tables as gorm and PostgreSQL show them. A table is the list of its rows. Whether a query is
-- answered is not the program's to say: each query takes its fate as an argument. A write that is
-- lost takes effect, and the program sees an error all the same.
pub mod Laws
use graaa_golang_auth_api.Common.{Bool, Option, none, some, List, [], ◌∷◌, if◌then◌else◌}
use graaa_golang_auth_api.Redis.Interface.{Reply, ok, nil, failed}

pub data Fate : Type 0 where
  served refused lost : Fate

module _ {A : Type 0} where
  -- `Where(p).First(&row)`; `nil` is gorm.ErrRecordNotFound.
  abbrev pub first_where : (A → Bool) → List A → Option A
  first_where p [] = none
  first_where p (x ∷ xs) = if p x then some x else first_where p xs

  -- `Where(p).Updates(f)`
  abbrev pub update_where : (A → Bool) → (A → A) → List A → List A
  update_where p f [] = []
  update_where p f (x ∷ xs) = (if p x then f x else x) ∷ update_where p f xs

  -- `Where(p).Delete(…)`
  abbrev pub delete_where : (A → Bool) → List A → List A
  delete_where p [] = []
  delete_where p (x ∷ xs) = let rest = delete_where p xs in if p x then rest else x ∷ rest

  abbrev pub first_reply : Option A → Reply A
  first_reply none = nil
  first_reply (some x) = ok x

  -- A query that reads.
  abbrev pub query : Fate → A → Reply A
  query served x = ok x
  query refused x = failed
  query lost x = failed

  abbrev pub first : Fate → (A → Bool) → List A → Reply A
  first served p xs = first_reply (first_where p xs)
  first refused p xs = failed
  first lost p xs = failed

  -- A write, from the rows before to the rows after.
  abbrev pub written : Fate → A → A → A
  written served old new = new
  written refused old new = old
  written lost old new = new

abbrev pub write_reply : Fate → Reply (Unit {0})
write_reply served = ok tt
write_reply refused = failed
write_reply lost = failed
