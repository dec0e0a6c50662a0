-- ===== src/Database/Laws.antt =====
-- What queries find after updates and deletions.
use graaa_golang_auth_api.Common.{
  ◌≡◌, refl, Bool, true, Option, none, some, List, [], ◌∷◌, All, if◌then◌else◌, arith,
}
use graaa_golang_auth_api.Redis.Interface.{ok}
use graaa_golang_auth_api.Database.{
  Fate, served, refused, lost, first_where, first, update_where, delete_where, written,
}

abbrev pub OptionAll : {A : Type 0} → (A → Type 0) → Option A → Type 0
OptionAll P none = Unit
OptionAll P (some x) = P x

module _ {A : Type 0} (p : A → Bool) (q : A → Bool) (f : A → A) where
  abbrev updated : Option A → Option A
  updated none = none
  updated (some x) = some (if q x then f x else x)

  -- An update that keeps the condition of a query changes the row that the query finds, or not.
  pub first_where-update_where :
      ((x : A) → p (f x) ≡ p x)
      → (xs : List A) → first_where p (update_where q f xs) ≡ updated (first_where p xs)
  first_where-update_where keeps [] = refl
  first_where-update_where keeps (x ∷ xs) =
      ground (arith, keeps x, first_where-update_where keeps xs)

pub All-implies :
    {A : Type 0} {P Q : A → Type 0} → ((x : A) → P x → Q x) → (xs : List A) → All P xs → All Q xs
All-implies f [] h = tt
All-implies f (x ∷ xs) (h, hs) = (f x h, All-implies f xs hs)

pub written-All :
    {A : Type 0} (P : A → Type 0) (fate : Fate) (old new : List A)
    → All P old
    → All P new
    → All P (written fate old new)
written-All P served old new o n = n
written-All P refused old new o n = o
written-All P lost old new o n = n

module _ {A : Type 0} (P : A → Type 0) (p : A → Bool) where
  pub All-update_where :
      (f : A → A)
      → ((x : A) → P x → P (f x))
      → (xs : List A) → All P xs
      → All P (update_where p f xs)
  All-update_where f keeps [] h = tt
  All-update_where f keeps (x ∷ xs) (h, hs) =
      let rest = All-update_where f keeps xs hs in ground (arith, keeps x h, rest)

  pub All-delete_where : (xs : List A) → All P xs → All P (delete_where p xs)
  All-delete_where [] h = tt
  All-delete_where (x ∷ xs) (h, hs) = let rest = All-delete_where xs hs in ground (arith, rest)

  pub All-first_where : (xs : List A) → All P xs → OptionAll P (first_where p xs)
  All-first_where [] h = tt
  All-first_where (x ∷ xs) (h, hs) = let rest = All-first_where xs hs in ground (arith, rest)

pub first_where-satisfies :
    {A : Type 0} (p : A → Bool) (x : A) (xs : List A) → first_where p xs ≡ some x → p x ≡ true
first_where-satisfies p x [] h = cc
first_where-satisfies p x (y ∷ xs) h = ground (arith, first_where-satisfies p x xs)

pub first-ok :
    {A : Type 0} (fate : Fate) (p : A → Bool) (xs : List A) (x : A)
    → first fate p xs ≡ ok x
    → first_where p xs ≡ some x
first-ok served p xs x h = ground arith
first-ok refused p xs x h = cc
first-ok lost p xs x h = cc
