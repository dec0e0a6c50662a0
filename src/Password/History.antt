-- ===== src/Password/History.antt =====
-- A password that has just been stored in the history is refused.
use graaa_golang_auth_api.Common.{
  ℕ, zero, suc, ◌≤◌, ◌<◌, ◌≡◌, true, false, some, List, [], ◌∷◌, Text, is_empty, length, take,
  arith,
}
use graaa_golang_auth_api.Password.{
  Library, stored_hashes, check_password_history, append_password_history,
}

-- What is written to the history reads back, and is not the empty text.
pub record IsLibrary (lib : Library) : Type 0 where
  pub unmarshal_marshal : (hashes : List Text) → lib.unmarshal (lib.marshal hashes) ≡ some hashes
  pub marshal_nonempty : (hashes : List Text) → is_empty (lib.marshal hashes) ≡ false

take-bound : (n : ℕ) (xs : List Text) → length (take n xs) ≤ n
take-bound zero xs = omega arith
take-bound (suc n) [] = omega arith
take-bound (suc n) (x ∷ xs) = let rest = take-bound n xs in omega arith

stored_hashes-marshal :
    (lib : Library) (laws : IsLibrary lib) (hashes : List Text)
    → stored_hashes lib (lib.marshal hashes) ≡ hashes
unfolding stored_hashes
stored_hashes-marshal lib laws hashes =
    ground (arith, laws.marshal_nonempty hashes, laws.unmarshal_marshal hashes)

module _ (lib : Library) (laws : IsLibrary lib) (history new_hash : Text) (n : ℕ) where
  append_kept :
      append_password_history lib history new_hash (suc n)
      ≡ lib.marshal (new_hash ∷ take n (stored_hashes lib history))
  unfolding append_password_history
  append_kept = ground arith

  stored_hashes-append :
      stored_hashes lib (append_password_history lib history new_hash (suc n))
      ≡ new_hash ∷ take n (stored_hashes lib history)
  stored_hashes-append =
      rw append_kept
        (stored_hashes-marshal lib laws (new_hash ∷ take n (stored_hashes lib history)))

  append_nonempty : is_empty (append_password_history lib history new_hash (suc n)) ≡ false
  append_nonempty =
      rw append_kept (laws.marshal_nonempty (new_hash ∷ take n (stored_hashes lib history)))

-- Once the hash of a new password is in the history, with some hashes kept, the history holds no
-- more hashes than are to be kept, and the password is refused by every check of the history that
-- looks at one hash or more, where bcrypt says that the hash is that of the password.
pub append_password_history-refuses :
    (lib : Library) (laws : IsLibrary lib) (password history new_hash : Text)
    (keep_count history_count : ℕ)
    → 0 < keep_count
    → 0 < history_count
    → lib.same_password new_hash password ≡ true
    → (length (stored_hashes lib (append_password_history lib history new_hash keep_count))
        ≤ keep_count)
      × (check_password_history lib password
            (append_password_history lib history new_hash keep_count)
            history_count
          ≡ false)
unfolding check_password_history
append_password_history-refuses lib laws password history new_hash zero m keep look same =
    absurd (omega arith)
append_password_history-refuses lib laws password history new_hash (suc n) zero keep look same =
    absurd (omega arith)
append_password_history-refuses lib laws password history new_hash (suc n) (suc m) keep look same =
    let stored = stored_hashes-append lib laws history new_hash n in
    let kept = take-bound n (stored_hashes lib history) in
    (
      rw stored (omega (arith, kept)),
      ground (arith, append_nonempty lib laws history new_hash n, stored),
    )
