-- ===== src/Tests/SampleJwt.antt =====
-- A signer whose tokens are the claims written out, to show that its laws can hold.
use graaa_golang_auth_api.Common.{
  ℕ, zero, suc, ◌*◌, ◌≡◌, refl, ap, Option, none, some, List, [], ◌∷◌, ◌++◌, Text, length, take,
  drop, ltb, if◌then◌else◌, arith,
}
use graaa_golang_auth_api.Redis.Sessions.{second}
use graaa_golang_auth_api.Jwt.{Claims, Jwt, IsJwt}

abbrev put_text : Text → Text → Text
put_text s rest = length s ∷ (s ++ rest)

abbrev first_text : Text → Text
first_text [] = []
first_text (n ∷ t) = take n t

abbrev after_text : Text → Text
after_text [] = []
after_text (n ∷ t) = drop n t

abbrev pub put_texts : List Text → Text
put_texts [] = []
put_texts (s ∷ ss) = put_text s (put_texts ss)

abbrev pub get_texts : ℕ → Text → List Text
get_texts zero t = []
get_texts (suc n) t = first_text t ∷ get_texts n (after_text t)

abbrev pub encode : Claims → Text
encode c =
    c.expires_at
    ∷ c.issued_at
    ∷ length c.roles
    ∷ put_text c.user_id
        (put_text c.app_id (put_text c.session_id (put_text c.token_type (put_texts c.roles))))

abbrev decode : Text → Option Claims
decode (expires ∷ issued ∷ n ∷ t) = some (record {
  user_id = first_text t;
  app_id = first_text (after_text t);
  session_id = first_text (after_text (after_text t));
  token_type = first_text (after_text (after_text (after_text t)));
  roles = get_texts n (after_text (after_text (after_text (after_text t))));
  expires_at = expires;
  issued_at = issued;
})
decode _ = none

take-length : (s t : Text) → take (length s) (s ++ t) ≡ s
take-length [] t = refl
take-length (c ∷ s) t = ap (λ x. c ∷ x) (take-length s t)

drop-length : (s t : Text) → drop (length s) (s ++ t) ≡ t
drop-length [] t = refl
drop-length (c ∷ s) t = drop-length s t

pub get_texts-put_texts : (ss : List Text) → get_texts (length ss) (put_texts ss) ≡ ss
get_texts-put_texts [] = refl
get_texts-put_texts (s ∷ ss) =
    rw (take-length s (put_texts ss), drop-length s (put_texts ss), get_texts-put_texts ss) refl

decode-encode : (c : Claims) → decode (encode c) ≡ some c
decode-encode c = simp (drop-length, take-length, get_texts-put_texts)

abbrev unexpired : ℕ → Option Claims → Option Claims
unexpired now none = none
unexpired now (some c) = if ltb now (c.expires_at * second) then some c else none

abbrev pub sample_jwt : Jwt
sample_jwt = record {
  sign = λ c. some (encode c);
  verify = λ now token. unexpired now (decode token);
}

unexpired-agrees :
    (o : Option Claims) (now later : ℕ) (c c' : Claims)
    → unexpired now o ≡ some c
    → unexpired later o ≡ some c'
    → c ≡ c'
unexpired-agrees none now later c c' h k = cc
unexpired-agrees (some x) now later c c' h k =
    let first : x ≡ c = ground arith in let second_ : x ≡ c' = ground arith in cc (first, second_)

pub sample_jwt-IsJwt : IsJwt sample_jwt
sample_jwt-IsJwt = record {
  verify_signed = λ c token now signed fresh.
      let held : encode c ≡ token = ground arith in
      rw (← held, decode-encode c) (ground (arith, fresh));
  verify_agrees = λ token now later c c' h k. unexpired-agrees (decode token) now later c c' h k;
}
