-- ===== src/Oidc/RedirectUris.antt =====
-- The redirect URIs of a client: isRedirectURIAllowed against the JSON array that is stored.
use mathlib.Core.List.{reverse-append, reverse-reverse}
use graaa_golang_auth_api.Common.{
  ◌≡◌, refl, ◌≢◌, true, false, List, [], ◌∷◌, ◌++◌, Text, text_eq, is_empty, length, any, map, All,
  split, join, trim, trim_space, is_space, has_prefix, has_suffix-append, split-join, All-append,
  trim_left, Without, trim-edges, trim-quoted, leb, arith,
}
use graaa_golang_auth_api.Oidc.{is_redirect_uri_allowed, quote, inner}

abbrev quoted : Text → Text
quoted uri = b'"' ∷ (uri ++ (b'"' ∷ []))

-- The JSON array of URIs that need no escape.
abbrev pub json_array : List Text → Text
json_array uris = b'[' ∷ (join (b',' ∷ []) (map quoted uris) ++ (b']' ∷ []))

-- A URI without a comma or a double quote.
abbrev pub Plain : Text → Type 0
Plain uri = Without b',' uri × All (λ c. quote c ≡ false) uri

trim_space-array : (s : Text) → trim_space (b'[' ∷ (s ++ (b']' ∷ []))) ≡ b'[' ∷ (s ++ (b']' ∷ []))
unfolding trim_space is_space
trim_space-array s = trim-edges is_space b'[' b']' s refl refl

trim-quoted_part : (uri : Text) → Plain uri → trim quote (trim_space (quoted uri)) ≡ uri
unfolding trim_space is_space
trim-quoted_part uri (commas, quotes) =
    rw (trim-edges is_space b'"' b'"' uri refl refl) (trim-quoted quote b'"' uri refl quotes)

inner-array : (s : Text) → inner (b'[' ∷ (s ++ (b']' ∷ []))) ≡ s
inner-array s = rw (reverse-append s (b']' ∷ [])) (reverse-reverse s)

long_enough : (s : Text) → leb 2 (length (b'[' ∷ (s ++ (b']' ∷ [])))) ≡ true
long_enough [] = refl
long_enough (c ∷ s) = ground arith

Without-quoted : (uri : Text) → Without b',' uri → Without b',' (quoted uri)
Without-quoted uri h = (
  (λ e. omega (arith, e)),
  All-append (λ c. c ≢ b',') uri (b'"' ∷ []) h ((λ e. omega (arith, e)), tt),
)

Without-parts : (uris : List Text) → All Plain uris → All (Without b',') (map quoted uris)
Without-parts [] h = tt
Without-parts (u ∷ us) (h, hs) = (Without-quoted u h.0, Without-parts us hs)

same_parts :
    (uri : Text) (uris : List Text)
    → All Plain uris
    → any (λ part. text_eq (trim quote (trim_space part)) uri) (map quoted uris)
      ≡ any (λ u. text_eq u uri) uris
same_parts uri [] h = refl
same_parts uri (u ∷ us) (h, hs) = rw (trim-quoted_part u h) (rw (same_parts uri us hs) refl)

-- The parts that isRedirectURIAllowed looks at.
any_part :
    (uris : List Text) (uri : Text)
    → All Plain uris
    → is_empty uri ≡ false
    → any
        (λ part. text_eq (trim quote (trim_space part)) uri)
        (split b',' (join (b',' ∷ []) (map quoted uris)))
      ≡ any (λ u. text_eq u uri) uris
unfolding split join trim trim_space trim_left text_eq
any_part [] [] plain given = cc
any_part [] (c ∷ uri) plain given = refl
any_part (u ∷ us) uri plain given =
    rw (split-join b',' (quoted u) (map quoted us) (Without-parts (u ∷ us) plain))
      (same_parts uri (u ∷ us) plain)

-- Against a JSON array of URIs that have no comma and no double quote, a redirect URI that is not empty
-- is allowed just where it is one of them, character by character.
pub is_redirect_uri_allowed_exact :
    (uris : List Text) (uri : Text)
    → All Plain uris
    → is_empty uri ≡ false
    → is_redirect_uri_allowed (json_array uris) uri ≡ any (λ u. text_eq u uri) uris
unfolding is_redirect_uri_allowed has_prefix
is_redirect_uri_allowed_exact uris uri plain given =
    let text = join (b',' ∷ []) (map quoted uris) in
    rw given (
      rw (trim_space-array text) (
        rw (long_enough text) (
          rw (has_suffix-append (b'[' ∷ text) (b']' ∷ []))
            (rw (inner-array text) (any_part uris uri plain given)))))
