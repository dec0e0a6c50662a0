-- ===== src/Redis/Tokens/MetaKey.antt =====
-- The metadata key of a session reads back as the identifiers that it was built from.
use graaa_golang_auth_api.Common.{
  ℕ, ◌≡◌, refl, ◌≢◌, some, List, [], ◌∷◌, ◌++◌, Text, arith, split, split_step,
}
use graaa_golang_auth_api.Redis.Keys.{session_meta_key, NoColon}
use graaa_golang_auth_api.Redis.Tokens.{parse_session_meta_key}

split_step-ne-nil : (sep c : ℕ) (ps : List Text) → ps ≢ [] → split_step sep c ps ≢ []
unfolding split_step
split_step-ne-nil sep c [] h = absurd (h refl)
split_step-ne-nil sep c (p ∷ ps) h = ground arith

split-ne-nil : (sep : ℕ) (s : Text) → split sep s ≢ []
unfolding split
split-ne-nil sep [] = cc
split-ne-nil sep (c ∷ s) = split_step-ne-nil sep c (split sep s) (split-ne-nil sep s)

split_step_sep : (ps : List Text) → ps ≢ [] → split_step b':' b':' ps ≡ [] ∷ ps
unfolding split_step
split_step_sep [] h = absurd (h refl)
split_step_sep (p ∷ ps) h = refl

-- Splitting at the first colon.
split-colon : (s rest : Text) → NoColon s → split b':' (s ++ (b':' ∷ rest)) ≡ s ∷ split b':' rest
unfolding split split_step
split-colon [] rest h = split_step_sep (split b':' rest) (split-ne-nil b':' rest)
split-colon (c ∷ s) rest h = rw (split-colon s rest h.1) (ground (arith, h.0))

split-NoColon : (s : Text) → NoColon s → split b':' s ≡ s ∷ []
unfolding split split_step
split-NoColon [] h = refl
split-NoColon (c ∷ s) h = rw (split-NoColon s h.1) (ground (arith, h.0))

-- Where no identifier holds a colon, as UUIDs do not, the key gives the three identifiers back.
pub parse_session_meta_key-round_trip :
    (app user sid : Text)
    → NoColon app
    → NoColon user
    → NoColon sid
    → parse_session_meta_key (session_meta_key app user sid) ≡ some (app, user, sid)
unfolding parse_session_meta_key session_meta_key
parse_session_meta_key-round_trip app user sid p q h =
    rw (split-colon app (user ++ (b':' ∷ sid)) p)
      (rw (split-colon user sid q) (rw (split-NoColon sid h)))
