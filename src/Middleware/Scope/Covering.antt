-- ===== src/Middleware/Scope/Covering.antt =====
-- What `HasScope` grants, stated apart from how it takes the texts to pieces.
use graaa_golang_auth_api.Common.{
  ◌≡◌, refl, ap, ◌∙◌, ◌≢◌, ◌↔◌, ◌⊎◌, inl, inr, true, ◌&&◌, List, [], ◌∷◌, ◌++◌, Text, codes,
  text_eq_iff, has_suffix, trim_suffix, split_two, has_suffix-append, trim_suffix-append,
  trim_suffix_lem, split_two-append, split_two-some, any, All, Some, arith, Option-cases,
}
use graaa_golang_auth_api.Middleware.Scope.{scopes, same_resource, covered_by, has_scope}

-- The scope is `*`, or the required one, or `resource:*` for the resource that stands before the
-- first colon of the required one.
abbrev pub Covers : Text → Text → Type 0
Covers required g =
    (g ≡ codes "*")
    ⊎ (g ≡ required)
    ⊎ ((resource : Text) × (action : Text) × (g ≡ resource ++ codes ":*")
        × (required ≡ resource ++ (b':' ∷ action))
        × All (λ c. c ≢ b':') resource)

wildcard_sound :
    (required g : Text)
    → has_suffix g (codes ":*") ≡ true
    → same_resource (trim_suffix g (codes ":*")) (split_two b':' required) ≡ true
    → Covers required g
unfolding same_resource
wildcard_sound required g suffix same = elim (Option-cases (split_two b':' required).1) [
  | inl none_ ↦ absurd (cc (rw none_ at same))
  | inr (action, some_) ↦
      let (whole, apart) = split_two-some b':' required action some_ in
      let part =
        (text_eq_iff (trim_suffix g (codes ":*")) (split_two b':' required).0).0
          (rw some_ at same) in
      inr (
        inr (
          (split_two b':' required).0,
          action,
          trim_suffix-append g (codes ":*") suffix ∙ ap (λ x. x ++ codes ":*") part,
          whole,
          apart,
        ))
]

wildcard_complete :
    (required g resource action : Text)
    → g ≡ resource ++ codes ":*"
    → required ≡ resource ++ (b':' ∷ action)
    → All (λ c. c ≢ b':') resource
    → (has_suffix g (codes ":*")
        && same_resource (trim_suffix g (codes ":*")) (split_two b':' required))
      ≡ true
unfolding same_resource
wildcard_complete required g resource action granted needed apart =
    rw
      (
        granted,
        needed,
        has_suffix-append resource (codes ":*"),
        trim_suffix_lem resource (codes ":*"),
        split_two-append b':' resource action apart,
      )
      ((text_eq_iff resource resource).1 refl)

covered_by_iff : (required g : Text) → (covered_by required g ≡ true) ↔ Covers required g
unfolding covered_by
covered_by_iff required g = (
  λ h. ground (arith, text_eq_iff g (codes "*"), text_eq_iff g required, wildcard_sound required g),
  λ covers. elim covers [
    | inl star ↦ ground (arith, text_eq_iff g (codes "*"))
    | inr (inl same) ↦ ground (arith, text_eq_iff g required)
    | inr (inr (resource, action, granted, needed, apart)) ↦
        ground (arith, wildcard_complete required g resource action granted needed apart)
  ],
)

any_iff :
    (required : Text) (granted : List Text)
    → (any (covered_by required) granted ≡ true) ↔ Some (Covers required) granted
any_iff required [] = (λ h. absurd (cc h), λ none_. elim none_ [ ])
any_iff required (g ∷ granted) =
    let (there, back) = any_iff required granted in
    let (covers, covered) = covered_by_iff required g in
    ground (arith, there, back, covers, covered)

-- A key with these scopes has the required one exactly when one of its scopes covers it: `*`, the
-- scope itself, or `resource:*` where the required scope is `resource:action`.
pub has_scope_iff :
    (required : Text) (granted : List Text)
    → (has_scope (scopes granted) required ≡ true) ↔ Some (Covers required) granted
unfolding has_scope
has_scope_iff required [] = (λ h. absurd (cc h), λ none_. elim none_ [ ])
has_scope_iff required (g ∷ granted) = any_iff required (g ∷ granted)
