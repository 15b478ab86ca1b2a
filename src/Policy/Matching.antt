-- ===== src/Policy/Matching.antt =====
-- The matching rule of permissions, against an inductive description of it.

use atlas_alpha.Prelude.{
  ◌≡◌, ap, ◌∙◌, Bool, true, ◌&&◌, String, List, [], ◌∷◌, ◌↔◌, ◌⊎◌, inl, inr, and_iff, or3_iff, Some,
  Some-map, any→Some, Some→any, contains_iff, append, starts_with, ends_with, drop_last, after,
  starts_with_split, starts_with-append, ends_with-append, ends_with_split, drop_last-append,
}
use atlas_alpha.Policy.{permission_satisfied, wildcard}

-- What a single grant covers: everything, itself, or what extends its prefix behind the colon.
pub data Covers (granted required : String) : Type 0 where
  everything : granted ≡ wildcard → Covers granted required
  itself : granted ≡ required → Covers granted required
  below :
      (p r : String)
      → granted ≡ append p ":*"
      → required ≡ append (append p ":") r
      → Covers granted required

abbrev matches_prefix : String → String → Bool
matches_prefix required g = ends_with g ":*" && starts_with required (drop_last g)

drop_last-wildcard : (p : String) → drop_last (append p ":*") ≡ append p ":"
drop_last-wildcard p = drop_last-append p ":" "*"

matches_prefix_sound : (g required : String) → matches_prefix required g ≡ true → Covers g required
matches_prefix_sound g required h =
    let (e, f) = (and_iff (ends_with g ":*") (starts_with required (drop_last g))).0 h in
    let (p, q) = ends_with_split g ":*" e in
    let stem : drop_last g ≡ append p ":" = ap drop_last q ∙ drop_last-wildcard p in
    below p (after required (append p ":")) q
      (starts_with_split required (append p ":") (rw stem at f))

matches_prefix_complete :
    (g required p r : String)
    → g ≡ append p ":*"
    → required ≡ append (append p ":") r
    → matches_prefix required g ≡ true
matches_prefix_complete g required p r e f =
    rw (e, f)
      ((and_iff _ _).1
        (ends_with-append p ":*", rw (drop_last-wildcard p) (starts_with-append (append p ":") r)))

Covers-sound :
    (granted : List String) (required : String)
    → Some (λ g. g ≡ wildcard) granted
      ⊎ (Some (λ g. g ≡ required) granted ⊎ Some (λ g. matches_prefix required g ≡ true) granted)
    → Some (λ g. Covers g required) granted
Covers-sound granted required (inl w) =
    Some-map (λ g. g ≡ wildcard) (λ g. Covers g required) granted (λ g. everything) w
Covers-sound granted required (inr (inl w)) =
    Some-map (λ g. g ≡ required) (λ g. Covers g required) granted (λ g. itself) w
Covers-sound granted required (inr (inr w)) =
    Some-map (λ g. matches_prefix required g ≡ true) (λ g. Covers g required) granted
      (λ g. matches_prefix_sound g required) w

Covers-complete :
    (granted : List String) (required : String)
    → Some (λ g. Covers g required) granted
    → Some (λ g. g ≡ wildcard) granted
      ⊎ (Some (λ g. g ≡ required) granted ⊎ Some (λ g. matches_prefix required g ≡ true) granted)
Covers-complete [] required h = elim h [ ]
Covers-complete (g ∷ granted) required (inl (everything e)) = inl (inl e)
Covers-complete (g ∷ granted) required (inl (itself e)) = inr (inl (inl e))
Covers-complete (g ∷ granted) required (inl (below p r e f)) =
    inr (inr (inl (matches_prefix_complete g required p r e f)))
Covers-complete (g ∷ granted) required (inr h) = elim (Covers-complete granted required h) [
  | inl w ↦ inl (inr w)
  | inr (inl w) ↦ inr (inl (inr w))
  | inr (inr w) ↦ inr (inr (inr w))
]

tests_sound :
    (granted : List String) (required : String)
    → permission_satisfied granted required ≡ true
    → Some (λ g. Covers g required) granted
unfolding permission_satisfied
tests_sound granted required h = elim ((or3_iff _ _ _).0 h) [
  | inl a ↦ Covers-sound granted required (inl ((contains_iff granted wildcard).0 a))
  | inr (inl b) ↦ Covers-sound granted required (inr (inl ((contains_iff granted required).0 b)))
  | inr (inr c) ↦
      Covers-sound granted required (inr (inr (any→Some (matches_prefix required) granted c)))
]

tests_complete :
    (granted : List String) (required : String)
    → Some (λ g. Covers g required) granted
    → permission_satisfied granted required ≡ true
unfolding permission_satisfied
tests_complete granted required h = (or3_iff _ _ _).1 (elim (Covers-complete granted required h) [
  | inl a ↦ inl ((contains_iff granted wildcard).1 a)
  | inr (inl b) ↦ inr (inl ((contains_iff granted required).1 b))
  | inr (inr c) ↦ inr (inr (Some→any (matches_prefix required) granted c))
])

-- A permission is satisfied exactly when one of the granted ones covers it.
pub permission_satisfied_iff :
    (granted : List String) (required : String)
    → (permission_satisfied granted required ≡ true) ↔ Some (λ g. Covers g required) granted
permission_satisfied_iff granted required =
    (tests_sound granted required, tests_complete granted required)
