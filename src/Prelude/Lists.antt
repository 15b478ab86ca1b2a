-- ===== src/Prelude/Lists.antt =====
-- Lists measured by native numbers, tests over lists, and membership that can be matched.
use Prim.Native.Nat.{ℕ, zero, suc, ◌+◌, ◌≤◌}
use mathlib.Core.Path.{◌≡◌, refl, sym, ap, subst, ◌∙◌}
use mathlib.Core.Logic.{◌⊎◌, ◌↔◌, inl, inr}
use mathlib.Core.Bool.{Bool, true, false, ◌||◌, false≢true}
use mathlib.Core.List.{List, [], ◌∷◌, ◌++◌, append-nil, append_assoc}
use mathlib.Core.Option.{Option, none, some}
use native.Mathlib.Omega.{arith}
use atlas_alpha.Prelude.Tests.{if◌then◌else◌, Bool-cases}

module _ {ℓ} {A : Type ℓ} where
  abbrev pub length : List A → ℕ
  length [] = 0
  length (x ∷ xs) = suc (length xs)

  abbrev pub take : ℕ → List A → List A
  take zero xs = []
  take (suc n) [] = []
  take (suc n) (x ∷ xs) = x ∷ take n xs

  abbrev pub drop : ℕ → List A → List A
  drop zero xs = xs
  drop (suc n) [] = []
  drop (suc n) (x ∷ xs) = drop n xs

  -- The last element.
  abbrev pub get_last? : List A → Option A
  get_last? [] = none
  get_last? (x ∷ []) = some x
  get_last? (x ∷ y ∷ xs) = get_last? (y ∷ xs)

  -- `any(p(x) for x in xs)`
  abbrev pub any : (A → Bool) → List A → Bool
  any p [] = false
  any p (x ∷ xs) = p x || any p xs

  -- `[x for x in xs if p(x)]`
  abbrev pub keep : (A → Bool) → List A → List A
  keep p [] = []
  keep p (x ∷ xs) = let rest = keep p xs in if p x then x ∷ rest else rest

  pub get_last?-cons : (x : A) (xs : List A) → (y : A) × (get_last? (x ∷ xs) ≡ some y)
  get_last?-cons x [] = (x, refl)
  get_last?-cons x (y ∷ xs) = get_last?-cons y xs

  pub length-append : (xs ys : List A) → length (xs ++ ys) ≡ length xs + length ys
  length-append [] ys = omega arith
  length-append (x ∷ xs) ys = omega (arith, length-append xs ys)

module _ {ℓ κ} {A : Type ℓ} where
  abbrev pub All : (A → Type κ) → List A → Type κ
  All P [] = Unit
  All P (x ∷ xs) = P x × All P xs

module _ {ℓ} {A : Type ℓ} where
  -- There is an element with the property, and where it stands.
  abbrev pub Some : (A → Type 0) → List A → Type 0
  Some P [] = ⊥
  Some P (x ∷ xs) = P x ⊎ Some P xs

  pub Some-map : (P Q : A → Type 0) (xs : List A) → ((x : A) → P x → Q x) → Some P xs → Some Q xs
  Some-map P Q [] f h = elim h [ ]
  Some-map P Q (x ∷ xs) f (inl p) = inl (f x p)
  Some-map P Q (x ∷ xs) f (inr r) = inr (Some-map P Q xs f r)

  pub any→Some : (p : A → Bool) (xs : List A) → any p xs ≡ true → Some (λ x. p x ≡ true) xs
  any→Some p [] h = absurd (false≢true h)
  any→Some p (x ∷ xs) h = elim (Bool-cases (p x)) [
    | inl e ↦ inl e
    | inr e ↦ inr (any→Some p xs (rw e at h))
  ]

  pub Some→any : (p : A → Bool) (xs : List A) → Some (λ x. p x ≡ true) xs → any p xs ≡ true
  Some→any p [] h = elim h [ ]
  Some→any p (x ∷ xs) (inl e) = rw e
  Some→any p (x ∷ xs) (inr r) = ground (arith, Some→any p xs r)

  pub Some-append : (P : A → Type 0) (xs ys : List A) → Some P (xs ++ ys) ↔ (Some P xs ⊎ Some P ys)
  Some-append P [] ys = (λ h. inr h, λ h. elim h [ inl e ↦ absurd e | inr r ↦ r ])
  Some-append P (x ∷ xs) ys = (
    λ h. elim h [
      | inl p ↦ inl (inl p)
      | inr r ↦ elim ((Some-append P xs ys).0 r) [ inl q ↦ inl (inr q) | inr q ↦ inr q ]
    ],
    λ h. elim h [
      | inl q ↦ elim q [ inl p ↦ inl p | inr r ↦ inr ((Some-append P xs ys).1 (inl r)) ]
      | inr r ↦ inr ((Some-append P xs ys).1 (inr r))
    ],
  )

  pub any-append : (p : A → Bool) (xs ys : List A) → any p (xs ++ ys) ≡ (any p xs || any p ys)
  any-append p [] ys = refl
  any-append p (x ∷ xs) ys = ground (arith, any-append p xs ys)

  pub any-concat : (p : A → Bool) (xs : List A) (x : A) → p x ≡ true → any p (xs ++ x ∷ []) ≡ true
  any-concat p [] x h = ground arith
  any-concat p (y ∷ xs) x h = ground (arith, any-concat p xs x h)

  -- The second list begins with the first.
  abbrev pub Extends : List A → List A → Type ℓ
  Extends xs ys = (more : List A) × (ys ≡ xs ++ more)

  pub Extends-refl : (xs : List A) → Extends xs xs
  Extends-refl xs = ([], sym (append-nil xs))

  pub Extends-trans : (xs ys zs : List A) → Extends xs ys → Extends ys zs → Extends xs zs
  Extends-trans xs ys zs (a, e) (b, f) = (a ++ b, f ∙ rw e (append_assoc xs a b))

module _ {A : Type 0} where
  -- `x in xs`, with the place.
  abbrev pub In : A → List A → Type 0
  In x xs = Some (λ y. y ≡ x) xs

  module _ (p : A → Bool) (x : A) where
    keep-yes : (y : A) (xs : List A) → p y ≡ true → keep p (y ∷ xs) ≡ y ∷ keep p xs
    keep-yes y xs e = rw e

    keep-no : (y : A) (xs : List A) → p y ≡ false → keep p (y ∷ xs) ≡ keep p xs
    keep-no y xs e = rw e

    pub In-keep_to : (xs : List A) → In x (keep p xs) → (p x ≡ true) × In x xs
    In-keep_to [] h = elim h [ ]
    In-keep_to (y ∷ xs) h = elim (Bool-cases (p y)) [
      | inl e ↦ elim (subst (In x) (keep-yes y xs e) h) [
        | inl same ↦ (subst (λ z. p z ≡ true) same e, inl same)
        | inr r ↦ let (q, t) = In-keep_to xs r in (q, inr t)
      ]
      | inr e ↦ let (q, t) = In-keep_to xs (subst (In x) (keep-no y xs e) h) in (q, inr t)
    ]

    pub In-keep_of : (xs : List A) → p x ≡ true → In x xs → In x (keep p xs)
    In-keep_of [] q h = elim h [ ]
    In-keep_of (y ∷ xs) q (inl same) =
        subst (In x) (sym (keep-yes y xs (subst (λ z. p z ≡ true) (sym same) q))) (inl same)
    In-keep_of (y ∷ xs) q (inr r) = elim (Bool-cases (p y)) [
      | inl e ↦ subst (In x) (sym (keep-yes y xs e)) (inr (In-keep_of xs q r))
      | inr e ↦ subst (In x) (sym (keep-no y xs e)) (In-keep_of xs q r)
    ]

  pub In-take : (n : ℕ) (x : A) (xs : List A) → In x (take n xs) → In x xs
  In-take zero x xs h = elim h [ ]
  In-take (suc n) x [] h = h
  In-take (suc n) x (y ∷ xs) (inl e) = inl e
  In-take (suc n) x (y ∷ xs) (inr h) = inr (In-take n x xs h)

  pub take_all : (n : ℕ) (xs : List A) → length xs ≤ n → take n xs ≡ xs
  take_all zero [] h = refl
  take_all zero (x ∷ xs) h = absurd (omega arith)
  take_all (suc n) [] h = refl
  take_all (suc n) (x ∷ xs) h = ap (λ l. x ∷ l) (take_all n xs (omega arith))

  pub length-take-le : (n : ℕ) (xs : List A) → length (take n xs) ≤ n
  length-take-le zero xs = omega arith
  length-take-le (suc n) [] = omega arith
  length-take-le (suc n) (x ∷ xs) = omega (arith, length-take-le n xs)
