-- ===== src/Prelude/Text.antt =====
-- Python's `startswith`, `endswith` and slicing of a `str`, by recursion on its characters, and
-- sets of strings as lists.

use Prim.Native.Char.{Char, code}
use Prim.Native.String.{String, [], ◌∷◌, ◌++◌ as append}
use mathlib.Core.Path.{◌≡◌, refl, ap, ◌∙◌, sym}
use mathlib.Core.Logic.{◌↔◌, inl, inr}
use mathlib.Core.Bool.{Bool, true, false, ◌&&◌, ◌||◌, false≢true}
use mathlib.Core.List.{List}
use native.Mathlib.Omega.{arith}
use text.Mathlib.Text.{◌==◌}
use text.Mathlib.TextEquality.{Char-path, eq_iff}
use text.Mathlib.TextLemmas.{nil-append, cons-append, cons-eq-cons}
use text.Mathlib.TextPositions.{eq_refl}
use atlas_alpha.Prelude.Tests.{nat_beq, leb, nat_beq_iff, Bool-cases, if◌then◌else◌}
use atlas_alpha.Prelude.Lists.{any, Some, Some-map, any→Some, Some→any}

char_beq : Char → Char → Bool
char_beq c d = nat_beq (code c) (code d)

char_beq_eq : (c d : Char) → char_beq c d ≡ true → c ≡ d
unfolding char_beq
char_beq_eq c d h = Char-path c d ((nat_beq_iff (code c) (code d)).0 h)

char_beq_self : (c : Char) → char_beq c c ≡ true
unfolding char_beq
char_beq_self c = (nat_beq_iff (code c) (code c)).1 refl

-- A text of one character, and what follows.
pub append-char : (t : String) (c : Char) (s : String) → c ∷ [] ≡ t → append t s ≡ c ∷ s
append-char t c s e =
    ap (λ x. append x s) (sym e) ∙ cons-append c [] s ∙ ap (λ x. c ∷ x) (nil-append s)

-- `s.startswith(t)`
unfoldable pub starts_with : String → String → Bool
unfolding char_beq
starts_with s [] = true
starts_with [] (d ∷ t) = false
starts_with (c ∷ s) (d ∷ t) = char_beq c d && starts_with s t

-- `s.endswith(t)`
unfoldable pub ends_with : String → String → Bool
ends_with [] t = [] == t
ends_with (c ∷ s) t = (c ∷ s) == t || ends_with s t

-- `s[:-1]`
unfoldable pub drop_last : String → String
drop_last [] = []
drop_last (c ∷ []) = []
drop_last (c ∷ d ∷ s) = c ∷ drop_last (d ∷ s)

-- `s[len(t):]` for a text that starts with `t`
unfoldable pub after : String → String → String
after s [] = s
after [] (d ∷ t) = []
after (c ∷ s) (d ∷ t) = after s t

pub starts_with_split : (s t : String) → starts_with s t ≡ true → s ≡ append t (after s t)
unfolding starts_with after
starts_with_split s [] h = sym (nil-append s)
starts_with_split [] (d ∷ t) h = cc
starts_with_split (c ∷ s) (d ∷ t) h = elim (Bool-cases (char_beq c d)) [
  | inl e ↦
      cons-eq-cons.1 (char_beq_eq c d e, starts_with_split s t (rw e at h))
      ∙ sym (cons-append d t (after s t))
  | inr e ↦ absurd (false≢true (rw e at h))
]

pub starts_with-append : (t r : String) → starts_with (append t r) t ≡ true
unfolding starts_with
starts_with-append [] r = refl
starts_with-append (c ∷ t) r =
    rw (cons-append c t r) (rw (char_beq_self c) (starts_with-append t r))

pub ends_with-append : (r t : String) → ends_with (append r t) t ≡ true
unfolding ends_with
ends_with-append [] [] = refl
ends_with-append [] (d ∷ t) = rw (nil-append (d ∷ t), eq_refl (d ∷ t))
ends_with-append (c ∷ r) t = rw (cons-append c r t) (ground (arith, ends_with-append r t))

-- A text that ends with `t` is a text followed by `t`.
pub ends_with_split : (s t : String) → ends_with s t ≡ true → (r : String) × (s ≡ append r t)
unfolding ends_with
ends_with_split [] t h = ([], (eq_iff [] t).0 h ∙ sym (nil-append t))
ends_with_split (c ∷ s) t h = elim (Bool-cases ((c ∷ s) == t)) [
  | inl e ↦ ([], (eq_iff (c ∷ s) t).0 e ∙ sym (nil-append t))
  | inr e ↦
      let (r, q) = ends_with_split s t (rw e at h) in
      (c ∷ r, ap (λ x. c ∷ x) q ∙ sym (cons-append c r t))
]

pub drop_last-append :
    (r : String) (c d : Char) → drop_last (append r (c ∷ d ∷ [])) ≡ append r (c ∷ [])
unfolding drop_last
drop_last-append [] c d = rw (nil-append (c ∷ d ∷ []), nil-append (c ∷ [])) refl
drop_last-append (a ∷ []) c d = simp (cons-append, nil-append)
drop_last-append (a ∷ b ∷ r) c d =
    simp cons-append (ap (λ x. a ∷ x) (simp cons-append at (drop_last-append (b ∷ r) c d)))

pub after-append : (t r : String) → after (append t r) t ≡ r
unfolding after
after-append [] r = nil-append r
after-append (c ∷ t) r = rw (cons-append c t r) (after-append t r)

-- `t in s`, for texts
unfoldable pub has_substring : String → String → Bool
has_substring [] t = starts_with [] t
has_substring (c ∷ s) t = starts_with (c ∷ s) t || has_substring s t

-- The characters that `str.split` and `str.strip` take for white space.
unfoldable pub is_space : Char → Bool
is_space c =
    let n = code c in
    (leb 9 n && leb n 13)
    || (leb 28 n && leb n 32)
    || nat_beq n 133
    || nat_beq n 160
    || nat_beq n 5760
    || (leb 8192 n && leb n 8202)
    || nat_beq n 8232
    || nat_beq n 8233
    || nat_beq n 8239
    || nat_beq n 8287
    || nat_beq n 12288

-- `s.split()`, from the word so far
split_from : String → String → List String
unfolding is_space
split_from word [] = if word == "" then List.[] else List.◌∷◌ word List.[]
split_from word (c ∷ s) =
    let closed = split_from "" s in
    let longer = split_from (append word (c ∷ [])) s in
    if is_space c then (if word == "" then closed else List.◌∷◌ word closed) else longer

unfoldable pub split_words : String → List String
unfolding split_from
split_words s = split_from "" s

-- `s.strip()`
unfoldable pub strip_left : String → String
unfolding is_space
strip_left [] = []
strip_left (c ∷ s) = let rest = strip_left s in if is_space c then rest else c ∷ s

unfoldable pub strip_right : String → String
unfolding is_space
strip_right [] = []
strip_right (c ∷ s) = let rest = strip_right s in if rest == "" && is_space c then [] else c ∷ rest

unfoldable pub strip : String → String
unfolding strip_left strip_right
strip s = strip_right (strip_left s)

-- `x in xs`
unfoldable pub contains : List String → String → Bool
contains xs x = any (λ y. y == x) xs

pub contains_iff : (xs : List String) (x : String) → (contains xs x ≡ true) ↔ Some (λ y. y ≡ x) xs
unfolding contains
contains_iff xs x = (
  λ h.
      Some-map (λ y. (y == x) ≡ true) (λ y. y ≡ x) xs (λ y. (eq_iff y x).0)
        (any→Some (λ y. y == x) xs h),
  λ h.
      Some→any (λ y. y == x) xs
        (Some-map (λ y. y ≡ x) (λ y. (y == x) ≡ true) xs (λ y. (eq_iff y x).1) h),
)
