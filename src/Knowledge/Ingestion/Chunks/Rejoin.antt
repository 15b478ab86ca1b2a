-- ===== src/Knowledge/Ingestion/Chunks/Rejoin.antt =====
-- The chunks of a text cover it.

use text.Mathlib.TextLemmas.{nil-append, cons-append, append-nil}
use atlas_alpha.Prelude.{
  eq_iff, eq_refl, ℕ, zero, suc, ◌+◌, ◌-◌, ◌≤◌, ◌<◌, leb, ◌≡◌, refl, sym, ap, ◌∙◌, subst, false,
  String, List, [], ◌∷◌, ◌==◌, append, strip, arith, All, Bool-cases, inl, inr,
}
use atlas_alpha.Prelude.Result.{ok}
use atlas_alpha.Knowledge.Ingestion.Chunks.{
  text_length, text_take, text_drop, windows, chunks_of, chunk_text,
}

take-append-drop : (n : ℕ) (s : String) → append (text_take n s) (text_drop n s) ≡ s
unfolding text_take text_drop
take-append-drop zero s = nil-append s
take-append-drop (suc n) String.[] = nil-append ""
take-append-drop (suc n) (String.◌∷◌ c s) =
    cons-append c (text_take n s) (text_drop n s) ∙ ap (String.◌∷◌ c) (take-append-drop n s)

drop-empty : (n : ℕ) → text_drop n "" ≡ ""
unfolding text_drop
drop-empty zero = refl
drop-empty (suc n) = refl

suc_add : (n m : ℕ) → suc (n + m) ≡ suc n + m
suc_add n m = omega arith

drop-drop : (m n : ℕ) (s : String) → text_drop m (text_drop n s) ≡ text_drop (n + m) s
unfolding text_drop
drop-drop m zero s = ap (λ k. text_drop k s) (omega arith)
drop-drop m (suc n) String.[] = drop-empty m ∙ sym (drop-empty (suc n + m))
drop-drop m (suc n) (String.◌∷◌ c s) =
    drop-drop m n s ∙ ap (λ k. text_drop k (String.◌∷◌ c s)) (suc_add n m)

drop-append-take :
    (k n : ℕ) (s t : String)
    → k ≤ text_length (text_take n s)
    → text_drop k (append (text_take n s) t) ≡ append (text_drop k (text_take n s)) t
unfolding text_take text_drop text_length
drop-append-take zero n s t h = refl
drop-append-take (suc k) zero s t h = absurd (omega arith)
drop-append-take (suc k) (suc n) String.[] t h = absurd (omega arith)
drop-append-take (suc k) (suc n) (String.◌∷◌ c s) t h =
    ap (text_drop (suc k)) (cons-append c (text_take n s) t)
    ∙ drop-append-take k n s t (omega arith)

length-take-ge :
    (n : ℕ) (s : String) (k : ℕ) → k ≤ n → k ≤ text_length s → k ≤ text_length (text_take n s)
unfolding text_take text_length
length-take-ge zero s k h i = omega arith
length-take-ge (suc n) String.[] k h i = omega arith
length-take-ge (suc n) (String.◌∷◌ c s) zero h i = omega arith
length-take-ge (suc n) (String.◌∷◌ c s) (suc k) h i =
    let q = length-take-ge n s k (omega arith) (omega arith) in omega arith

length-take-le : (n : ℕ) (s : String) → text_length (text_take n s) ≤ n
unfolding text_take text_length
length-take-le zero s = omega arith
length-take-le (suc n) String.[] = omega arith
length-take-le (suc n) (String.◌∷◌ c s) = let q = length-take-le n s in omega arith

length-drop : (n : ℕ) (s : String) → text_length (text_drop n s) ≡ text_length s - n
unfolding text_drop text_length
length-drop zero s = omega arith
length-drop (suc n) String.[] = omega arith
length-drop (suc n) (String.◌∷◌ c s) = let q = length-drop n s in omega arith

take_all : (n : ℕ) (s : String) → text_length s ≤ n → text_take n s ≡ s
unfolding text_take text_length
take_all zero String.[] h = refl
take_all zero (String.◌∷◌ c s) h = absurd (omega arith)
take_all (suc n) String.[] h = refl
take_all (suc n) (String.◌∷◌ c s) h = ap (String.◌∷◌ c) (take_all n s (omega arith))

-- The chunks of a text put together again: all of the first, and of each later one what follows the
-- overlap.
abbrev tails : ℕ → List String → String
tails overlap [] = ""
tails overlap (c ∷ cs) = append (text_drop overlap c) (tails overlap cs)

abbrev pub rejoin : ℕ → List String → String
rejoin overlap [] = ""
rejoin overlap (c ∷ cs) = append c (tails overlap cs)

module _ (size overlap : ℕ) (small : overlap < size) where
  windows-last :
      (fuel : ℕ) (rest : String)
      → text_length rest ≤ size
      → windows (suc fuel) size (size - overlap) rest ≡ text_take size rest ∷ []
  unfolding windows
  windows-last fuel rest h = ground arith

  windows-more :
      (fuel : ℕ) (rest : String)
      → size < text_length rest
      → windows (suc fuel) size (size - overlap) rest
        ≡ text_take size rest ∷ windows fuel size (size - overlap) (text_drop (size - overlap) rest)
  unfolding windows
  windows-more fuel rest h = ground arith

  -- What the loop leaves: the first window, and later ones that continue it to the whole text.
  Continues : String → List String → Type 0
  Continues rest chunks =
      (more : List String) × (chunks ≡ text_take size rest ∷ more)
      × (append (text_take size rest) (tails overlap more) ≡ rest)
      × All (λ c. text_length c ≤ size) more

  -- A window of what is left holds more than the overlap.
  window-long :
      (rest : String)
      → size < text_length rest
      → overlap ≤ text_length (text_take size (text_drop (size - overlap) rest))
  window-long rest long =
      let left = length-drop (size - overlap) rest in
      length-take-ge size (text_drop (size - overlap) rest) overlap (omega arith) (omega arith)

  tails-overlap :
      (rest : String) (more : List String)
      → size < text_length rest
      → append (text_take size (text_drop (size - overlap) rest)) (tails overlap more)
        ≡ text_drop (size - overlap) rest
      → tails overlap (text_take size (text_drop (size - overlap) rest) ∷ more)
        ≡ text_drop size rest
  tails-overlap rest more long whole =
      sym (
        drop-append-take overlap size (text_drop (size - overlap) rest) (tails overlap more)
          (window-long rest long))
      ∙ ap (text_drop overlap) whole
      ∙ drop-drop overlap (size - overlap) rest
      ∙ ap (λ k. text_drop k rest) (omega arith)

  Continues-more :
      (fuel : ℕ) (rest : String)
      → size < text_length rest
      → Continues
          (text_drop (size - overlap) rest)
          (windows fuel size (size - overlap) (text_drop (size - overlap) rest))
      → Continues rest (windows (suc fuel) size (size - overlap) rest)
  unfolding Continues
  Continues-more fuel rest long (more, e, whole, bounded) =
      let next = text_take size (text_drop (size - overlap) rest) in
      (
        next ∷ more,
        windows-more fuel rest long ∙ ap (λ cs. text_take size rest ∷ cs) e,
        ap (append (text_take size rest)) (tails-overlap rest more long whole)
            ∙ take-append-drop size rest,
        (length-take-le size (text_drop (size - overlap) rest), bounded),
      )

  windows-Continues :
      (fuel : ℕ) (rest : String)
      → text_length rest ≤ fuel
      → 0 < fuel
      → Continues rest (windows fuel size (size - overlap) rest)
  unfolding Continues
  windows-Continues zero rest h i = absurd (omega arith)
  windows-Continues (suc fuel) rest h i = elim (Bool-cases (leb (text_length rest) size)) [
    | inl e ↦
        let short : text_length rest ≤ size = ground arith in
        (
          [],
          windows-last fuel rest short,
          append-nil (text_take size rest) ∙ take_all size rest short,
          tt,
        )
    | inr e ↦
        let long : size < text_length rest = ground arith in
        let left = length-drop (size - overlap) rest in
        Continues-more fuel rest long
          (windows-Continues fuel (text_drop (size - overlap) rest) (omega arith) (omega arith))
  ]

  Continues-rejoin :
      (rest : String) (chunks : List String)
      → Continues rest chunks
      → (rejoin overlap chunks ≡ rest) × All (λ c. text_length c ≤ size) chunks
  unfolding Continues
  Continues-rejoin rest chunks (more, e, whole, bounded) = (
    ap (rejoin overlap) e ∙ whole,
    subst (All (λ c. text_length c ≤ size)) (sym e) (length-take-le size rest, bounded),
  )

length-pos : (s : String) → (s == "") ≡ false → 0 < text_length s
unfolding text_length
length-pos String.[] h = let bad = eq_refl "" in cc
length-pos (String.◌∷◌ c s) h = omega arith

-- Where the window is longer than the overlap, chunking does not raise, no chunk is longer than the
-- window, and the chunks put together again, each later one without the overlap, are the stripped text.
pub chunk_text-rejoin :
    (text : String) (size overlap : ℕ)
    → overlap < size
    → (chunks : List String) × (chunk_text text size overlap ≡ ok chunks)
      × (rejoin overlap chunks ≡ strip text)
      × All (λ c. text_length c ≤ size) chunks
unfolding chunk_text
chunk_text-rejoin text size overlap small =
    (chunks_of size overlap (strip text), ground arith, covers.0, covers.1)
  where
    covers :
        (rejoin overlap (chunks_of size overlap (strip text)) ≡ strip text)
        × All (λ c. text_length c ≤ size) (chunks_of size overlap (strip text))
    covers = elim (Bool-cases (strip text == "")) [
      | inl e ↦ rw e (sym ((eq_iff (strip text) "").0 e), tt)
      | inr e ↦ elim (Bool-cases (leb (text_length (strip text)) size)) [
        | inl f ↦ rw (e, f) (append-nil (strip text), (ground arith, tt))
        | inr f ↦
            rw (e, f)
              (Continues-rejoin size overlap small (strip text) _ (
                windows-Continues size overlap small (text_length (strip text)) (strip text)
                  (omega arith) (length-pos (strip text) e)))
      ]
    ]
