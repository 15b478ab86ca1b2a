-- ===== src/Interface/Contention/Counts.antt =====
-- How a step of one caller changes what is counted over the callers.
use atlas_alpha.Prelude.{
  ℕ, zero, suc, ◌+◌, ◌≤◌, ◌≡◌, ◌≢◌, nat_beq, refl, sym, ap, some, List, [], ◌∷◌, arith,
  if◌then◌else◌, inl, inr, Bool-cases,
}
use mathlib.Core.Option.{some-injective}
use atlas_alpha.Interface.Contention.{Phase, outside, get_at, set_at, all_outside}

-- The number of callers, where `f` is 1 on the ones that count.
unfoldable pub count : (Phase → ℕ) → List Phase → ℕ
count f [] = 0
count f (p ∷ ps) = f p + count f ps

pub count-set_at :
    (f : Phase → ℕ) (c : ℕ) (p q : Phase) (ps : List Phase)
    → get_at c ps ≡ some p
    → count f (set_at c q ps) + f p ≡ count f ps + f q
unfolding count get_at set_at
count-set_at f c p q [] h = cc
count-set_at f zero p q (r ∷ ps) h = let same = ap f (some-injective r p h) in omega (arith, same)
count-set_at f (suc c) p q (r ∷ ps) h = omega (arith, count-set_at f c p q ps h)

pub count-get_at :
    (f : Phase → ℕ) (c : ℕ) (p : Phase) (ps : List Phase) → get_at c ps ≡ some p → f p ≤ count f ps
unfolding count get_at
count-get_at f c p [] h = cc
count-get_at f zero p (r ∷ ps) h = let same = ap f (some-injective r p h) in omega (arith, same)
count-get_at f (suc c) p (r ∷ ps) h = omega (arith, count-get_at f c p ps h)

-- Two callers count twice.
pub two_count :
    (f : Phase → ℕ) (c d : ℕ) (p q : Phase) (ps : List Phase)
    → c ≢ d
    → get_at c ps ≡ some p
    → get_at d ps ≡ some q
    → f p + f q ≤ count f ps
unfolding count get_at
two_count f c d p q [] n h k = cc
two_count f zero zero p q (r ∷ ps) n h k = absurd (n refl)
two_count f zero (suc d) p q (r ∷ ps) n h k =
    let same = ap f (some-injective r p h) in omega (arith, same, count-get_at f d q ps k)
two_count f (suc c) zero p q (r ∷ ps) n h k =
    let same = ap f (some-injective r q k) in omega (arith, same, count-get_at f c p ps h)
two_count f (suc c) (suc d) p q (r ∷ ps) n h k =
    omega (arith, two_count f c d p q ps (λ e. n (ap suc e)) h k)

-- Some caller counts.
pub someone_counts :
    (f : Phase → ℕ) (ps : List Phase)
    → 1 ≤ count f ps
    → (c : ℕ) × (p : Phase) × (get_at c ps ≡ some p) × (1 ≤ f p)
unfolding count get_at
someone_counts f [] h = absurd (omega arith)
someone_counts f (p ∷ ps) h = elim (Bool-cases (nat_beq (f p) 0)) [
  | inl e ↦
      let (c, q, there, counts) = someone_counts f ps (ground (arith, e, h)) in
      (suc c, q, there, counts)
  | inr e ↦ (0, p, refl, ground (arith, e))
]

pub nobody_counts :
    (f : Phase → ℕ) (ps : List Phase)
    → ((c : ℕ) (p : Phase) → get_at c ps ≡ some p → f p ≡ 0)
    → count f ps ≡ 0
unfolding count get_at
nobody_counts f [] h = refl
nobody_counts f (p ∷ ps) h = omega (arith, h 0 p refl, nobody_counts f ps (λ c q e. h (suc c) q e))

pub get_at-set_at :
    (c d : ℕ) (p q : Phase) (ps : List Phase)
    → get_at c ps ≡ some p
    → get_at d (set_at c q ps) ≡ (if nat_beq c d then some q else get_at d ps)
unfolding get_at set_at
get_at-set_at c d p q [] h = cc
get_at-set_at zero zero p q (r ∷ ps) h = ground arith
get_at-set_at zero (suc d) p q (r ∷ ps) h = ground arith
get_at-set_at (suc c) zero p q (r ∷ ps) h = ground arith
get_at-set_at (suc c) (suc d) p q (r ∷ ps) h = ground (arith, get_at-set_at c d p q ps h)

pub get_at-all_outside : (n c : ℕ) (p : Phase) → get_at c (all_outside n) ≡ some p → p ≡ outside
unfolding get_at
get_at-all_outside zero c p h = cc
get_at-all_outside (suc n) zero p h = sym (some-injective outside p h)
get_at-all_outside (suc n) (suc c) p h = get_at-all_outside n c p h
