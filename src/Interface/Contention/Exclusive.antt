-- ===== src/Interface/Contention/Exclusive.antt =====
-- One caller at a time has the lock of a thread, and only the threads that a caller uses have an entry.
use atlas_alpha.Prelude.{
  ℕ, ◌≤◌, ◌≡◌, nat_beq, nat_beq_iff, refl, sym, ap, ◌∙◌, subst, false, String, some, lookup, arith,
  ◌⊎◌, inl, inr, Bool-cases, Option-cases,
}
use mathlib.Core.Option.{some-injective}
use atlas_alpha.Interface.Contention.{
  Phase, outside, queued, holding, marked, unlocked, World, get_at, entered, Step, enter, lock,
  mark, unlock, leave, Reach, start, after,
}
use atlas_alpha.Interface.Contention.Counts.{two_count, someone_counts}
use atlas_alpha.Interface.Contention.Invariant.{
  place, one_if, uses_at, uses, has, nat_beq_self, Inv, one_if_le, lock-Inv, mark-Inv, unlock-Inv,
  idle-Inv,
}
use atlas_alpha.Interface.Contention.Entries.{join-Inv, open-Inv, leave-Inv, has-le-uses}

Step-Inv : (w w' : World) → Inv w → Step w w' → Inv w'
Step-Inv w w' inv (enter c tid at) = elim (Option-cases (lookup tid w.entries)) [
  | inl e ↦ subst (λ o. Inv (entered c tid o w)) (sym e) (open-Inv w c tid inv at e)
  | inr (a, e) ↦ subst (λ o. Inv (entered c tid o w)) (sym e) (join-Inv w c tid a inv at e)
]
Step-Inv w w' inv (lock c tid a at free) = lock-Inv w c tid a inv at free
Step-Inv w w' inv (mark c tid a at) = mark-Inv w c tid a inv at
Step-Inv w w' inv (unlock c tid a at) = unlock-Inv w c tid a inv at
Step-Inv w w' inv (leave c tid a at) = leave-Inv w c tid a inv at

Reach-Inv : (n : ℕ) (w : World) → Reach n w → Inv w
Reach-Inv n w start = idle-Inv n
Reach-Inv n w (after v v' r s) = Step-Inv v v' (Reach-Inv n v r) s

-- The caller has the lock of a thread: its lease is not released, or just marked.
pub data Has (tid : String) (p : Phase) : Type 0 where
  has_lease : (a : ℕ) → p ≡ holding tid a → Has tid p
  releasing : (a : ℕ) → p ≡ marked tid a → Has tid p

Has-has :
    (w : World) (inv : Inv w) (c : ℕ) (tid : String) (p : Phase)
    → get_at c w.callers ≡ some p
    → Has tid p
    → (a : ℕ) × (lookup tid w.entries ≡ some a) × (has a p ≡ 1)
Has-has w inv c tid p at (has_lease a e) =
    (a, inv.known c p tid a at (ap place e), ap (has a) e ∙ ap one_if (nat_beq_self a))
Has-has w inv c tid p at (releasing a e) =
    (a, inv.known c p tid a at (ap place e), ap (has a) e ∙ ap one_if (nat_beq_self a))

uses-place : (a : ℕ) (p : Phase) → 1 ≤ uses a p → (tid : String) × (place p ≡ some (tid, a))
uses-place a p h = elim (Option-cases (place p)) [
  | inl e ↦ let none_there = ap (uses_at a) e in absurd (omega (arith, none_there, h))
  | inr ((tid, b), e) ↦ elim (Bool-cases (nat_beq b a)) [
    | inl y ↦ (tid, e ∙ ap (λ x. some (tid, x)) ((nat_beq_iff b a).0 y))
    | inr n ↦
        let other = ap (uses_at a) e in
        let out = ap one_if n in absurd (omega (arith, other, out, h))
  ]
]

has-Has : (a : ℕ) (p : Phase) (tid : String) → 1 ≤ has a p → place p ≡ some (tid, a) → Has tid p
has-Has a outside tid h e = absurd (omega (arith, h))
has-Has a (queued t b) tid h e = absurd (omega (arith, h))
has-Has a (unlocked t b) tid h e = absurd (omega (arith, h))
has-Has a (holding t b) tid h e =
    has_lease a (ap (λ x. holding x.0 x.1) (some-injective (t, b) (tid, a) e))
has-Has a (marked t b) tid h e =
    releasing a (ap (λ x. marked x.0 x.1) (some-injective (t, b) (tid, a) e))

pub record IsExclusive (w : World) : Type 0 where
  pub alone :
      (c d : ℕ) (p q : Phase) (tid : String)
      → get_at c w.callers ≡ some p
      → get_at d w.callers ≡ some q
      → Has tid p
      → Has tid q
      → c ≡ d
  pub used :
      (tid : String) (a : ℕ)
      → lookup tid w.entries ≡ some a
      → (c : ℕ) × (p : Phase) × (get_at c w.callers ≡ some p) × (place p ≡ some (tid, a))
  pub waits :
      (c : ℕ) (tid : String) (a : ℕ)
      → get_at c w.callers ≡ some (queued tid a)
      → ((w.heap a).locked ≡ false)
        ⊎ ((d : ℕ) × (q : Phase) × (get_at d w.callers ≡ some q) × Has tid q)

Inv-alone :
    (w : World) (inv : Inv w) (c d : ℕ) (p q : Phase) (tid : String)
    → get_at c w.callers ≡ some p
    → get_at d w.callers ≡ some q
    → Has tid p
    → Has tid q
    → c ≡ d
Inv-alone w inv c d p q tid at at' h h' = elim (Bool-cases (nat_beq c d)) [
  | inl e ↦ (nat_beq_iff c d).0 e
  | inr n ↦
      let (a, found, one) = Has-has w inv c tid p at h in
      let (b, found', one') = Has-has w inv d tid q at' h' in
      let same = some-injective b a (sym found' ∙ found) in
      let second : has a q ≡ 1 = ap (λ x. has x q) (sym same) ∙ one' in
      let two =
        two_count (has a) c d p q w.callers (λ e. let bad = sym n ∙ (nat_beq_iff c d).1 e in cc) at
          at' in
      absurd (omega (arith, one, second, two, inv.locks a, one_if_le (w.heap a).locked))
]

-- A caller that counts in the entry of a thread is inside for this thread.
inside :
    (w : World) (inv : Inv w) (tid : String) (a c : ℕ) (p : Phase)
    → lookup tid w.entries ≡ some a
    → get_at c w.callers ≡ some p
    → 1 ≤ uses a p
    → place p ≡ some (tid, a)
inside w inv tid a c p found at h =
    let (t, e) = uses-place a p h in
    e ∙ ap (λ x. some (x, a)) (inv.one t tid a (inv.known c p t a at e) found)

Inv-waits :
    (w : World) (inv : Inv w) (c : ℕ) (tid : String) (a : ℕ)
    → get_at c w.callers ≡ some (queued tid a)
    → ((w.heap a).locked ≡ false)
      ⊎ ((d : ℕ) × (q : Phase) × (get_at d w.callers ≡ some q) × Has tid q)
Inv-waits w inv c tid a at = elim (Bool-cases (w.heap a).locked) [
  | inr free ↦ inl free
  | inl shut ↦
      let (d, q, there, h) =
        someone_counts (has a) w.callers (omega (arith, inv.locks a, ap one_if shut)) in
      let found = inv.known c (queued tid a) tid a at refl in
      inr (
        d,
        q,
        there,
        has-Has a q tid h (inside w inv tid a d q found there (omega (arith, h, has-le-uses a q))),
      )
]

-- However any number of callers interleave, at most one at a time has the lock of a thread, every entry is
-- of a thread that some caller is inside for, and a caller waits only while another one has the lock.
pub Reach-IsExclusive : (n : ℕ) (w : World) → Reach n w → IsExclusive w
Reach-IsExclusive n w r =
    let inv = Reach-Inv n w r in
    record {
      alone = Inv-alone w inv;
      used = λ tid a found.
          let (c, p, at, h) = someone_counts (uses a) w.callers (inv.live tid a found) in
          (c, p, at, inside w inv tid a c p found at h);
      waits = Inv-waits w inv;
    }
