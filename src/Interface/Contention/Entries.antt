-- ===== src/Interface/Contention/Entries.antt =====
-- The steps in which a caller comes in, with or without an entry that stands already, and goes.
use atlas_alpha.Prelude.{
  ℕ, ◌-◌, ◌≤◌, ◌≡◌, nat_beq, nat_beq_iff, refl, sym, ap, ◌∙◌, subst, false, String, none, some,
  Dict, lookup, insert, erase, lookup-insert, lookup-insert_self, lookup-erase, arith, ◌==◌, eq_iff,
  ◌⊎◌, inl, inr, Bool-cases, Option-cases,
}
use mathlib.Core.Option.{some-injective}
use atlas_alpha.Interface.Locks.{LockEntry}
use atlas_alpha.Interface.Contention.{
  Phase, outside, queued, holding, marked, unlocked, World, get_at, set_at, counted, entered,
  kept_entries, left,
}
use atlas_alpha.Interface.Contention.Counts.{
  count, count-set_at, count-get_at, two_count, nobody_counts, get_at-set_at,
}
use atlas_alpha.Interface.Contention.Invariant.{
  place, one_if, uses_at, uses, has, put_at_elim, nat_beq_self, Inv,
}

-- A caller is counted in an entry that stands already.
pub join-Inv :
    (w : World) (c : ℕ) (tid : String) (a : ℕ)
    → Inv w
    → get_at c w.callers ≡ some outside
    → lookup tid w.entries ≡ some a
    → Inv (entered c tid (some a) w)
join-Inv w c tid a inv at found =
    let moved = λ (b : ℕ). count-set_at (uses b) c outside (queued tid a) w.callers at in
    record {
      refs =
          put_at_elim (λ b e f. e.refs ≡ count (uses b) (set_at c (queued tid a) w.callers)) a
            (counted (w.heap a)) w.heap
            (omega (arith, ap one_if (nat_beq_self a), moved a, inv.refs a))
            (λ b n. omega (arith, ap one_if n, moved b, inv.refs b));
      locks =
          put_at_elim (λ b e f. one_if e.locked ≡ count (has b) (set_at c (queued tid a) w.callers))
            a (counted (w.heap a)) w.heap
            (omega (arith, inv.locks a, count-set_at (has a) c outside (queued tid a) w.callers at))
            (λ b n.
              omega
                (arith, inv.locks b, count-set_at (has b) c outside (queued tid a) w.callers at));
      known = λ d r tid' a' there placed. elim (Bool-cases (nat_beq c d)) [
        | inl e ↦
            let now = sym (get_at-set_at c d outside (queued tid a) w.callers at) ∙ there in
            let is : queued tid a ≡ r = some-injective (queued tid a) r (rw e at now) in
            subst (λ x. lookup x.0 w.entries ≡ some x.1) (some-injective _ _ (ap place is ∙ placed))
              found
        | inr e ↦
            let now = sym (get_at-set_at c d outside (queued tid a) w.callers at) ∙ there in
            inv.known d r tid' a' (rw e at now) placed
      ];
      below = inv.below;
      one = inv.one;
      live = λ tid' b it. omega (arith, inv.live tid' b it, moved b);
    }

-- An address that no entry has had is used by no caller.
fresh-uses :
    (w : World) → Inv w → (c : ℕ) (p : Phase) → get_at c w.callers ≡ some p → uses w.next p ≡ 0
fresh-uses w inv c p at = elim (Option-cases (place p)) [
  | inl e ↦ ap (uses_at w.next) e
  | inr ((tid, b), e) ↦
      let small = inv.below tid b (inv.known c p tid b at e) in
      let differs : nat_beq b w.next ≡ false = ground (arith, small) in
      ap (uses_at w.next) e ∙ ap one_if differs
]

pub has-le-uses : (a : ℕ) (p : Phase) → has a p ≤ uses a p
has-le-uses a outside = omega arith
has-le-uses a (queued tid b) = omega arith
has-le-uses a (holding tid b) = omega arith
has-le-uses a (marked tid b) = omega arith
has-le-uses a (unlocked tid b) = omega arith

lookup-inserted :
    (t tid : String) (a v : ℕ) (d : Dict ℕ)
    → lookup t (insert tid v d) ≡ some a
    → ((tid ≡ t) × (v ≡ a)) ⊎ (lookup t d ≡ some a)
lookup-inserted t tid a v d h = elim (Bool-cases (tid == t)) [
  | inl e ↦
      let now = sym (lookup-insert tid t v d) ∙ h in
      inl ((eq_iff tid t).0 e, some-injective v a (rw e at now))
  | inr e ↦ let now = sym (lookup-insert tid t v d) ∙ h in inr (rw e at now)
]

lookup-insert_there :
    (t tid : String) (a v : ℕ) (d : Dict ℕ)
    → lookup tid d ≡ none
    → lookup t d ≡ some a
    → lookup t (insert tid v d) ≡ some a
lookup-insert_there t tid a v d h k = elim (Bool-cases (tid == t)) [
  | inl e ↦ let bad = sym h ∙ ap (λ x. lookup x d) ((eq_iff tid t).0 e) ∙ k in cc
  | inr e ↦ lookup-insert tid t v d ∙ rw e k
]

-- A caller makes the entry of a thread that has none.
pub open-Inv :
    (w : World) (c : ℕ) (tid : String)
    → Inv w
    → get_at c w.callers ≡ some outside
    → lookup tid w.entries ≡ none
    → Inv (entered c tid none w)
open-Inv w c tid inv at new =
    let q = queued tid w.next in
    let e : LockEntry = record { locked = false; refs = 1 } in
    let moved = λ (b : ℕ). count-set_at (uses b) c outside q w.callers at in
    let taken = λ (b : ℕ). count-set_at (has b) c outside q w.callers at in
    let unused = nobody_counts (uses w.next) w.callers (fresh-uses w inv) in
    let free =
      nobody_counts (has w.next) w.callers
        (λ d p there. omega (arith, has-le-uses w.next p, fresh-uses w inv d p there)) in
    record {
      refs =
          put_at_elim (λ b e f. e.refs ≡ count (uses b) (set_at c q w.callers)) w.next e w.heap
            (omega (arith, ap one_if (nat_beq_self w.next), moved w.next, unused))
            (λ b n. omega (arith, ap one_if n, moved b, inv.refs b));
      locks =
          put_at_elim (λ b e f. one_if e.locked ≡ count (has b) (set_at c q w.callers)) w.next e
            w.heap (omega (arith, taken w.next, free)) (λ b n. omega (arith, taken b, inv.locks b));
      known = λ d r tid' a' there placed. elim (Bool-cases (nat_beq c d)) [
        | inl e ↦
            let now = sym (get_at-set_at c d outside q w.callers at) ∙ there in
            let is : q ≡ r = some-injective q r (rw e at now) in
            subst (λ x. lookup x.0 (insert tid w.next w.entries) ≡ some x.1)
              (some-injective _ _ (ap place is ∙ placed)) (lookup-insert_self tid w.next w.entries)
        | inr e ↦
            let now = sym (get_at-set_at c d outside q w.callers at) ∙ there in
            lookup-insert_there tid' tid a' w.next w.entries new
              (inv.known d r tid' a' (rw e at now) placed)
      ];
      below = λ t a it. elim (lookup-inserted t tid a w.next w.entries it) [
        | inl (_, same) ↦ omega (arith, same)
        | inr old ↦ omega (arith, inv.below t a old)
      ];
      one = λ t t' a it it'. elim (lookup-inserted t tid a w.next w.entries it) [
        | inl (n, same) ↦ elim (lookup-inserted t' tid a w.next w.entries it') [
          | inl (n', _) ↦ sym n ∙ n'
          | inr old' ↦ absurd (omega (arith, same, inv.below t' a old'))
        ]
        | inr old ↦ elim (lookup-inserted t' tid a w.next w.entries it') [
          | inl (_, same) ↦ absurd (omega (arith, same, inv.below t a old))
          | inr old' ↦ inv.one t t' a old old'
        ]
      ];
      live = λ t a it. elim (lookup-inserted t tid a w.next w.entries it) [
        | inl (_, same) ↦
            let self = ap one_if ((nat_beq_iff w.next a).1 same) in omega (arith, self, moved a)
        | inr old ↦ omega (arith, inv.live t a old, moved a)
      ];
    }

-- An entry that is dropped is not found, and all others are.
lookup-kept :
    (t tid : String) (a b refs : ℕ) (entries : Dict ℕ)
    → lookup tid entries ≡ some a
    → lookup t (kept_entries refs tid a entries) ≡ some b
    → (lookup t entries ≡ some b) × (tid ≡ t → 1 ≤ refs)
lookup-kept t tid a b refs entries found h = elim (Bool-cases (nat_beq refs 0)) [
  | inr n ↦ (rw n at h, λ e. ground (arith, n))
  | inl z ↦
      let dropped : kept_entries refs tid a entries ≡ erase tid entries =
        rw (z, found, nat_beq_self a) refl in
      let erased = sym (lookup-erase tid t entries) ∙ ap (lookup t) (sym dropped) ∙ h in
      elim (Bool-cases (tid == t)) [
        | inl e ↦ let bad = rw e at erased in cc
        | inr e ↦ (rw e at erased, λ same. let bad = sym e ∙ (eq_iff tid t).1 same in cc)
      ]
]

kept-lookup :
    (t tid : String) (a b refs : ℕ) (entries : Dict ℕ)
    → lookup tid entries ≡ some a
    → lookup t entries ≡ some b
    → (tid ≡ t → 1 ≤ refs)
    → lookup t (kept_entries refs tid a entries) ≡ some b
kept-lookup t tid a b refs entries found there used = elim (Bool-cases (nat_beq refs 0)) [
  | inr n ↦ rw n there
  | inl z ↦
      let dropped : kept_entries refs tid a entries ≡ erase tid entries =
        rw (z, found, nat_beq_self a) refl in
      ap (lookup t) dropped ∙ elim (Bool-cases (tid == t)) [
        | inl e ↦ absurd (ground (arith, z, used ((eq_iff tid t).0 e)))
        | inr e ↦ lookup-erase tid t entries ∙ rw e there
      ]
]

pub leave-Inv :
    (w : World) (c : ℕ) (tid : String) (a : ℕ)
    → Inv w
    → get_at c w.callers ≡ some (unlocked tid a)
    → Inv (left c tid a w)
leave-Inv w c tid a inv at =
    let p = unlocked tid a in
    let refs = (w.heap a).refs - 1 in
    let e : LockEntry = record (w.heap a) { refs = refs } in
    let self = ap one_if (nat_beq_self a) in
    let found = inv.known c p tid a at refl in
    let counted_in = count-get_at (uses a) c p w.callers at in
    let moved = λ (b : ℕ). count-set_at (uses b) c p outside w.callers at in
    let taken = λ (b : ℕ). count-set_at (has b) c p outside w.callers at in
    let before =
      λ (t : String) (b : ℕ) (it : lookup t (kept_entries refs tid a w.entries) ≡ some b).
        lookup-kept t tid a b refs w.entries found it in
    record {
      refs =
          put_at_elim (λ b e f. e.refs ≡ count (uses b) (set_at c outside w.callers)) a e w.heap
            (omega (arith, self, moved a, inv.refs a, counted_in))
            (λ b n. omega (arith, ap one_if n, moved b, inv.refs b));
      locks =
          put_at_elim (λ b e f. one_if e.locked ≡ count (has b) (set_at c outside w.callers)) a e
            w.heap (omega (arith, taken a, inv.locks a))
            (λ b n. omega (arith, taken b, inv.locks b));
      known = λ d r t b there placed. elim (Bool-cases (nat_beq c d)) [
        | inl e ↦
            let now = sym (get_at-set_at c d p outside w.callers at) ∙ there in
            let is : outside ≡ r = some-injective outside r (rw e at now) in
            let bad = ap place is ∙ placed in cc
        | inr e ↦
            let now = sym (get_at-set_at c d p outside w.callers at) ∙ there in
            let was : get_at d w.callers ≡ some r = rw e at now in
            let it = inv.known d r t b was placed in
            kept-lookup t tid a b refs w.entries found it (λ same.
              let address : a ≡ b =
                some-injective a b (sym found ∙ ap (λ x. lookup x w.entries) same ∙ it) in
              let used = ap (uses_at a) placed in
              let here = ap one_if ((nat_beq_iff b a).1 (sym address)) in
              omega (
                arith,
                self,
                used,
                here,
                inv.refs a,
                two_count (uses a) c d p r w.callers
                    (λ q. let bad = sym e ∙ (nat_beq_iff c d).1 q in cc) at was,
              ))
      ];
      below = λ t b it. inv.below t b (before t b it).0;
      one = λ t t' b it it'. inv.one t t' b (before t b it).0 (before t' b it').0;
      live = λ t b it. elim (Bool-cases (nat_beq a b)) [
        | inr n ↦ omega (arith, ap one_if n, moved b, inv.live t b (before t b it).0)
        | inl y ↦
            let same = (nat_beq_iff a b).0 y in
            let thread = inv.one tid t b (found ∙ ap (λ x. some x) same) (before t b it).0 in
            subst (λ x. 1 ≤ count (uses x) (set_at c outside w.callers)) same
              (omega (arith, self, moved a, inv.refs a, (before t b it).1 thread))
      ];
    }
