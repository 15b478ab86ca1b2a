-- ===== src/Interface/Contention/Invariant.antt =====
-- What links the callers with the entries, and the steps of a caller that stays inside.
use atlas_alpha.Prelude.{
  ℕ, ◌+◌, ◌≤◌, ◌<◌, ◌≡◌, nat_beq, nat_beq_iff, refl, sym, ap, ◌∙◌, subst, Bool, true, false, String,
  Option, none, some, lookup, arith, inl, inr, Bool-cases,
}
use mathlib.Core.Option.{some-injective}
use atlas_alpha.Interface.Locks.{LockEntry}
use atlas_alpha.Interface.Contention.{
  Phase, outside, queued, holding, marked, unlocked, World, get_at, set_at, put_at, locked,
  lease_marked, let_go, all_outside, idle,
}
use atlas_alpha.Interface.Contention.Counts.{
  count, count-set_at, count-get_at, nobody_counts, get_at-set_at, get_at-all_outside,
}

-- The thread of a caller that is inside, and the address of its entry.
abbrev pub place : Phase → Option (String × ℕ)
place outside = none
place (queued tid a) = some (tid, a)
place (holding tid a) = some (tid, a)
place (marked tid a) = some (tid, a)
place (unlocked tid a) = some (tid, a)

abbrev pub one_if : Bool → ℕ
one_if true = 1
one_if false = 0

abbrev pub uses_at : ℕ → Option (String × ℕ) → ℕ
uses_at a none = 0
uses_at a (some (tid, b)) = one_if (nat_beq b a)

-- 1 where a caller is counted in the entry, and where it has the lock
abbrev pub uses : ℕ → Phase → ℕ
uses a p = uses_at a (place p)

abbrev pub has : ℕ → Phase → ℕ
has a outside = 0
has a (queued tid b) = 0
has a (holding tid b) = one_if (nat_beq b a)
has a (marked tid b) = one_if (nat_beq b a)
has a (unlocked tid b) = 0

-- What holds of the changed entry and of the others holds of every address.
pub put_at_elim :
    (P : ℕ → LockEntry → Bool → Type 0) (a : ℕ) (e : LockEntry) (heap : ℕ → LockEntry)
    → P a e true
    → ((b : ℕ) → nat_beq a b ≡ false → P b (heap b) false)
    → (b : ℕ) → P b (put_at a e heap b) (nat_beq a b)
put_at_elim P a e heap here there b = elim (Bool-cases (nat_beq a b)) [
  | inl t ↦
      let q : put_at a e heap b ≡ e = rw t refl in
      subst (λ f. P b (put_at a e heap b) f) (sym t)
        (subst (λ x. P b x true) (sym q) (subst (λ x. P x e true) ((nat_beq_iff a b).0 t) here))
  | inr n ↦
      let q : put_at a e heap b ≡ heap b = rw n refl in
      subst (λ f. P b (put_at a e heap b) f) (sym n) (subst (λ x. P b x false) (sym q) (there b n))
]

pub nat_beq_self : (a : ℕ) → nat_beq a a ≡ true
nat_beq_self a = (nat_beq_iff a a).1 refl

pub record Inv (w : World) : Type 0 where
  pub refs : (a : ℕ) → (w.heap a).refs ≡ count (uses a) w.callers
  pub locks : (a : ℕ) → one_if (w.heap a).locked ≡ count (has a) w.callers
  pub known :
      (c : ℕ) (p : Phase) (tid : String) (a : ℕ)
      → get_at c w.callers ≡ some p
      → place p ≡ some (tid, a)
      → lookup tid w.entries ≡ some a
  pub below : (tid : String) (a : ℕ) → lookup tid w.entries ≡ some a → a < w.next
  pub one :
      (tid tid' : String) (a : ℕ)
      → lookup tid w.entries ≡ some a
      → lookup tid' w.entries ≡ some a
      → tid ≡ tid'
  pub live : (tid : String) (a : ℕ) → lookup tid w.entries ≡ some a → 1 ≤ count (uses a) w.callers

pub one_if_le : (b : Bool) → one_if b ≤ 1
one_if_le true = omega arith
one_if_le false = omega arith

-- A caller that stays inside, where the entries stay.
stay :
    (w : World) (c : ℕ) (p q : Phase) (heap : ℕ → LockEntry)
    → Inv w
    → get_at c w.callers ≡ some p
    → place q ≡ place p
    → ((a : ℕ) → (heap a).refs ≡ (w.heap a).refs)
    → ((a : ℕ) → one_if (heap a).locked + has a p ≡ one_if (w.heap a).locked + has a q)
    → Inv (record w { heap = heap; callers = set_at c q w.callers })
stay w c p q heap inv at same refs locks = record {
  refs = λ a.
      let e = ap (uses_at a) same in
      omega (arith, e, refs a, inv.refs a, count-set_at (uses a) c p q w.callers at);
  locks = λ a. omega (arith, locks a, inv.locks a, count-set_at (has a) c p q w.callers at);
  known = λ d r tid a there placed. elim (Bool-cases (nat_beq c d)) [
    | inl e ↦
        let now = sym (get_at-set_at c d p q w.callers at) ∙ there in
        let is : q ≡ r = some-injective q r (rw e at now) in
        inv.known c p tid a at (sym same ∙ ap place is ∙ placed)
    | inr e ↦
        let now = sym (get_at-set_at c d p q w.callers at) ∙ there in
        inv.known d r tid a (rw e at now) placed
  ];
  below = inv.below;
  one = inv.one;
  live = λ tid a found.
      let e = ap (uses_at a) same in
      omega (arith, e, inv.live tid a found, count-set_at (uses a) c p q w.callers at);
}

pub lock-Inv :
    (w : World) (c : ℕ) (tid : String) (a : ℕ)
    → Inv w
    → get_at c w.callers ≡ some (queued tid a)
    → (w.heap a).locked ≡ false
    → Inv (locked c tid a w)
lock-Inv w c tid a inv at free =
    let e : LockEntry = record (w.heap a) { locked = true } in
    stay w c (queued tid a) (holding tid a) (put_at a e w.heap) inv at refl
      (put_at_elim (λ b e f. e.refs ≡ (w.heap b).refs) a e w.heap refl (λ b n. refl))
      (put_at_elim (λ b e f. one_if e.locked + 0 ≡ one_if (w.heap b).locked + one_if f) a e w.heap
        (omega (arith, ap one_if free)) (λ b n. refl))

pub mark-Inv :
    (w : World) (c : ℕ) (tid : String) (a : ℕ)
    → Inv w
    → get_at c w.callers ≡ some (holding tid a)
    → Inv (lease_marked c tid a w)
mark-Inv w c tid a inv at =
    stay w c (holding tid a) (marked tid a) w.heap inv at refl (λ b. refl) (λ b. refl)

pub unlock-Inv :
    (w : World) (c : ℕ) (tid : String) (a : ℕ)
    → Inv w
    → get_at c w.callers ≡ some (marked tid a)
    → Inv (let_go c tid a w)
unlock-Inv w c tid a inv at =
    let e : LockEntry = record (w.heap a) { locked = false } in
    let self = ap one_if (nat_beq_self a) in
    let most = one_if_le (w.heap a).locked in
    stay w c (marked tid a) (unlocked tid a) (put_at a e w.heap) inv at refl
      (put_at_elim (λ b e f. e.refs ≡ (w.heap b).refs) a e w.heap refl (λ b n. refl))
      (put_at_elim (λ b e f. one_if e.locked + one_if f ≡ one_if (w.heap b).locked + 0) a e w.heap
        (omega (arith, self, most, inv.locks a, count-get_at (has a) c (marked tid a) w.callers at))
        (λ b n. refl))

pub idle-Inv : (n : ℕ) → Inv (idle n)
unfolding lookup
idle-Inv n = record {
  refs = λ a.
      sym (
        nobody_counts (uses a) (all_outside n) (λ c p e. ap (uses a) (get_at-all_outside n c p e)));
  locks = λ a.
      sym
        (nobody_counts (has a) (all_outside n) (λ c p e. ap (has a) (get_at-all_outside n c p e)));
  known =
      λ c p tid a e placed. let bad = sym (ap place (get_at-all_outside n c p e)) ∙ placed in cc;
  below = λ tid a e. cc;
  one = λ tid tid' a e e'. cc;
  live = λ tid a e. cc;
}
