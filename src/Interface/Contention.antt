-- ===== src/Interface/Contention.antt =====
-- The resume locks of src/atlas/interface/resume_lock.py under contention: callers in any number and any
-- order of their steps. A step is one critical section or one operation on a lock. An entry is known by
-- its address, so that an entry that was dropped and made anew is another one.
pub mod Counts
pub mod Invariant
pub mod Entries
pub mod Exclusive
use atlas_alpha.Prelude.{
  ℕ, zero, suc, ◌+◌, ◌-◌, ◌≡◌, nat_beq, Bool, true, false, ◌&&◌, String, Option, none, some, List,
  [], ◌∷◌, Dict, lookup, insert, erase, if◌then◌else◌,
}
use atlas_alpha.Interface.Locks.{LockEntry}

-- Where a caller stands, with the thread and the address of its entry: it waits for the lock, it has the
-- lock, its lease is marked as released, or it has let go of the lock and is still counted.
pub data Phase : Type 0 where
  outside : Phase
  queued holding marked unlocked : String → ℕ → Phase

pub record World : Type 0 where
  pub entries : Dict ℕ
  pub heap : ℕ → LockEntry
  pub next : ℕ
  pub callers : List Phase

unfoldable pub get_at : ℕ → List Phase → Option Phase
get_at c [] = none
get_at zero (p ∷ ps) = some p
get_at (suc c) (p ∷ ps) = get_at c ps

unfoldable pub set_at : ℕ → Phase → List Phase → List Phase
set_at c q [] = []
set_at zero q (p ∷ ps) = q ∷ ps
set_at (suc c) q (p ∷ ps) = p ∷ set_at c q ps

abbrev pub put_at : ℕ → LockEntry → (ℕ → LockEntry) → ℕ → LockEntry
put_at a e heap b = if nat_beq a b then e else heap b

-- The critical section of `acquire_resume_lock`, for a thread with an entry and for one without
abbrev pub counted : LockEntry → LockEntry
counted e = record e { refs = suc e.refs }

abbrev pub entered : ℕ → String → Option ℕ → World → World
entered c tid (some a) w = record w {
  heap = put_at a (counted (w.heap a)) w.heap;
  callers = set_at c (queued tid a) w.callers;
}
entered c tid none w = record w {
  entries = insert tid w.next w.entries;
  heap = put_at w.next (record { locked = false; refs = 1 }) w.heap;
  next = suc w.next;
  callers = set_at c (queued tid w.next) w.callers;
}

-- `entry.lock.acquire()`, once the lock is free
abbrev pub locked : ℕ → String → ℕ → World → World
locked c tid a w = record w {
  heap = put_at a (record (w.heap a) { locked = true }) w.heap;
  callers = set_at c (holding tid a) w.callers;
}

-- `release`: the lease is marked, the lock is let go, and the caller is no longer counted.
abbrev pub lease_marked : ℕ → String → ℕ → World → World
lease_marked c tid a w = record w { callers = set_at c (marked tid a) w.callers }

abbrev pub let_go : ℕ → String → ℕ → World → World
let_go c tid a w = record w {
  heap = put_at a (record (w.heap a) { locked = false }) w.heap;
  callers = set_at c (unlocked tid a) w.callers;
}

abbrev pub is_address : ℕ → Option ℕ → Bool
is_address a none = false
is_address a (some b) = nat_beq b a

abbrev pub kept_entries : ℕ → String → ℕ → Dict ℕ → Dict ℕ
kept_entries refs tid a entries =
    if nat_beq refs 0 && is_address a (lookup tid entries) then erase tid entries else entries

abbrev pub left : ℕ → String → ℕ → World → World
left c tid a w = record w {
  entries = kept_entries ((w.heap a).refs - 1) tid a w.entries;
  heap = put_at a (record (w.heap a) { refs = (w.heap a).refs - 1 }) w.heap;
  callers = set_at c outside w.callers;
}

-- A step of one caller. A release of a lease that is marked already is no step.
pub data Step (w : World) : World → Type 0 where
  enter :
      (c : ℕ) (tid : String)
      → get_at c w.callers ≡ some outside
      → Step w (entered c tid (lookup tid w.entries) w)
  lock :
      (c : ℕ) (tid : String) (a : ℕ)
      → get_at c w.callers ≡ some (queued tid a)
      → (w.heap a).locked ≡ false
      → Step w (locked c tid a w)
  mark :
      (c : ℕ) (tid : String) (a : ℕ)
      → get_at c w.callers ≡ some (holding tid a)
      → Step w (lease_marked c tid a w)
  unlock :
      (c : ℕ) (tid : String) (a : ℕ)
      → get_at c w.callers ≡ some (marked tid a)
      → Step w (let_go c tid a w)
  leave :
      (c : ℕ) (tid : String) (a : ℕ)
      → get_at c w.callers ≡ some (unlocked tid a)
      → Step w (left c tid a w)

-- No caller is inside, and there is no entry.
abbrev pub all_outside : ℕ → List Phase
all_outside zero = []
all_outside (suc n) = outside ∷ all_outside n

abbrev pub idle : ℕ → World
idle n = record {
  entries = [];
  heap = λ a. record { locked = false; refs = 0 };
  next = 0;
  callers = all_outside n;
}

-- What any number of callers can come to.
pub data Reach (n : ℕ) : World → Type 0 where
  start : Reach n (idle n)
  after : (w w' : World) → Reach n w → Step w w' → Reach n w'
