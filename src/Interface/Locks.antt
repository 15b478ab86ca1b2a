-- ===== src/Interface/Locks.antt =====
-- The resume locks of src/atlas/interface/resume_lock.py: one entry for each thread that a caller holds
-- or waits for. Each function is a call that is not interrupted; a caller that has to wait is told so,
-- and stays counted.
use atlas_alpha.Prelude.{
  ℕ, suc, ◌-◌, nat_beq, ◌≡◌, refl, sym, ap, ◌∙◌, subst, Bool, true, false, not, String, Option,
  none, some, ◌==◌, eq_iff, arith, Dict, lookup, insert, erase, lookup-insert, lookup-insert_self,
  lookup-erase, if◌then◌else◌,
}

pub record LockEntry : Type 0 where
  pub locked : Bool
  pub refs : ℕ

abbrev pub Locks : Type 0
Locks = Dict LockEntry

-- The entry of a thread, or a new one.
abbrev pub entry_of : Option LockEntry → LockEntry
entry_of none = record { locked = false; refs = 0 }
entry_of (some e) = e

-- `acquire_resume_lock`: whether the caller holds the lock now; it is counted in any case.
unfoldable pub acquire_resume_lock : String → Locks → Bool × Locks
acquire_resume_lock thread_id locks =
    let entry = entry_of (lookup thread_id locks) in
    (not entry.locked, insert thread_id (record { locked = true; refs = suc entry.refs }) locks)

pub record ResumeLease : Type 0 where
  pub thread_id : String
  pub released : Bool

-- The lock is free again and the caller is no longer counted; an entry that nobody uses is dropped.
abbrev freed : String → Option LockEntry → Locks → Locks
freed thread_id none locks = locks
freed thread_id (some e) locks =
    if nat_beq (e.refs - 1) 0
    then erase thread_id locks
    else insert thread_id (record { locked = false; refs = e.refs - 1 }) locks

-- `ResumeLease.release`
unfoldable pub release : ResumeLease → Locks → ResumeLease × Locks
release lease locks = if lease.released then (lease, locks) else (
  record lease { released = true },
  freed lease.thread_id (lookup lease.thread_id locks) locks,
)

abbrev pub fresh_lease : String → ResumeLease
fresh_lease thread_id = record { thread_id = thread_id; released = false }

-- No caller holds the thread's lock, and its entry is there only if a caller uses it.
pub data IsFree (thread_id : String) (locks : Locks) : Type 0 where
  unused : lookup thread_id locks ≡ none → IsFree thread_id locks
  awaited :
      (n : ℕ)
      → lookup thread_id locks ≡ some (record { locked = false; refs = suc n })
      → IsFree thread_id locks

module _ (thread_id : String) (locks : Locks) where
  abbrev acquired : Locks
  acquired = (acquire_resume_lock thread_id locks).1

  abbrev held_entry : LockEntry
  held_entry = record { locked = true; refs = suc (entry_of (lookup thread_id locks)).refs }

  lookup-acquired :
      (k : String)
      → lookup k acquired ≡ (if thread_id == k then some held_entry else lookup k locks)
  unfolding acquire_resume_lock
  lookup-acquired k = lookup-insert thread_id k held_entry locks

  lookup-acquired_self : lookup thread_id acquired ≡ some held_entry
  unfolding acquire_resume_lock
  lookup-acquired_self = lookup-insert_self thread_id held_entry locks

  freed-acquired :
      IsFree thread_id locks
      → (k : String) → lookup k (freed thread_id (some held_entry) acquired) ≡ lookup k locks
  freed-acquired (unused e) k =
      ground (arith, e, lookup-acquired k, lookup-erase thread_id k acquired, eq_iff thread_id k)
  freed-acquired (awaited n e) k = ground (
    arith,
    e,
    lookup-acquired k,
    lookup-insert thread_id k (record { locked = false; refs = suc n }) acquired,
    eq_iff thread_id k,
  )

  release-acquired : release (fresh_lease thread_id) acquired ≡ (
    record { thread_id = thread_id; released = true },
    freed thread_id (some held_entry) acquired,
  )
  unfolding release
  release-acquired =
      ap (λ o. (record { thread_id = thread_id; released = true }, freed thread_id o acquired))
        lookup-acquired_self

  acquire-free : IsFree thread_id locks → (acquire_resume_lock thread_id locks).0 ≡ true
  unfolding acquire_resume_lock
  acquire-free (unused e) = ap (λ o. not (entry_of o).locked) e
  acquire-free (awaited n e) = ap (λ o. not (entry_of o).locked) e

  acquire-held : (acquire_resume_lock thread_id acquired).0 ≡ false
  unfolding acquire_resume_lock
  acquire-held = ap (λ o. not (entry_of o).locked) (lookup-insert_self thread_id held_entry locks)

  release_again :
      (after : Locks)
      → release (record { thread_id = thread_id; released = true }) after
        ≡ (record { thread_id = thread_id; released = true }, after)
  unfolding release
  release_again after = refl

  -- While a lease is out, another caller of the thread has to wait. Releasing it leaves every entry as it
  -- was before the lock was acquired, and releasing it once more changes nothing.
  pub release-acquire_resume_lock :
      IsFree thread_id locks
      → let (holds, held) = acquire_resume_lock thread_id locks in
        let (lease, after) = release (fresh_lease thread_id) held in
        (holds ≡ true)
        × ((acquire_resume_lock thread_id held).0 ≡ false)
        × ((k : String) → lookup k after ≡ lookup k locks)
        × (release lease after ≡ (lease, after))
  release-acquire_resume_lock free = (
    acquire-free free,
    acquire-held,
    λ k. ap (λ r. lookup k r.1) release-acquired ∙ freed-acquired free k,
    subst (λ r. release r.0 r.1 ≡ (r.0, r.1)) (sym release-acquired) (release_again _),
  )
