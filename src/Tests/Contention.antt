-- ===== src/Tests/Contention.antt =====
-- Two callers that contend for one thread.
use atlas_alpha.Prelude.{refl, lookup, insert}
use atlas_alpha.Interface.Contention.{
  World, get_at, set_at, entered, locked, enter, lock, idle, Reach, start, after,
}
use atlas_alpha.Interface.Contention.Exclusive.{IsExclusive, Reach-IsExclusive}

-- One has the lock, and the other waits for it.
abbrev first_in : World
first_in = entered 0 "t" (lookup "t" (idle 2).entries) (idle 2)

abbrev both_in : World
both_in = entered 1 "t" (lookup "t" first_in.entries) first_in

abbrev one_locked : World
one_locked = locked 0 "t" 0 both_in

reached : Reach 2 one_locked
unfolding get_at set_at lookup insert
reached =
    after both_in one_locked
      (after first_in both_in (after (idle 2) first_in start (enter 0 "t" refl)) (enter 1 "t" refl))
      (lock 0 "t" 0 refl refl)

Reach-IsExclusive_example : IsExclusive one_locked
Reach-IsExclusive_example = Reach-IsExclusive 2 one_locked reached
