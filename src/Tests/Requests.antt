-- ===== src/Tests/Requests.antt =====
-- The theorems on the HTTP interface at concrete inputs.
use atlas_alpha.Prelude.{lookup, ◌≡◌, refl, true, false, String, Option, some, [], ◌∷◌, ◌↔◌, ◌⊎◌}
use atlas_alpha.Prelude.Result.{Error, Result, ok, err}
use atlas_alpha.Orchestration.Turn.{approval}
use atlas_alpha.Interface.Identity.{done, verify_thread_owner, Owns, verify_thread_owner_iff}
use atlas_alpha.Interface.Throttle.{Response}
use atlas_alpha.Interface.Locks.{Locks, unused, acquire_resume_lock}
use atlas_alpha.Interface.Resume.{
  ApproveRequest, Snapshot, MayResume, decision_payload, gate_resume, gate_resume-settles,
}
use atlas_alpha.Tests.Fixtures.{alice, bob, pending}

verify_thread_owner_iff_example :
    (verify_thread_owner (some alice) bob ≡ ok done) ↔ Owns (some alice) bob
verify_thread_owner_iff_example = verify_thread_owner_iff (some alice) bob

-- A backend without budget, until 5000 ms.
abbrev exhausted : String → Result Response
exhausted key = ok (record { allowed = false; reset = 5000 })

abbrev digest : Option String → String → String
digest org user = user

abbrev approve_all : ApproveRequest
approve_all = record { approve = some true; approved_ids = []; rejected_ids = [] }

abbrev waiting : Snapshot
waiting = record { values = pending; next = some approval }

-- Another thread is held, and a caller waits for it.
abbrev locks : Locks
locks = ("thr_2", record { locked = true; refs = 2 }) ∷ []

gate_resume-settles_example :
    let (answer, locks') = gate_resume (some waiting) "thr_1" bob approve_all locks in
    ((m : MayResume (some waiting) bob) × (answer ≡ ok (decision_payload approve_all m.found bob))
      × ((acquire_resume_lock "thr_1" locks').0 ≡ false))
    ⊎ ((e : Error) × (answer ≡ err e) × ((k : String) → lookup k locks' ≡ lookup k locks))
unfolding lookup
gate_resume-settles_example =
    gate_resume-settles (some waiting) "thr_1" bob approve_all locks (unused refl)
