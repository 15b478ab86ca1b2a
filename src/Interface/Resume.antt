-- ===== src/Interface/Resume.antt =====
-- src/atlas/interface/resume_lock.py: a request that resumes a thread.
use atlas_alpha.Prelude.{
  lookup, ◌≡◌, refl, sym, ap, ◌∙◌, Bool, true, false, String, Option, none, some, List, ◌++◌, map,
  ◌⊎◌, inl, inr, Bool-cases, if◌then◌else◌,
}
use atlas_alpha.Prelude.Result.{Error, Result, ok, err, raise, ◌>>=◌, >>=-eq-ok, ok-injective}
use atlas_alpha.Value.{Value, arr}
use atlas_alpha.Actions.{ApprovalDecision}
use atlas_alpha.Policy.{Principal}
use atlas_alpha.Orchestration.State.{AgentState}
use atlas_alpha.Orchestration.Decisions.Listed.{payload_items}
use atlas_alpha.Orchestration.Approval.{gated}
use atlas_alpha.Orchestration.Turn.{Node, approval}
use atlas_alpha.Interface.Locks.{
  Locks, IsFree, acquire_resume_lock, release, fresh_lease, release-acquire_resume_lock,
}
use atlas_alpha.Interface.Identity.{Done, done, verify_thread_owner, verify_thread_owner_iff, Owns}

-- `ApproveRequest`, once validated
pub record ApproveRequest : Type 0 where
  pub approve : Option Bool
  pub approved_ids : List String
  pub rejected_ids : List String

-- The thread's checkpoint: its values, and the node that is next.
pub record Snapshot : Type 0 where
  pub values : AgentState
  pub next : Option Node

abbrev is_approval : Node → Bool
is_approval approval = true
is_approval _ = false

-- `is_awaiting_approval`
unfoldable pub is_awaiting_approval : Snapshot → Bool
is_awaiting_approval snapshot = elim snapshot.next [ some n ↦ is_approval n | none ↦ false ]

abbrev decided : Principal → Bool → String → ApprovalDecision
decided caller approved id = record {
  action_id = id;
  approved = approved;
  decided_by = caller.user_id;
}

abbrev decided_on : AgentState → ApproveRequest → Principal → Option Bool → List ApprovalDecision
decided_on state body caller (some approve) =
    map (λ a. decided caller approve a.action_id) (gated state)
decided_on state body caller none =
    map (decided caller true) body.approved_ids ++ map (decided caller false) body.rejected_ids

-- The decisions that the request stands for.
unfoldable pub requested : ApproveRequest → Snapshot → Principal → List ApprovalDecision
requested body snapshot caller = decided_on snapshot.values body caller body.approve

-- `decision_payload`
unfoldable pub decision_payload : ApproveRequest → Snapshot → Principal → Value
unfolding requested
decision_payload body snapshot caller = arr (payload_items (requested body snapshot caller))

-- The checks of `gate_resume` on the checkpoint, `none` where the thread has none.
checked : Option Snapshot → Principal → ApproveRequest → Result Value
checked none principal body = raise "404" "Thread not found."
checked (some snapshot) principal body =
    verify_thread_owner snapshot.values.principal principal >>= (λ passed.
      if is_awaiting_approval snapshot
      then ok (decision_payload body snapshot principal)
      else raise "409" "Thread is not awaiting approval.")

-- An error gives the lease back.
abbrev settle : String → Result Value → Locks → Result Value × Locks
settle thread_id (ok decisions) locks = (ok decisions, locks)
settle thread_id (err e) locks = (err e, (release (fresh_lease thread_id) locks).1)

-- `gate_resume`, for a caller that gets the lock at once
unfoldable pub gate_resume :
    Option Snapshot → String → Principal → ApproveRequest → Locks → Result Value × Locks
unfolding checked
gate_resume snapshot thread_id principal body locks =
    settle thread_id (checked snapshot principal body) (acquire_resume_lock thread_id locks).1

-- The caller may resume: the thread exists, is the caller's, and waits for an approval.
pub record MayResume (snapshot : Option Snapshot) (principal : Principal) : Type 0 where
  pub found : Snapshot
  pub stored : snapshot ≡ some found
  pub owner : Owns found.values.principal principal
  pub waiting : is_awaiting_approval found ≡ true

checked-ok :
    (snapshot : Option Snapshot) (principal : Principal) (body : ApproveRequest) (decisions : Value)
    → checked snapshot principal body ≡ ok decisions
    → (m : MayResume snapshot principal) × (decisions ≡ decision_payload body m.found principal)
unfolding checked
checked-ok none principal body decisions h = cc
checked-ok (some snapshot) principal body decisions h =
    let (passed, e, h1) =
      >>=-eq-ok (verify_thread_owner snapshot.values.principal principal) _ decisions h in
    elim (Bool-cases (is_awaiting_approval snapshot)) [
      | inl w ↦
          let same : ok (decision_payload body snapshot principal) ≡ ok decisions = rw w at h1 in
          (
            record {
              found = snapshot;
              stored = refl;
              owner =
                  (verify_thread_owner_iff snapshot.values.principal principal).0
                    (e ∙ ap (λ x. ok x) (only passed));
              waiting = w;
            },
            sym (ok-injective _ decisions same),
          )
      | inr w ↦
          let bad : raise "409" "Thread is not awaiting approval." ≡ ok decisions = rw w at h1 in cc
    ]
  where
    only : (d : Done) → d ≡ done
    only done = refl

-- A request whose thread's lock is free either goes on, and then the caller may resume the thread, the
-- decisions are those of the request, and the lock is held against the next caller; or it is refused,
-- and then every lock is as it was before.
pub gate_resume-settles :
    (snapshot : Option Snapshot) (thread_id : String) (principal : Principal)
    (body : ApproveRequest) (locks : Locks)
    → IsFree thread_id locks
    → let (answer, locks') = gate_resume snapshot thread_id principal body locks in
      ((m : MayResume snapshot principal) × (answer ≡ ok (decision_payload body m.found principal))
        × ((acquire_resume_lock thread_id locks').0 ≡ false))
      ⊎ ((e : Error) × (answer ≡ err e) × ((k : String) → lookup k locks' ≡ lookup k locks))
unfolding gate_resume
gate_resume-settles snapshot thread_id principal body locks free =
    by_check (checked snapshot principal body) refl
  where
    by_check :
        (r : Result Value)
        → checked snapshot principal body ≡ r
        → let (answer, locks') = settle thread_id r (acquire_resume_lock thread_id locks).1 in
          ((m : MayResume snapshot principal) × (answer
              ≡ ok (decision_payload body m.found principal))
            × ((acquire_resume_lock thread_id locks').0 ≡ false))
          ⊎ ((e : Error) × (answer ≡ err e) × ((k : String) → lookup k locks' ≡ lookup k locks))
    by_check (ok decisions) h =
        let (m, e) = checked-ok snapshot principal body decisions h in
        inl (m, ap (λ x. ok x) e, (release-acquire_resume_lock thread_id locks free).1)
    by_check (err e) h = inr (e, refl, (release-acquire_resume_lock thread_id locks free).2)
