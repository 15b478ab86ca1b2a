-- ===== src/Orchestration/Approval.antt =====
-- The approval node of src/atlas/orchestration/nodes.py: what it shows at the interrupt, and what it
-- does with the value that resumes it.
pub mod Bound
use atlas_alpha.Prelude.{
  Bool, true, false, String, List, [], ◌∷◌, map, keep, contains, if◌then◌else◌,
}
use atlas_alpha.Prelude.Result.{Result, ok, err}
use atlas_alpha.Value.{Value}
use atlas_alpha.Actions.{ProposedAction, ApprovalDecision, needs_approval}
use atlas_alpha.Audit.{Log}
use atlas_alpha.Audit.Recorders.{decided}
use atlas_alpha.Execution.{State}
use atlas_alpha.Orchestration.State.{AgentState, Agent}
use atlas_alpha.Orchestration.Decisions.{parse_decisions}

-- The pending actions of the interrupt.
unfoldable pub gated : AgentState → List ProposedAction
gated state = keep needs_approval state.proposed_actions

-- The elements of a set, each once.
distinct : List String → List String
unfolding contains
distinct [] = []
distinct (x ∷ xs) = let rest = distinct xs in if contains rest x then rest else x ∷ rest

unfoldable pub valid_ids : AgentState → List String
unfolding distinct
valid_ids state = distinct (map (λ a. a.action_id) (gated state))

abbrev ids_with : Bool → List ApprovalDecision → List String
ids_with b [] = []
ids_with true (d ∷ ds) =
    let rest = ids_with true ds in if d.approved then d.action_id ∷ rest else rest
ids_with false (d ∷ ds) =
    let rest = ids_with false ds in if d.approved then rest else d.action_id ∷ rest

module _ {W : Type 0} (agent : Agent W) where
  record_decisions : List ApprovalDecision → Log → Log
  record_decisions [] log = log
  record_decisions (d ∷ ds) log = record_decisions ds (decided agent.env d log)

  unfoldable pub approval_node : AgentState → Value → State W → Result AgentState × State W
  unfolding record_decisions
  approval_node state raw s = elim (parse_decisions agent.render (valid_ids state) raw) [
    | err e ↦ (err e, s)
    | ok decisions ↦ (
      ok (record state {
        approved_action_ids = ids_with true decisions;
        rejected_action_ids = ids_with false decisions;
      }),
      record s { log = record_decisions decisions s.log },
    )
  ]
