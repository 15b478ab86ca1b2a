-- ===== src/Orchestration/Planner.antt =====
-- The planner node of src/atlas/orchestration/nodes.py. The graph writes a node's update into the
-- state.
pub mod Authorized
pub mod Loop
use atlas_alpha.Prelude.{
  Bool, true, false, not, String, Option, none, some, List, [], ◌∷◌, append, if◌then◌else◌,
}
use atlas_alpha.Prelude.Result.{Result, ok, err, ◌>>=◌}
use atlas_alpha.Actions.{ProposedAction}
use atlas_alpha.Policy.{Principal, can}
use atlas_alpha.Audit.{Log}
use atlas_alpha.Audit.Recorders.{log_proposed, log_denied}
use atlas_alpha.Registry.{Tool, get_tool}
use atlas_alpha.Execution.{State}
use atlas_alpha.Orchestration.State.{AgentState, Agent, get_current_principal, last_user_text}
use atlas_alpha.Orchestration.Gate.{required_permission_for, shown}

module _ {W : Type 0} (agent : Agent W) where
  -- The `try` block of the loop.
  resolve : ProposedAction → Result (Option String)
  resolve action = do tool ← get_tool action.tool agent.tools; required_permission_for action tool

  -- The reason to deny an action whose permission resolved so, if there is one.
  denial_of : Principal → Result (Option String) → Option String
  denial_of principal (err _) = some "could not resolve required permission"
  denial_of principal (ok required) =
      if not (can agent.policy (some principal) required)
      then some (append "missing permission: " (shown required))
      else none

  denial : Principal → ProposedAction → Option String
  unfolding denial_of
  denial principal action = denial_of principal (resolve action)

  -- The loop over the proposed actions.
  pub authorize : Principal → List ProposedAction → Log → List ProposedAction × Log
  unfolding denial
  authorize principal [] log = ([], log)
  authorize principal (action ∷ actions) log =
      let log' = log_proposed agent.env action log in
      elim (denial principal action) [
        | some reason ↦
            authorize principal actions
              (log_denied agent.env action principal.user_id reason none log')
        | none ↦ let (rest, end_log) = authorize principal actions log' in (action ∷ rest, end_log)
      ]

  unfoldable pub planner_node : AgentState → State W → Result AgentState × State W
  unfolding authorize resolve
  planner_node state s =
      let principal = get_current_principal state in
      let request = last_user_text state.messages in
      let kg_context = agent.query (some principal) request 5 in
      elim (agent.plan_fn request agent.tools kg_context) [
        | err e ↦ (err e, s)
        | ok proposed ↦
            let (authorized, log) = authorize principal proposed s.log in
            (
              ok (record state { proposed_actions = authorized; kg_context = kg_context }),
              record s { log = log },
            )
      ]
