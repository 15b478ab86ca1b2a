-- ===== src/Orchestration/Executor.antt =====
-- The executor node of src/atlas/orchestration/nodes.py.
pub mod Moves
pub mod Safety
use atlas_alpha.Prelude.{String, Option, none, some, List, [], ◌∷◌}
use atlas_alpha.Prelude.Result.{Result, ok, err}
use atlas_alpha.Actions.{ProposedAction, ActionResult}
use atlas_alpha.Policy.{Principal}
use atlas_alpha.Audit.Recorders.{log_denied, log_skipped}
use atlas_alpha.Execution.{State, execute_guarded}
use atlas_alpha.Orchestration.State.{AgentState, Agent, get_current_principal}
use atlas_alpha.Orchestration.Gate.{Verdict, deny, skip, run, gate}

module _ {W : Type 0} (agent : Agent W) (principal : Principal) (approved : List String) where
  abbrev prepend :
      ActionResult → Result (List ActionResult) × State W → Result (List ActionResult) × State W
  prepend result (ok results, s) = (ok (result ∷ results), s)
  prepend result (err e, s) = (err e, s)

  -- The loop over the proposed actions.
  run_actions : List ProposedAction → State W → Result (List ActionResult) × State W
  run_actions [] s = (ok [], s)
  run_actions (action ∷ actions) s = elim (gate agent principal approved action) [
    | deny reason meta ↦
        run_actions actions (record s {
          log = log_denied agent.env action principal.user_id reason (some meta) s.log;
        })
    | skip reason meta ↦
        run_actions actions
          (record s { log = log_skipped agent.env action reason (some meta) s.log })
    | run meta ↦
        let (r, s') = execute_guarded agent.env agent.tools action principal (some meta) s in
        elim r [ ok result ↦ prepend result (run_actions actions s') | err e ↦ (err e, s') ]
  ]

module _ {W : Type 0} (agent : Agent W) where
  unfoldable pub executor_node : AgentState → State W → Result AgentState × State W
  unfolding run_actions
  executor_node state s =
      let (r, s') =
        run_actions agent (get_current_principal state) state.approved_action_ids
          state.proposed_actions s in
      elim r [
        | ok results ↦ (ok (record state { action_results = results }), s')
        | err e ↦ (err e, s')
      ]
