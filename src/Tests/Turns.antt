-- ===== src/Tests/Turns.antt =====
-- The theorems on execution and on the turn of a thread at concrete inputs.
use atlas_alpha.Prelude.{
  arith, eq_iff, ℕ, ◌≡◌, refl, true, String, none, some, List, [], ◌∷◌, ◌↔◌, ◌⊎◌, Some, In, All,
  lookup, Dict,
}
use atlas_alpha.Prelude.Result.{Result, ok, err}
use atlas_alpha.Value.{bool, text}
use atlas_alpha.Actions.{requires_approval, ProposedAction, ApprovalDecision, ActionResult}
use atlas_alpha.Audit.Recorders.{log_executed, has_executed}
use atlas_alpha.Audit.Growth.{Grows}
use atlas_alpha.Registry.{Tool, permission_for, combine_permission, propose, get_tool, execute}
use atlas_alpha.Registry.Proposals.{Stamped, IsNamed, propose-Stamped}
use atlas_alpha.Execution.{State, execute_guarded}
use atlas_alpha.Execution.Idempotency.{execute_guarded-once, execute_guarded-total}
use atlas_alpha.Orchestration.State.{AgentState, get_current_principal}
use atlas_alpha.Orchestration.Decisions.{parse_decisions}
use atlas_alpha.Orchestration.Gate.Cleared.{IsAllowed, IsCleared}
use atlas_alpha.Orchestration.Planner.{planner_node}
use atlas_alpha.Orchestration.Planner.Authorized.{planner_node-authorizes}
use atlas_alpha.Orchestration.Approval.{approval_node}
use atlas_alpha.Orchestration.Approval.Bound.{IsPending, approval_node-IsBound}
use atlas_alpha.Orchestration.Executor.{executor_node}
use atlas_alpha.Orchestration.Executor.Moves.{Moves, IsEarned}
use atlas_alpha.Orchestration.Executor.Safety.{executor_node-IsSafe}
use atlas_alpha.Orchestration.Turn.{
  planner, executor, Thread, thread, repeats, Reach, here, step, node_run, fresh_thread,
}
use atlas_alpha.Orchestration.Turn.Safety.{
  IsSound, MovesOf, AreBound, Reach-IsSound, Reach-Grows, Step-IsSafe,
}
use atlas_alpha.Orchestration.Turn.Progress.{Thread-Finishes}
use atlas_alpha.Tests.Fixtures.{
  env, agent, tools, alice, mail, lookup_action, mail_context, search_tool, send_email, pending,
  decided, start,
}

-- The state after the email has been sent once.
abbrev once : State ℕ
once = (execute_guarded env tools mail alice (some mail_context) start).1

abbrev sent : ActionResult
sent = record {
  action_id = "act_1";
  tool = "send_email";
  ok = true;
  output = text "sent";
  error = none;
}

execute_guarded-once_example : (execute_guarded env tools mail alice none once).1.world ≡ once.world
unfolding execute_guarded has_executed execute lookup log_executed requires_approval get_tool
execute_guarded-once_example =
    execute_guarded-once env tools mail alice (some mail_context) none start sent refl refl refl

execute_guarded-total_example :
    (result : ActionResult) × ((execute_guarded env tools mail alice none start).0 ≡ ok result)
    × (result.action_id ≡ "act_1")
    × Grows env [] (execute_guarded env tools mail alice none start).1.log
execute_guarded-total_example = execute_guarded-total env tools mail alice none start

propose-Stamped_example :
    (tool : Tool ℕ) × (lookup "send_email" tools ≡ some tool)
    × (mail.action_id ≡ "act_1")
    × ("send_email" ≡ tool.name)
    × Stamped tools tool mail.args mail
unfolding propose lookup get_tool permission_for combine_permission
propose-Stamped_example = propose-Stamped tools "act_1" "send_email" mail.args "asked" mail refl

tools-IsNamed : IsNamed tools
unfolding lookup
tools-IsNamed k tool h = ground (arith, eq_iff "search" k, eq_iff "send_email" k)

abbrev slack : Tool ℕ
slack = record send_email { name = "slack_post" }

abbrev more : Dict (Tool ℕ)
more = ("search", search_tool) ∷ ("send_email", send_email) ∷ ("slack_post", slack) ∷ []

abbrev approval_of_mail : List ApprovalDecision
approval_of_mail = record { action_id = "act_1"; approved = true; decided_by = "human" } ∷ []

abbrev state_of : Result AgentState → AgentState
state_of (ok v) = v
state_of (err _) = pending

abbrev planned : AgentState
planned = state_of (planner_node agent pending start).0

planner_node-authorizes_example :
    (plan : List ProposedAction) × (ok (mail ∷ lookup_action ∷ []) ≡ ok plan)
    × ((a : ProposedAction)
        → In a planned.proposed_actions
          ↔ (In a plan × IsAllowed agent (get_current_principal pending) a))
    × Grows env [] (planner_node agent pending start).1.log
    × ((planner_node agent pending start).1.world ≡ 0)
unfolding planner_node
planner_node-authorizes_example = planner_node-authorizes agent pending planned start refl

abbrev approved_state : AgentState
approved_state = state_of (approval_node agent pending (bool true) start).0

approval_node-IsBound_example :
    All (IsPending pending) approved_state.approved_action_ids
    × All (IsPending pending) approved_state.rejected_action_ids
    × (approved_state.proposed_actions ≡ mail ∷ lookup_action ∷ [])
    × Grows env [] (approval_node agent pending (bool true) start).1.log
    × ((approval_node agent pending (bool true) start).1.world ≡ 0)
unfolding approval_node parse_decisions
approval_node-IsBound_example =
    approval_node-IsBound agent pending approved_state (bool true) start refl

executor_node-IsSafe_example :
    (results : List ActionResult) × ((executor_node agent decided start).0
      ≡ ok (record decided { action_results = results }))
    × All
        (IsEarned agent (get_current_principal decided) ("act_1" ∷ []) (mail ∷ lookup_action ∷ []))
        results
    × ((a : ProposedAction)
        → In a (mail ∷ lookup_action ∷ [])
        → IsCleared agent (get_current_principal decided) ("act_1" ∷ []) a
        → Some (λ r. r.action_id ≡ a.action_id) results)
    × Moves agent
        (get_current_principal decided)
        ("act_1" ∷ [])
        (mail ∷ lookup_action ∷ [])
        start
        (executor_node agent decided start).1
    × Grows env [] (executor_node agent decided start).1.log
executor_node-IsSafe_example = executor_node-IsSafe agent decided start

-- A narrator that is down.
abbrev down : String → String → Result String
down request facts = err (record { kind = "RuntimeError"; message = "down" })

abbrev asked : AgentState
asked = record decided { action_results = sent ∷ [] }

abbrev fresh : Thread ℕ
fresh = fresh_thread "email carol" alice start

-- The planner runs, its process stops before the update is saved, and the thread stays where it is.
abbrev again : Thread ℕ
again = thread (some planner) fresh.values (planner_node agent fresh.values start).1

Reach-IsSound_example : IsSound agent (some planner) again.values
unfolding fresh_thread node_run
Reach-IsSound_example =
    Reach-IsSound agent "email carol" alice start again
      (step here (repeats (bool true) planner fresh.values start))

Reach-Grows_example : Grows env [] again.shared.log
unfolding fresh_thread node_run
Reach-Grows_example =
    Reach-Grows agent fresh again (step here (repeats (bool true) planner fresh.values start))

Step-IsSafe_example :
    ((some planner ≡ some executor) ⊎ (again.shared.world ≡ 0))
    × MovesOf agent fresh.values start again.shared
    × AreBound agent fresh.values
unfolding fresh_thread node_run
Step-IsSafe_example =
    Step-IsSafe agent "email carol" alice start fresh again here
      (repeats (bool true) planner fresh.values start)

Thread-Finishes_example : (u : Thread ℕ) × Reach agent fresh u × (u.next ≡ none)
unfolding fresh_thread
Thread-Finishes_example = Thread-Finishes agent fresh (λ h. (mail ∷ lookup_action ∷ [], refl))
