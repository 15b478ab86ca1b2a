-- ===== src/Orchestration/Turn.antt =====
-- One turn of a thread: the edges of build_graph (src/atlas/orchestration/graph.py), and
-- `route_after_planner` of src/atlas/orchestration/nodes.py. The runtime that LangGraph provides is a
-- step relation: it runs the node that is next on the saved state, and saves what the node returns; a
-- node that raises, or whose process stops before its update is saved, runs again later on the same
-- saved state, while what it did to the log and to the tools' world stays.
pub mod Safety
pub mod Progress
use atlas_alpha.Prelude.{
  Bool, true, false, ◌≡◌, String, Option, none, some, List, [], ◌∷◌, any, if◌then◌else◌,
}
use atlas_alpha.Prelude.Result.{Result, ok, err}
use atlas_alpha.Value.{Value}
use atlas_alpha.Actions.{ProposedAction, needs_approval}
use atlas_alpha.Policy.{Principal}
use atlas_alpha.Execution.{State}
use atlas_alpha.Orchestration.State.{AgentState, Agent, initial_state}
use atlas_alpha.Orchestration.Planner.{planner_node}
use atlas_alpha.Orchestration.Approval.{approval_node}
use atlas_alpha.Orchestration.Executor.{executor_node}
use atlas_alpha.Orchestration.Responder.{responder_node}

pub data Node : Type 0 where
  planner approval executor responder : Node

abbrev pub to_executor : List ProposedAction → Node
to_executor [] = responder
to_executor (_ ∷ _) = executor

unfoldable pub route_after_planner : AgentState → Node
route_after_planner state =
    if any needs_approval state.proposed_actions
    then approval
    else to_executor state.proposed_actions

-- The edges, `none` for END.
unfoldable pub successor : Node → AgentState → Option Node
unfolding route_after_planner
successor planner state = some (route_after_planner state)
successor approval state = some executor
successor executor state = some responder
successor responder state = none

pub record Thread (W : Type 0) : Type 0 where
  pub next : Option Node
  pub values : AgentState
  pub shared : State W

abbrev pub thread : {W : Type 0} → Option Node → AgentState → State W → Thread W
thread next values shared = record { next = next; values = values; shared = shared }

module _ {W : Type 0} (agent : Agent W) where
  -- A node on a state; the approval node is given the value that resumes the thread.
  unfoldable pub node_run : Value → Node → AgentState → State W → Result AgentState × State W
  node_run raw planner state s = planner_node agent state s
  node_run raw approval state s = approval_node agent state raw s
  node_run raw executor state s = executor_node agent state s
  node_run raw responder state s = (ok (responder_node agent state), s)

  pub data Step : Thread W → Thread W → Type 0 where
    commits :
        (raw : Value) (n : Node) (v v' : AgentState) (s : State W)
        → (node_run raw n v s).0 ≡ ok v'
        → Step (thread (some n) v s) (thread (successor n v') v' (node_run raw n v s).1)
    repeats :
        (raw : Value) (n : Node) (v : AgentState) (s : State W)
        → Step (thread (some n) v s) (thread (some n) v (node_run raw n v s).1)

  pub data Reach (s : Thread W) : Thread W → Type 0 where
    here : Reach s s
    step : {t u : Thread W} → Reach s t → Step t u → Reach s u

-- `POST /chat` (src/atlas/interface/routes.py): a fresh thread.
unfoldable pub fresh_thread : {W : Type 0} → String → Principal → State W → Thread W
fresh_thread message principal s = thread (some planner) (initial_state message (some principal)) s
