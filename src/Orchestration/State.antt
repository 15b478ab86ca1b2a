-- ===== src/Orchestration/State.antt =====
-- src/atlas/orchestration/state.py: the state of a thread, a missing channel by its default, and the
-- collaborators that build_graph (src/atlas/orchestration/graph.py) hands to the nodes.
use atlas_alpha.Prelude.{ℕ, Bool, String, Option, none, some, List, [], ◌∷◌, Dict}
use atlas_alpha.Prelude.Result.{Result}
use atlas_alpha.Value.{Value}
use atlas_alpha.Actions.{ProposedAction, ActionResult}
use atlas_alpha.Policy.{Principal, anonymous, PolicyStore}
use atlas_alpha.Audit.{Env}
use atlas_alpha.Registry.{Tool}
use atlas_alpha.Knowledge.{Entity}
use atlas_alpha.Confidence.{Source}

pub data Role : Type 0 where
  human ai : Role

pub record Message : Type 0 where
  pub role : Role
  pub content : String

pub record AgentState : Type 0 where
  pub messages : List Message
  pub principal : Option Principal
  pub kg_context : List Entity
  pub proposed_actions : List ProposedAction
  pub approved_action_ids : List String
  pub rejected_action_ids : List String
  pub action_results : List ActionResult
  pub sources : List Source
  pub confidence : Option ℕ

abbrev or_anonymous : Option Principal → Principal
or_anonymous none = anonymous
or_anonymous (some p) = p

unfoldable pub initial_state : String → Option Principal → AgentState
initial_state user_message principal = record {
  messages = record { role = human; content = user_message } ∷ [];
  principal = some (or_anonymous principal);
  kg_context = [];
  proposed_actions = [];
  approved_action_ids = [];
  rejected_action_ids = [];
  action_results = [];
  sources = [];
  confidence = none;
}

-- `get_current_principal` of src/atlas/governance/rbac.py
unfoldable pub get_current_principal : AgentState → Principal
get_current_principal s = or_anonymous s.principal

-- What the nodes are given: the planner, the knowledge graph's `query`, the narrator if there is one,
-- and what Python's own functions decide (see Confidence).
pub record Agent (W : Type 0) : Type 0 where
  pub env : Env
  pub tools : Dict (Tool W)
  pub policy : PolicyStore
  pub plan_fn : String → Dict (Tool W) → List Entity → Result (List ProposedAction)
  pub query : Option Principal → String → ℕ → List Entity
  pub narrator : Option (String → String → Result String)
  pub render : Value → String
  pub rounds_up : ℕ → ℕ → Bool

-- `_last_user_text`, from the text so far
last_user_from : String → List Message → String
last_user_from found [] = found
last_user_from found (m ∷ messages) =
    last_user_from (elim m.role [ human ↦ m.content | ai ↦ found ]) messages

unfoldable pub last_user_text : List Message → String
unfolding last_user_from
last_user_text messages = last_user_from "" messages
