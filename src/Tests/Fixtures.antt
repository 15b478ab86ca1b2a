-- ===== src/Tests/Fixtures.antt =====
-- The data that the examples share. The tools' world is the number of emails sent.
use atlas_alpha.Prelude.{ℕ, zero, suc, ◌+◌, true, String, none, some, List, [], ◌∷◌, Dict, refl}
use Prim.Native.Nat.{◌%◌}
use atlas_alpha.Prelude.Result.{ok}
use atlas_alpha.Value.{text, field, end}
use atlas_alpha.Actions.{read, send, ProposedAction}
use atlas_alpha.Policy.{Principal, default_policy}
use atlas_alpha.Audit.{Env, AuditToolContext, AuditEvent, proposed, codes}
use atlas_alpha.Audit.Tamper.{IsWide}
use atlas_alpha.Registry.{Tool}
use atlas_alpha.Execution.{State}
use atlas_alpha.Knowledge.{Entity, personal}
use atlas_alpha.Orchestration.State.{AgentState, Agent}

abbrev pub sum : List ℕ → ℕ
sum [] = 0
sum (n ∷ ns) = n + sum ns

abbrev pub digest : ℕ → String
digest zero = "0000000000000000000000000000000000000000000000000000000000000000"
digest (suc _) = "1111111111111111111111111111111111111111111111111111111111111111"

-- A digest by parity, 64 digits wide.
abbrev pub env : Env
env = record {
  canonical_event_bytes = λ e. codes e.action_id;
  sha256 = λ bytes. digest (sum bytes % 2);
  stamp = λ n. ("evt", "2026-01-01T00:00:00Z");
}

abbrev pub digest-IsWide : (n : ℕ) → IsWide env (digest n)
digest-IsWide zero = refl
digest-IsWide (suc n) = refl

abbrev pub alice : Principal
alice = record { user_id = "alice"; roles = "member" ∷ []; org_id = some "acme" }

abbrev pub bob : Principal
bob = record { user_id = "bob"; roles = "guest" ∷ []; org_id = some "acme" }

abbrev pub no_context : AuditToolContext
no_context = record {
  tool_schema = none;
  schema_version = none;
  destination_host = none;
  provider = none;
  principal = none;
}

abbrev pub mail_context : AuditToolContext
mail_context = record {
  tool_schema = none;
  schema_version = none;
  destination_host = some "api.resend.com";
  provider = some "resend";
  principal = some "alice";
}

abbrev pub send_email : Tool ℕ
send_email = record {
  name = "send_email";
  description = "Send an email.";
  risk_tier = send;
  required_permission = some "tool:send";
  validate = λ args. ok args;
  resource_permission = λ args. ok (some "email");
  run = λ args p n. (ok (text "sent"), suc n);
  audit_metadata = mail_context;
}

abbrev pub search_tool : Tool ℕ
search_tool = record {
  name = "search";
  description = "Search.";
  risk_tier = read;
  required_permission = none;
  validate = λ args. ok args;
  resource_permission = λ args. ok none;
  run = λ args p n. (ok (text "found"), n);
  audit_metadata = no_context;
}

abbrev pub tools : Dict (Tool ℕ)
tools = ("search", search_tool) ∷ ("send_email", send_email) ∷ []

abbrev pub mail : ProposedAction
mail = record {
  action_id = "act_1";
  tool = "send_email";
  args = field "to" (text "carol@example.com") end;
  risk_tier = send;
  rationale = "asked";
  required_permission = some "tool:send:email";
}

abbrev pub lookup_action : ProposedAction
lookup_action = record {
  action_id = "act_2";
  tool = "search";
  args = field "query" (text "carol") end;
  risk_tier = read;
  rationale = "asked";
  required_permission = none;
}

abbrev pub agent : Agent ℕ
agent = record {
  env = env;
  tools = tools;
  policy = default_policy;
  plan_fn = λ request tools context. ok (mail ∷ lookup_action ∷ []);
  query = λ p request n. [];
  narrator = none;
  render = λ v. "";
  rounds_up = λ a b. true;
}

-- A state on which the planner has run, and one on which the decision has been taken.
abbrev pub pending : AgentState
pending = record {
  messages = [];
  principal = some alice;
  kg_context = [];
  proposed_actions = mail ∷ lookup_action ∷ [];
  approved_action_ids = [];
  rejected_action_ids = [];
  action_results = [];
  sources = [];
  confidence = none;
}

abbrev pub decided : AgentState
decided = record pending { approved_action_ids = "act_1" ∷ [] }

abbrev pub start : State ℕ
start = record { log = []; world = 0 }

abbrev pub first_event : AuditEvent
first_event = record {
  event_id = "evt";
  timestamp = "2026-01-01T00:00:00Z";
  event_type = proposed;
  action_id = "act_1";
  tool = some "send_email";
  actor = "system";
  detail = end;
}

abbrev pub carol : Entity
carol = record {
  id = "e1";
  type = "person";
  name = "Carol";
  content = "carol@example.com";
  acl = "kg:read:personal" ∷ [];
  scope = personal;
}
