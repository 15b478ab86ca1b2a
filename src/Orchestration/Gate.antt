-- ===== src/Orchestration/Gate.antt =====
-- The guards that the planner and the executor share: `_required_permission_for` of
-- src/atlas/orchestration/nodes.py, and the checks of one action.
pub mod Cleared
use atlas_alpha.Prelude.{
  Bool, true, false, not, ◌&&◌, String, Option, none, some, List, [], ◌∷◌, ◌==◌, append, contains,
  Dict, if◌then◌else◌,
}
use atlas_alpha.Prelude.Result.{Result, ok, err, raise, ◌>>=◌}
use atlas_alpha.Actions.{tier, requires_approval, ProposedAction}
use atlas_alpha.Policy.{Principal, PolicyStore, can}
use atlas_alpha.Audit.{AuditToolContext}
use atlas_alpha.Registry.{Tool, get_tool, permission_for}
use atlas_alpha.Orchestration.State.{Agent}

-- `stamped is not None and stamped != derived`
abbrev pub differs : Option String → Option String → Bool
differs none derived = false
differs (some s) none = true
differs (some s) (some d) = not (s == d)

-- `None` in an f-string
abbrev pub shown : Option String → String
shown none = "None"
shown (some s) = s

-- The stamped permission against the one derived from the arguments. The message's texts stand
-- unquoted here; no caller reads it.
reconcile : Option String → Option String → Result (Option String)
reconcile stamped derived =
    if differs stamped derived
    then raise "ValueError" (
        append (append (append "stamped permission " (shown stamped)) " != args-derived ")
          (shown derived))
    else ok derived

-- What the executor does with an action.
pub data Verdict : Type 0 where
  deny : String → AuditToolContext → Verdict
  skip : String → AuditToolContext → Verdict
  run : AuditToolContext → Verdict

abbrev only_principal : Principal → AuditToolContext
only_principal p = record {
  tool_schema = none;
  schema_version = none;
  destination_host = none;
  provider = none;
  principal = some p.user_id;
}

module _ {W : Type 0} where
  unfoldable pub required_permission_for : ProposedAction → Tool W → Result (Option String)
  unfolding reconcile
  required_permission_for action tool = do
    args ← tool.validate action.args
    derived ← permission_for tool args
    reconcile action.required_permission derived

  -- `AuditToolContext(**tool.audit_metadata(), principal=principal.user_id)`
  abbrev meta_for : Tool W → Principal → AuditToolContext
  meta_for tool p = record (tool.audit_metadata) { principal = some p.user_id }

  module _ (agent : Agent W) (principal : Principal) where
    -- The approval check, the last one of the executor's loop.
    approved_verdict : List String → ProposedAction → AuditToolContext → Verdict
    approved_verdict approved action meta =
        if requires_approval (tier action.risk_tier) && not (contains approved action.action_id)
        then skip "not approved" meta
        else run meta

    -- The permission check, where `_required_permission_for` gave `resolved`.
    resolved_verdict :
        List String → ProposedAction → AuditToolContext → Result (Option String) → Verdict
    resolved_verdict approved action meta (err _) =
        deny "could not resolve required permission" meta
    resolved_verdict approved action meta (ok required) =
        if not (can agent.policy (some principal) required)
        then deny (append "missing permission: " (shown required)) meta
        else approved_verdict approved action meta

    -- The checks, where the registry gave `found`.
    found_verdict : List String → ProposedAction → Result (Tool W) → Verdict
    found_verdict approved action (err _) = deny "unknown tool" (only_principal principal)
    found_verdict approved action (ok tool) =
        resolved_verdict approved action (meta_for tool principal)
          (required_permission_for action tool)

    -- The guards of the executor's loop, in their order.
    unfoldable pub gate : List String → ProposedAction → Verdict
    unfolding found_verdict resolved_verdict approved_verdict
    gate approved action = found_verdict approved action (get_tool action.tool agent.tools)
