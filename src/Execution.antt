-- ===== src/Execution.antt =====
-- src/atlas/execution.py: guarded execution, idempotent by the audit log.
pub mod Idempotency
use atlas_alpha.Prelude.{
  Bool, true, ◌&&◌, String, Option, none, some, List, [], ◌∷◌, ◌==◌, if◌then◌else◌, Dict,
}
use mathlib.Core.List.{reverse}
use atlas_alpha.Prelude.Result.{Error, Result, ok, err}
use atlas_alpha.Value.{Value, bool, obj, Fields, field, end}
use atlas_alpha.Actions.{tier, requires_approval, ProposedAction, ActionResult}
use atlas_alpha.Policy.{Principal}
use atlas_alpha.Audit.{Env, Log, AuditEvent, AuditToolContext}
use atlas_alpha.Audit.Recorders.{
  events, counts_as_executed, has_executed, log_executed, log_failed, log_replay_skipped,
}
use atlas_alpha.Registry.{Tool, execute}

-- What execution changes: the audit log and the world that the tools act on.
pub record State (W : Type 0) : Type 0 where
  pub log : Log
  pub world : W

-- The loop of `_replay_result` over the events, the latest first.
prior_output : String → List AuditEvent → Fields
prior_output action_id [] = field "replay_skipped" (bool true) end
prior_output action_id (event ∷ earlier) =
    if counts_as_executed event && event.action_id == action_id
    then field "replay_skipped" (bool true) (field "prior" (obj event.detail) end)
    else prior_output action_id earlier

unfoldable pub replay_result : ProposedAction → Log → ActionResult
unfolding prior_output
replay_result action log = record {
  action_id = action.action_id;
  tool = action.tool;
  ok = true;
  output = obj (prior_output action.action_id (reverse (events log)));
  error = none;
}

module _ (env : Env) {W : Type 0} where
  -- The audit of a fresh result; a raise of the recorder passes on.
  record_result : ActionResult → Option AuditToolContext → State W → Result ActionResult × State W
  record_result result extra s =
      if result.ok
      then elim (log_executed env result extra s.log) [
        | ok log ↦ (ok result, record s { log = log })
        | err e ↦ (err e, s)
      ]
      else (ok result, record s { log = log_failed env result extra s.log })

  unfoldable pub execute_guarded :
      Dict (Tool W)
      → ProposedAction
      → Principal
      → Option AuditToolContext
      → State W
      → Result ActionResult × State W
  unfolding record_result
  execute_guarded tools action principal extra s =
      if requires_approval (tier action.risk_tier) && has_executed action.action_id s.log
      then (let log = log_replay_skipped env action "already executed" extra s.log in
          (ok (replay_result action log), record s { log = log }))
      else (let (result, world) = execute action principal tools s.world in
          record_result result extra (record s { world = world }))
