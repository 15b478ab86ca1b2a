-- ===== src/Audit/Recorders.antt =====
-- The recorders of `AuditLog`, and its idempotency check.
use atlas_alpha.Prelude.{
  ℕ, Bool, true, false, not, ◌&&◌, String, Option, none, some, List, [], ◌∷◌, ◌==◌, if◌then◌else◌,
  any,
}
use atlas_alpha.Prelude.Result.{Result, ok, raise}
use atlas_alpha.Value.{Value, null, bool, int, text, obj, Fields, field, end, get, merge}
use atlas_alpha.Actions.{value, ProposedAction, ApprovalDecision, ActionResult}
use atlas_alpha.Audit.{
  Env, Log, AuditEvent, AuditEventType, proposed, approved, rejected, executed, replay_skipped,
  failed, skipped, denied, ingested, AuditToolContext, record_event,
}

abbrev maybe_field : String → Option String → Fields → Fields
maybe_field key none rest = rest
maybe_field key (some s) rest = field key (text s) rest

-- `extra.model_dump(exclude_none=True, by_alias=True)`
pub dump_context : AuditToolContext → Fields
dump_context c = maybe_field "schema" c.tool_schema (
    maybe_field "schema_version" c.schema_version (
      maybe_field "destination_host" c.destination_host
        (maybe_field "provider" c.provider (maybe_field "principal" c.principal end))))

unfoldable pub merge_detail : Fields → Option AuditToolContext → Fields
unfolding dump_context
merge_detail base none = base
merge_detail base (some extra) = merge (dump_context extra) base

abbrev is_executed : AuditEventType → Bool
is_executed executed = true
is_executed _ = false

-- `detail.get("ok", True) is True`
abbrev is_ok : Option Value → Bool
is_ok none = true
is_ok (some (bool b)) = b
is_ok (some _) = false

unfoldable pub counts_as_executed : AuditEvent → Bool
counts_as_executed event = is_executed event.event_type && is_ok (get "ok" event.detail)

-- `AuditLog.events`
unfoldable pub events : Log → List AuditEvent
events [] = []
events (r ∷ records) = r.event ∷ events records

unfoldable pub has_executed : String → Log → Bool
unfolding counts_as_executed events
has_executed action_id log =
    any (λ event. counts_as_executed event && event.action_id == action_id) (events log)

abbrev optional_text : Option String → Value
optional_text none = null
optional_text (some s) = text s

module _ (env : Env) where
  unfoldable pub log_proposed : ProposedAction → Log → Log
  log_proposed action =
      record_event env proposed action.action_id (some action.tool) "system"
        (field "risk_tier" (text (value action.risk_tier)) (field "args" (obj action.args) end))

  unfoldable pub decided : ApprovalDecision → Log → Log
  decided decision =
      record_event env (if decision.approved then approved else rejected) decision.action_id none
        decision.decided_by end

  abbrev pub outcome_detail : ActionResult → Fields
  outcome_detail result =
      field "ok" (bool result.ok) (field "error" (optional_text result.error) end)

  -- `AuditLog.executed`, which refuses a failed result.
  unfoldable pub log_executed : ActionResult → Option AuditToolContext → Log → Result Log
  unfolding merge_detail
  log_executed result extra log =
      if not result.ok
      then raise "ValueError" "executed() is success-only; use failed()"
      else ok (
          record_event env executed result.action_id (some result.tool) "system"
            (merge_detail (outcome_detail result) extra) log)

  unfoldable pub log_failed : ActionResult → Option AuditToolContext → Log → Log
  unfolding merge_detail
  log_failed result extra =
      record_event env failed result.action_id (some result.tool) "system"
        (merge_detail (outcome_detail result) extra)

  abbrev pub reason_detail : String → Fields
  reason_detail reason = field "reason" (text reason) end

  unfoldable pub log_replay_skipped : ProposedAction → String → Option AuditToolContext → Log → Log
  unfolding merge_detail
  log_replay_skipped action reason extra =
      record_event env replay_skipped action.action_id (some action.tool) "system"
        (merge_detail (reason_detail reason) extra)

  unfoldable pub log_skipped : ProposedAction → String → Option AuditToolContext → Log → Log
  unfolding merge_detail
  log_skipped action reason extra =
      record_event env skipped action.action_id (some action.tool) "system"
        (merge_detail (reason_detail reason) extra)

  unfoldable pub log_denied : ProposedAction → String → String → Option AuditToolContext → Log → Log
  unfolding merge_detail
  log_denied action principal_id reason extra =
      record_event env denied action.action_id (some action.tool) principal_id
        (merge_detail (reason_detail reason) extra)

  abbrev maybe_count : String → Option ℕ → Fields → Fields
  maybe_count key none rest = rest
  maybe_count key (some n) rest = field key (int n) rest

  unfoldable pub log_ingested : String → String → ℕ → String → Option ℕ → Option ℕ → Log → Log
  log_ingested source_id scope entity_count actor extracted_entity_count relation_count =
      record_event env ingested source_id none actor (
        field "scope" (text scope) (
          field "entity_count" (int entity_count) (
            maybe_count "extracted_entity_count" extracted_entity_count
              (maybe_count "relation_count" relation_count end))))
