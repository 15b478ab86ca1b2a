-- ===== src/Orchestration/Responder.antt =====
-- The responder node of src/atlas/orchestration/nodes.py, and its helpers.
pub mod Narration
use atlas_alpha.Prelude.{
  Bool, true, false, ◌&&◌, String, Option, none, some, List, [], ◌∷◌, ◌++◌, ◌==◌, append, contains,
  if◌then◌else◌,
}
use atlas_alpha.Prelude.Result.{Result, ok, err}
use atlas_alpha.Value.{Value, obj, get, truthy}
use atlas_alpha.Actions.{value, ProposedAction, ActionResult}
use atlas_alpha.Confidence.{Source, str, collect_sources, score_confidence}
use atlas_alpha.Execution.{State}
use atlas_alpha.Orchestration.State.{AgentState, Agent, ai, last_user_text}
use atlas_alpha.Orchestration.Gate.{shown}

-- `"\n".join(lines)`
join_lines : List String → String
join_lines [] = ""
join_lines (line ∷ []) = line
join_lines (line ∷ (l ∷ ls)) = append line (append "\n" (join_lines (l ∷ ls)))

-- `by_id.get(action_id)`: the last result of that action
result_of : String → List ActionResult → Option ActionResult
result_of id [] = none
result_of id (r ∷ rs) = elim (result_of id rs) [
  | some later ↦ some later
  | none ↦ if r.action_id == id then some r else none
]

-- `isinstance(result.output, dict) and result.output.get("replay_skipped")`
replayed : Value → Bool
replayed (obj fields) = elim (get "replay_skipped" fields) [ some v ↦ truthy v | none ↦ false ]
replayed _ = false

module _ (render : Value → String) where
  pub result_line : String → ActionResult → String
  unfolding replayed
  result_line tool r =
      if replayed r.output
      then append "- Replay skipped (already executed): " tool
      else if r.ok
      then append (append (append "- Executed: " tool) " -> ") (str render r.output)
      else append (append (append "- Failed: " tool) " -> ") (shown r.error)

  pub missing_line : List String → ProposedAction → String
  missing_line rejected action =
      let verb =
        if contains rejected action.action_id then "Rejected" else "Skipped (not approved)" in
      append (append (append (append (append "- " verb) ": ") action.tool) " (")
        (append (value action.risk_tier) ")")

  -- The line of an action, with its result if it has one.
  line_of : List String → ProposedAction → Option ActionResult → String
  unfolding result_line missing_line
  line_of rejected action none = missing_line rejected action
  line_of rejected action (some r) = result_line action.tool r

  pub summary_lines : List ProposedAction → List ActionResult → List String → List String
  unfolding result_of line_of
  summary_lines [] results rejected = []
  summary_lines (action ∷ actions) results rejected =
      line_of rejected action (result_of action.action_id results)
      ∷ summary_lines actions results rejected

  -- `_summarize`
  pub summarize : List ProposedAction → List ActionResult → List String → String
  unfolding summary_lines join_lines
  summarize [] results rejected = "I did not need to take any actions to answer that."
  summarize (action ∷ actions) results rejected =
      append "Here is what I did:\n"
        (join_lines (summary_lines (action ∷ actions) results rejected))

-- `source.label or source.ref`
source_line : Source → String
source_line s = append "- " (if s.label == "" then s.ref else s.label)

source_lines : List Source → List String
unfolding source_line
source_lines [] = []
source_lines (s ∷ sources) = source_line s ∷ source_lines sources

-- `_facts_block`
facts_block : String → List Source → String
unfolding source_lines join_lines
facts_block summary [] = summary
facts_block summary (s ∷ sources) =
    join_lines (summary ∷ ("Sources used:" ∷ source_lines (s ∷ sources)))

-- The narrator's text, or the summary where there is no narrator or it raises.
narrate : Option (String → String → Result String) → String → String → String → String
narrate none request facts summary = summary
narrate (some respond) request facts summary = elim (respond request facts) [
  | ok narrated ↦ narrated
  | err _ ↦ summary
]

module _ {W : Type 0} (agent : Agent W) where
  -- The update of the node, written into the state: messages are added, the other channels replaced.
  unfoldable pub responder_node : AgentState → AgentState
  unfolding summarize facts_block narrate
  responder_node state =
      let confidence = score_confidence agent.rounds_up state.action_results state.kg_context in
      let sources = collect_sources agent.render state.action_results state.kg_context in
      let summary =
        summarize agent.render state.proposed_actions state.action_results
          state.rejected_action_ids in
      let answer =
        narrate agent.narrator (last_user_text state.messages) (facts_block summary sources)
          summary in
      record state {
        messages = state.messages ++ (record { role = ai; content = answer } ∷ []);
        confidence = some confidence;
        sources = sources;
      }
