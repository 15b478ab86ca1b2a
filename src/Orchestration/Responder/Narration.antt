-- ===== src/Orchestration/Responder/Narration.antt =====
-- What the responder reports, and that a narrator only rephrases it.
use atlas_alpha.Prelude.{
  ◌≡◌, ◌≢◌, refl, sym, ap, ◌∙◌, false, ◌⊎◌, inl, inr, String, Option, none, some, List, [], ◌∷◌,
  ◌++◌, ◌==◌, eq_iff, In, Bool-cases, Option-cases,
}
use mathlib.Core.Option.{some-injective}
use atlas_alpha.Prelude.Result.{Error, Result, err}
use atlas_alpha.Value.{Value}
use atlas_alpha.Actions.{ProposedAction, ActionResult}
use atlas_alpha.Orchestration.State.{AgentState, Agent, ai, last_user_text}
use atlas_alpha.Orchestration.Responder.{
  result_of, result_line, line_of, missing_line, summary_lines, summarize, narrate, responder_node,
}

HasResult : String → List ActionResult → Type 0
HasResult id results = (r : ActionResult) × In r results × (r.action_id ≡ id)

eq-false : (a b : String) → (a == b) ≡ false → a ≢ b
eq-false a b h same = let yes_too = (eq_iff a b).1 same in cc

result_of-some :
    (id : String) (results : List ActionResult) (r : ActionResult)
    → result_of id results ≡ some r
    → In r results × (r.action_id ≡ id)
unfolding result_of
result_of-some id [] r h = cc
result_of-some id (x ∷ results) r h = elim (Option-cases (result_of id results)) [
  | inl e ↦ elim (Bool-cases (x.action_id == id)) [
    | inl same ↦
        let here : some x ≡ some r = rw (e, same) at h in
        (
          inl (some-injective x r here),
          ap (λ y. y.action_id) (sym (some-injective x r here)) ∙ (eq_iff x.action_id id).0 same,
        )
    | inr other ↦ let bad : none ≡ some r = rw (e, other) at h in cc
  ]
  | inr (later, e) ↦
      let same : some later ≡ some r = rw e at h in
      let (i, q) = result_of-some id results r (e ∙ same) in (inr i, q)
]

result_of-none :
    (id : String) (results : List ActionResult)
    → result_of id results ≡ none
    → (r : ActionResult) → In r results
    → r.action_id ≢ id
unfolding result_of
result_of-none id [] h r i = elim i [ ]
result_of-none id (x ∷ results) h r i = elim (Option-cases (result_of id results)) [
  | inl e ↦ elim (Bool-cases (x.action_id == id)) [
    | inl same ↦ let bad : some x ≡ none = rw (e, same) at h in cc
    | inr other ↦ elim i [
      | inl here ↦ λ q. eq-false x.action_id id other (ap (λ y. y.action_id) here ∙ q)
      | inr there ↦ result_of-none id results e r there
    ]
  ]
  | inr (later, e) ↦ let bad : some later ≡ none = rw e at h in cc
]

module _ (render : Value → String) (results : List ActionResult) (rejected : List String) where
  -- Each proposed action has a line in the summary: that of one of its results, or, if it has no result
  -- at all, the line that calls it rejected or skipped.
  pub summary_lines-report :
      (actions : List ProposedAction) (a : ProposedAction)
      → In a actions
      → ((r : ActionResult) × In r results
          × (r.action_id ≡ a.action_id)
          × In (result_line render a.tool r) (summary_lines render actions results rejected))
        ⊎ (((r : ActionResult) → In r results → r.action_id ≢ a.action_id)
            × In (missing_line render rejected a) (summary_lines render actions results rejected))
  unfolding summary_lines line_of
  summary_lines-report [] a i = elim i [ ]
  summary_lines-report (x ∷ actions) a (inl here) =
      let line : (o : Option ActionResult)
          → result_of a.action_id results ≡ o
          → line_of render rejected x (result_of x.action_id results)
            ≡ line_of render rejected a o =
        λ o e.
          ap (λ y. line_of render rejected y (result_of y.action_id results)) here
          ∙ ap (line_of render rejected a) e in
      elim (Option-cases (result_of a.action_id results)) [
        | inl e ↦ inr (result_of-none a.action_id results e, inl (line none e))
        | inr (r, e) ↦
            let (i, q) = result_of-some a.action_id results r e in
            inl (r, i, q, inl (line (some r) e))
      ]
  summary_lines-report (x ∷ actions) a (inr there) = elim (summary_lines-report actions a there) [
    | inl (r, i, q, line) ↦ inl (r, i, q, inr line)
    | inr (missing, line) ↦ inr (missing, inr line)
  ]

module _ {W : Type 0} (agent : Agent W) (state : AgentState) where
  abbrev summary_of : String
  summary_of =
      summarize agent.render state.proposed_actions state.action_results state.rejected_action_ids

  narrate-raised :
      (narrator : Option (String → String → Result String))
      (respond : String → String → Result String) (request facts summary : String)
      → narrator ≡ some respond
      → ((e : Error) × (respond request facts ≡ err e))
      → narrate narrator request facts summary ≡ summary
  unfolding narrate
  narrate-raised narrator respond request facts summary h (e, raised) =
      ap (λ n. narrate n request facts summary) h ∙ failed
    where
      failed : narrate (some respond) request facts summary ≡ summary
      failed = rw raised refl

  abbrev with_answer : String → AgentState
  with_answer answer =
      let plain = responder_node (record agent { narrator = none }) state in
      record plain { messages = state.messages ++ (record { role = ai; content = answer } ∷ []) }

  -- The responder adds one message to the thread, after those that are there. A narrator can choose its
  -- words and nothing else: with another narrator, or with none, the node leaves the same state but for
  -- that message. Without a narrator, and where the narrator raises, the words are the summary's.
  pub responder_node-narrator :
      (narrator : Option (String → String → Result String))
      → let told = responder_node (record agent { narrator = narrator }) state in
        let plain = responder_node (record agent { narrator = none }) state in
        ((answer : String) × (told ≡ record plain {
          messages = state.messages ++ (record { role = ai; content = answer } ∷ []);
        }))
        × (plain.messages ≡ state.messages ++ (record { role = ai; content = summary_of } ∷ []))
        × ((respond : String → String → Result String)
            → narrator ≡ some respond
            → ((request facts : String) → (e : Error) × (respond request facts ≡ err e))
            → told ≡ plain)
  unfolding responder_node
  responder_node-narrator narrator = (
    (_, refl),
    refl,
    λ respond h raises. ap with_answer (
        narrate-raised narrator respond (last_user_text state.messages) _ summary_of h
          (raises _ _)),
  )
