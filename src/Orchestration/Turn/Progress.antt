-- ===== src/Orchestration/Turn/Progress.antt =====
-- A turn comes to its end.
use atlas_alpha.Prelude.{
  ◌≡◌, refl, ◌≢◌, true, any, Bool-cases, inl, inr, ◌∷◌, [], Option, none, some, List,
}
use atlas_alpha.Prelude.Result.{ok}
use atlas_alpha.Value.{bool}
use atlas_alpha.Actions.{ProposedAction, ApprovalDecision, needs_approval}
use atlas_alpha.Execution.{State}
use atlas_alpha.Orchestration.State.{AgentState, Agent}
use atlas_alpha.Orchestration.Decisions.{parse_decisions}
use atlas_alpha.Orchestration.Planner.Authorized.{plan_of, planner_node-total}
use atlas_alpha.Orchestration.Approval.{valid_ids}
use atlas_alpha.Orchestration.Approval.Bound.{approval_node-total}
use atlas_alpha.Orchestration.Executor.Safety.{executor_node-IsSafe}
use atlas_alpha.Orchestration.Turn.{
  Node, planner, approval, executor, responder, to_executor, route_after_planner, successor, Thread,
  thread, node_run, Step, commits, Reach, here, step,
}

module _ {W : Type 0} (agent : Agent W) where
  Finishes : Thread W → Type 0
  Finishes t = (u : Thread W) × Reach agent t u × (u.next ≡ none)

  Reach-trans : {t u v : Thread W} → Reach agent t u → Reach agent u v → Reach agent t v
  Reach-trans r here = r
  Reach-trans r (step r' st) = step (Reach-trans r r') st

  Step-Finishes : (t u : Thread W) → Step agent t u → Finishes u → Finishes t
  unfolding Finishes
  Step-Finishes t u st (v, r, e) = (v, Reach-trans (step here st) r, e)

  responder-Finishes : (v : AgentState) (s : State W) → Finishes (thread (some responder) v s)
  unfolding Finishes node_run successor
  responder-Finishes v s = (_, step here (commits (bool true) responder v _ s refl), refl)

  executor-Finishes : (v : AgentState) (s : State W) → Finishes (thread (some executor) v s)
  unfolding node_run successor
  executor-Finishes v s =
      let (results, e, _, _, _, _) = executor_node-IsSafe agent v s in
      Step-Finishes _ _ (commits (bool true) executor v _ s e) (responder-Finishes _ _)

  parse_decisions-bool :
      (v : AgentState)
      → (ds : List ApprovalDecision) × (parse_decisions agent.render (valid_ids v) (bool true)
          ≡ ok ds)
  unfolding parse_decisions
  parse_decisions-bool v = (_, refl)

  approval-Finishes : (v : AgentState) (s : State W) → Finishes (thread (some approval) v s)
  unfolding node_run successor
  approval-Finishes v s =
      let (ds, parsed) = parse_decisions-bool v in
      let (v', e) = approval_node-total agent v (bool true) s ds parsed in
      Step-Finishes _ _ (commits (bool true) approval v v' s e) (executor-Finishes _ _)

  node-Finishes :
      (n : Node) (v : AgentState) (s : State W) → n ≢ planner → Finishes (thread (some n) v s)
  node-Finishes planner v s h = absurd (h refl)
  node-Finishes approval v s h = approval-Finishes v s
  node-Finishes executor v s h = executor-Finishes v s
  node-Finishes responder v s h = responder-Finishes v s

  to_executor-forward : (actions : List ProposedAction) → to_executor actions ≢ planner
  to_executor-forward [] h = cc
  to_executor-forward (_ ∷ _) h = cc

  route-forward : (v : AgentState) → route_after_planner v ≢ planner
  unfolding route_after_planner
  route-forward v h = elim (Bool-cases (any needs_approval v.proposed_actions)) [
    | inl gated ↦ let bad : approval ≡ planner = rw gated at h in cc
    | inr free ↦ to_executor-forward v.proposed_actions (rw free at h)
  ]

  at-Finishes :
      (next : Option Node) (v : AgentState) (s : State W)
      → (next ≡ some planner → (planned : List ProposedAction) × (plan_of agent v ≡ ok planned))
      → Finishes (thread next v s)
  unfolding Finishes node_run successor
  at-Finishes none v s plans = (thread none v s, here, refl)
  at-Finishes (some planner) v s plans =
      let (planned, e) = plans refl in
      let (v', h) = planner_node-total agent v s planned e in
      Step-Finishes _ _ (commits (bool true) planner v v' s h)
        (node-Finishes (route_after_planner v') v' _ (route-forward v'))
  at-Finishes (some approval) v s plans = approval-Finishes v s
  at-Finishes (some executor) v s plans = executor-Finishes v s
  at-Finishes (some responder) v s plans = responder-Finishes v s

  -- No thread is stuck: wherever it stands, and in whatever state, it can come to its end, provided
  -- that, where the planner is next, the strategy returns a plan. No later node can raise for good, and
  -- a thread that waits for an approval has a payload that resumes it.
  pub Thread-Finishes :
      (t : Thread W)
      → (t.next ≡ some planner
          → (planned : List ProposedAction) × (plan_of agent t.values ≡ ok planned))
      → (u : Thread W) × Reach agent t u × (u.next ≡ none)
  unfolding Finishes
  Thread-Finishes t plans = at-Finishes t.next t.values t.shared plans
