-- ===== src/Orchestration/Executor/Safety.antt =====
-- The executor runs cleared actions only.
use atlas_alpha.Prelude.{
  ◌≡◌, refl, ap, ◌∙◌, ◌≢◌, String, some, List, [], ◌∷◌, In, Some, All, ◌⊎◌, inl, inr,
}
use atlas_alpha.Prelude.Result.{Result, ok, err, ok-injective}
use atlas_alpha.Actions.{ProposedAction, ActionResult}
use atlas_alpha.Policy.{Principal}
use atlas_alpha.Audit.{AuditToolContext, denied, skipped}
use atlas_alpha.Audit.Recorders.{log_denied, log_skipped}
use atlas_alpha.Audit.Growth.{Grows, record_event-Grows}
use atlas_alpha.Execution.{State, execute_guarded}
use atlas_alpha.Execution.Idempotency.{execute_guarded-world, execute_guarded-total}
use atlas_alpha.Orchestration.State.{AgentState, Agent, get_current_principal}
use atlas_alpha.Orchestration.Gate.{Verdict, deny, skip, run, gate}
use atlas_alpha.Orchestration.Gate.Cleared.{IsCleared, gate-run_iff}
use atlas_alpha.Orchestration.Executor.Moves.{
  Move, rests, runs, Moves, stop, move, Moves-more, Moves-Grows, IsEarned, All-IsEarned, Ends,
}
use atlas_alpha.Orchestration.Executor.{prepend, run_actions, executor_node}

module _ {W : Type 0} (agent : Agent W) (principal : Principal) (approved : List String) where
  Verdict-cases :
      (v : Verdict)
      → ((reason : String) × (meta : AuditToolContext) × (v ≡ deny reason meta))
        ⊎ (((reason : String) × (meta : AuditToolContext) × (v ≡ skip reason meta))
            ⊎ ((meta : AuditToolContext) × (v ≡ run meta)))
  Verdict-cases (deny reason meta) = inl (reason, meta, refl)
  Verdict-cases (skip reason meta) = inr (inl (reason, meta, refl))
  Verdict-cases (run meta) = inr (inr (meta, refl))

  prepend-ok :
      (result : ActionResult) (end : Result (List ActionResult) × State W)
      (results : List ActionResult)
      → end.0 ≡ ok results
      → (prepend agent principal approved result end).0 ≡ ok (result ∷ results)
  prepend-ok result (ok _, s) results h = ap (λ x. ok (result ∷ x)) (ok-injective _ results h)
  prepend-ok result (err e, s) results h = cc

  prepend-state :
      (result : ActionResult) (end : Result (List ActionResult) × State W)
      → (prepend agent principal approved result end).1 ≡ end.1
  prepend-state result (ok _, s) = refl
  prepend-state result (err e, s) = refl

  module _ (action : ProposedAction) (actions : List ProposedAction) (s : State W) where
    abbrev after_denied : String → AuditToolContext → State W
    after_denied reason meta = record s {
      log = log_denied agent.env action principal.user_id reason (some meta) s.log;
    }

    abbrev after_skipped : String → AuditToolContext → State W
    after_skipped reason meta = record s {
      log = log_skipped agent.env action reason (some meta) s.log;
    }

    abbrev executed : AuditToolContext → Result ActionResult × State W
    executed meta = execute_guarded agent.env agent.tools action principal (some meta) s

    run_actions-denied :
        (reason : String) (meta : AuditToolContext)
        → gate agent principal approved action ≡ deny reason meta
        → run_actions agent principal approved (action ∷ actions) s
          ≡ run_actions agent principal approved actions (after_denied reason meta)
    unfolding run_actions
    run_actions-denied reason meta e = rw (run_actions, e) refl

    run_actions-skipped :
        (reason : String) (meta : AuditToolContext)
        → gate agent principal approved action ≡ skip reason meta
        → run_actions agent principal approved (action ∷ actions) s
          ≡ run_actions agent principal approved actions (after_skipped reason meta)
    unfolding run_actions
    run_actions-skipped reason meta e = rw (run_actions, e) refl

    run_actions-ran :
        (meta : AuditToolContext) (result : ActionResult)
        → gate agent principal approved action ≡ run meta
        → (executed meta).0 ≡ ok result
        → run_actions agent principal approved (action ∷ actions) s
          ≡ prepend agent principal approved result
              (run_actions agent principal approved actions (executed meta).1)
    unfolding run_actions
    run_actions-ran meta result e f = rw (run_actions, e, f) refl

    after_denied-Grows :
        (reason : String) (meta : AuditToolContext)
        → Grows agent.env s.log (after_denied reason meta).log
    unfolding log_denied
    after_denied-Grows reason meta =
        record_event-Grows agent.env denied action.action_id (some action.tool) principal.user_id _
          s.log

    after_skipped-Grows :
        (reason : String) (meta : AuditToolContext)
        → Grows agent.env s.log (after_skipped reason meta).log
    unfolding log_skipped
    after_skipped-Grows reason meta =
        record_event-Grows agent.env skipped action.action_id (some action.tool) "system" _ s.log

    executed-Move :
        (meta : AuditToolContext)
        → gate agent principal approved action ≡ run meta
        → Move agent principal approved (action ∷ actions) s (executed meta).1
    executed-Move meta e =
        let (_, _, _, grows) =
          execute_guarded-total agent.env agent.tools action principal (some meta) s in
        elim (execute_guarded-world agent.env agent.tools action principal (some meta) s) [
          | inl (_, still) ↦ rests grows still
          | inr (fresh, ran) ↦
              runs action (inl refl) ((gate-run_iff agent principal approved action).0 (meta, e))
                fresh ran grows
        ]

    -- An action that does not run adds no result; the loop goes on from `t`.
    Ends-rests :
        (t : State W)
        → ((meta : AuditToolContext) → gate agent principal approved action ≢ run meta)
        → Grows agent.env s.log t.log
        → t.world ≡ s.world
        → Ends agent principal approved actions t (run_actions agent principal approved actions t)
        → run_actions agent principal approved (action ∷ actions) s
          ≡ run_actions agent principal approved actions t
        → Ends agent principal approved
            (action ∷ actions)
            s
            (run_actions agent principal approved (action ∷ actions) s)
    unfolding Ends
    Ends-rests t refused grows still (results, e, earned, complete, moves) same = (
      results,
      rw same e,
      All-IsEarned agent principal approved action actions results earned,
      λ a i cleared. elim i [
        | inl here ↦
            let (meta, r) = (gate-run_iff agent principal approved a).1 cleared in
            absurd (refused meta (ap (gate agent principal approved) here ∙ r))
        | inr there ↦ complete a there cleared
      ],
      rw same (move (rests grows still) (Moves-more agent principal approved action moves)),
    )

    Ends-runs :
        (meta : AuditToolContext)
        → gate agent principal approved action ≡ run meta
        → Ends agent principal approved actions
            (executed meta).1
            (run_actions agent principal approved actions (executed meta).1)
        → Ends agent principal approved
            (action ∷ actions)
            s
            (run_actions agent principal approved (action ∷ actions) s)
    unfolding Ends
    Ends-runs meta e (results, f, earned, complete, moves) =
        let (result, total, id, _) =
          execute_guarded-total agent.env agent.tools action principal (some meta) s in
        let same = run_actions-ran meta result e total in
        (
          result ∷ results,
          rw
              (
                same,
                prepend-ok result (run_actions agent principal approved actions (executed meta).1)
                    results f,
              )
              refl,
          (
            (action, inl refl, (gate-run_iff agent principal approved action).0 (meta, e), id),
            All-IsEarned agent principal approved action actions results earned,
          ),
          λ a i cleared. elim i [
            | inl here ↦ inl (id ∙ ap (λ x. x.action_id) here)
            | inr there ↦ inr (complete a there cleared)
          ],
          rw
              (
                same,
                prepend-state result
                    (run_actions agent principal approved actions (executed meta).1),
              )
              (move (executed-Move meta e) (Moves-more agent principal approved action moves)),
        )

  run_actions-Ends :
      (actions : List ProposedAction) (s : State W)
      → Ends agent principal approved actions s (run_actions agent principal approved actions s)
  unfolding run_actions Ends
  run_actions-Ends [] s = ([], refl, tt, λ a i cleared. elim i [ ], stop s)
  run_actions-Ends (action ∷ actions) s =
      elim (Verdict-cases (gate agent principal approved action)) [
        | inl (reason, meta, e) ↦
            Ends-rests action actions s (after_denied action actions s reason meta) (λ m h. cc)
              (after_denied-Grows action actions s reason meta) refl (run_actions-Ends actions _)
              (run_actions-denied action actions s reason meta e)
        | inr (inl (reason, meta, e)) ↦
            Ends-rests action actions s (after_skipped action actions s reason meta) (λ m h. cc)
              (after_skipped-Grows action actions s reason meta) refl (run_actions-Ends actions _)
              (run_actions-skipped action actions s reason meta e)
        | inr (inr (meta, e)) ↦ Ends-runs action actions s meta e (run_actions-Ends actions _)
      ]

module _ {W : Type 0} (agent : Agent W) where
  abbrev ending : AgentState → State W → Result (List ActionResult) × State W
  ending state s =
      run_actions agent (get_current_principal state) state.approved_action_ids
        state.proposed_actions s

  executor_node-ok :
      (state : AgentState) (s : State W) (results : List ActionResult)
      → (ending state s).0 ≡ ok results
      → executor_node agent state s
        ≡ (ok (record state { action_results = results }), (ending state s).1)
  unfolding executor_node
  executor_node-ok state s results e = rw (executor_node, e) refl

  -- The executor never raises. Whatever the thread's state, its results are those of cleared actions
  -- (allowed to the thread's principal and, when gated, approved), every cleared action has a result,
  -- and the tools' world changes by single runs of cleared actions, which no gated action gets that
  -- the log holds as executed; the proposed actions and approvals are unchanged and the log only grows.
  pub executor_node-IsSafe :
      (state : AgentState) (s : State W)
      → let principal = get_current_principal state in
        let approved = state.approved_action_ids in
        let actions = state.proposed_actions in
        (results : List ActionResult) × ((executor_node agent state s).0
          ≡ ok (record state { action_results = results }))
        × All (IsEarned agent principal approved actions) results
        × ((a : ProposedAction)
            → In a actions
            → IsCleared agent principal approved a
            → Some (λ r. r.action_id ≡ a.action_id) results)
        × Moves agent principal approved actions s (executor_node agent state s).1
        × Grows agent.env s.log (executor_node agent state s).1.log
  unfolding Ends
  executor_node-IsSafe state s =
      let (results, e, earned, complete, moves) =
        run_actions-Ends agent (get_current_principal state) state.approved_action_ids
          state.proposed_actions s in
      let run = executor_node-ok state s results e in
      (
        results,
        rw run refl,
        earned,
        complete,
        rw run moves,
        rw run (Moves-Grows agent (get_current_principal state) state.approved_action_ids moves),
      )
