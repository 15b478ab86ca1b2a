-- ===== src/Orchestration/Planner/Authorized.antt =====
-- The planner proposes what its strategy planned and the policy allows, nothing else.
use atlas_alpha.Prelude.{◌≡◌, refl, sym, ap, ◌∙◌, subst, some, List, ◌↔◌, In, inl, inr}
use atlas_alpha.Prelude.Result.{Error, Result, ok, err, ok-injective, Result-cases}
use atlas_alpha.Actions.{ProposedAction}
use atlas_alpha.Audit.Growth.{Grows, Grows-refl}
use atlas_alpha.Execution.{State}
use atlas_alpha.Orchestration.State.{AgentState, Agent, get_current_principal, last_user_text}
use atlas_alpha.Orchestration.Gate.Cleared.{IsAllowed}
use atlas_alpha.Orchestration.Planner.{authorize, planner_node}
use atlas_alpha.Orchestration.Planner.Loop.{authorize_sound, authorize_complete, authorize-Grows}

module _ {W : Type 0} (agent : Agent W) where
  abbrev pub plan_of : AgentState → Result (List ProposedAction)
  plan_of state =
      let request = last_user_text state.messages in
      agent.plan_fn request agent.tools (agent.query (some (get_current_principal state)) request 5)

  planner_node-planned :
      (state : AgentState) (s : State W) (planned : List ProposedAction)
      → plan_of state ≡ ok planned
      → let principal = get_current_principal state in
        planner_node agent state s ≡ (
          ok (record state {
            proposed_actions = (authorize agent principal planned s.log).0;
            kg_context = agent.query (some principal) (last_user_text state.messages) 5;
          }),
          record s { log = (authorize agent principal planned s.log).1 },
        )
  unfolding planner_node
  planner_node-planned state s planned e = rw (planner_node, e) refl

  planner_node-raises :
      (state : AgentState) (s : State W) (e : Error)
      → plan_of state ≡ err e
      → planner_node agent state s ≡ (err e, s)
  unfolding planner_node
  planner_node-raises state s e h = rw (planner_node, h) refl

  -- A planner that returned had a plan, and returned what the loop kept of it.
  planner_node-inverted :
      (state state' : AgentState) (s : State W)
      → (planner_node agent state s).0 ≡ ok state'
      → let principal = get_current_principal state in
        (planned : List ProposedAction) × (plan_of state ≡ ok planned)
        × (record state {
          proposed_actions = (authorize agent principal planned s.log).0;
          kg_context = agent.query (some principal) (last_user_text state.messages) 5;
        }
            ≡ state')
  planner_node-inverted state state' s h = elim (Result-cases (plan_of state)) [
    | inl (planned, e) ↦ (
      planned,
      e,
      ok-injective _ state' (sym (ap (λ x. x.0) (planner_node-planned state s planned e)) ∙ h),
    )
    | inr (e, f) ↦
        let bad : err e ≡ ok state' = sym (ap (λ x. x.0) (planner_node-raises state s e f)) ∙ h in
        cc
  ]

  -- When the planner does not raise, it proposes exactly the actions that its strategy planned, from
  -- the request and the entities the principal may read, and that are allowed to the thread's
  -- principal; the log only grows, and the tools' world is left alone.
  pub planner_node-authorizes :
      (state state' : AgentState) (s : State W)
      → (planner_node agent state s).0 ≡ ok state'
      → let principal = get_current_principal state in
        (planned : List ProposedAction) × (agent.plan_fn
            (last_user_text state.messages)
            agent.tools
            (agent.query (some principal) (last_user_text state.messages) 5)
          ≡ ok planned)
        × ((a : ProposedAction)
            → In a state'.proposed_actions ↔ (In a planned × IsAllowed agent principal a))
        × Grows agent.env s.log (planner_node agent state s).1.log
        × ((planner_node agent state s).1.world ≡ s.world)
  planner_node-authorizes state state' s h =
      let principal = get_current_principal state in
      let (planned, e, same) = planner_node-inverted state state' s h in
      let actions = ap (λ t. t.proposed_actions) same in
      let run = planner_node-planned state s planned e in
      (
        planned,
        e,
        λ a. (
          λ i. authorize_sound agent principal planned s.log a (subst (In a) (sym actions) i),
          λ (i, allowed).
              subst (In a) actions (authorize_complete agent principal planned s.log a allowed i),
        ),
        rw run (authorize-Grows agent principal planned s.log),
        rw run refl,
      )

  -- Whether the planner raises or not, it leaves the tools' world alone and the log grows.
  pub planner_node-rests :
      (state : AgentState) (s : State W)
      → Grows agent.env s.log (planner_node agent state s).1.log
        × ((planner_node agent state s).1.world ≡ s.world)
  planner_node-rests state s = elim (Result-cases (plan_of state)) [
    | inl (planned, e) ↦
        let run = planner_node-planned state s planned e in
        (rw run (authorize-Grows agent (get_current_principal state) planned s.log), rw run refl)
    | inr (e, f) ↦
        let run = planner_node-raises state s e f in
        (rw run (Grows-refl agent.env s.log), rw run refl)
  ]

  -- The channels that the planner does not write.
  pub planner_node-keeps :
      (state state' : AgentState) (s : State W)
      → (planner_node agent state s).0 ≡ ok state'
      → (state'.principal ≡ state.principal)
        × (state'.approved_action_ids ≡ state.approved_action_ids)
        × (state'.action_results ≡ state.action_results)
  planner_node-keeps state state' s h =
      let (_, _, same) = planner_node-inverted state state' s h in
      (
        sym (ap (λ t. t.principal) same),
        sym (ap (λ t. t.approved_action_ids) same),
        sym (ap (λ t. t.action_results) same),
      )

  pub planner_node-total :
      (state : AgentState) (s : State W) (planned : List ProposedAction)
      → plan_of state ≡ ok planned
      → (state' : AgentState) × ((planner_node agent state s).0 ≡ ok state')
  planner_node-total state s planned e = (_, ap (λ x. x.0) (planner_node-planned state s planned e))
