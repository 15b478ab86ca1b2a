-- ===== src/Orchestration/Approval/Bound.antt =====
-- An approval binds to the gated actions of its thread.
use atlas_alpha.Prelude.{
  ◌≡◌, refl, sym, ap, ◌∙◌, subst, Bool, true, false, String, List, [], ◌∷◌, map, In, In-keep_to,
  All, inl, inr, Bool-cases, contains,
}
use atlas_alpha.Prelude.Result.{Error, ok, err, ok-injective, Result-cases}
use atlas_alpha.Value.{Value}
use atlas_alpha.Actions.{ProposedAction, ApprovalDecision, needs_approval}
use atlas_alpha.Audit.{Log}
use atlas_alpha.Audit.Recorders.{decided}
use atlas_alpha.Audit.Growth.{Grows, Grows-refl, Grows-trans, record_event-Grows}
use atlas_alpha.Execution.{State}
use atlas_alpha.Orchestration.State.{AgentState, Agent}
use atlas_alpha.Orchestration.Decisions.{parse_decisions}
use atlas_alpha.Orchestration.Decisions.Known.{parse_decisions-IsKnown}
use atlas_alpha.Orchestration.Approval.{
  gated, distinct, valid_ids, ids_with, record_decisions, approval_node,
}

distinct-In : (x : String) (xs : List String) → In x (distinct xs) → In x xs
unfolding distinct
distinct-In x [] h = h
distinct-In x (y ∷ xs) h = elim (Bool-cases (contains (distinct xs) y)) [
  | inl e ↦ inr (distinct-In x xs (rw e at h))
  | inr e ↦ elim (rw e at h) [ inl here ↦ inl here | inr i ↦ inr (distinct-In x xs i) ]
]

-- The id of a pending action that needs an approval.
unfoldable pub IsPending : AgentState → String → Type 0
IsPending state id =
    (a : ProposedAction) × In a state.proposed_actions
    × (needs_approval a ≡ true)
    × (a.action_id ≡ id)

map-In :
    (id : String) (actions : List ProposedAction)
    → In id (map (λ a. a.action_id) actions)
    → (a : ProposedAction) × In a actions × (a.action_id ≡ id)
map-In id [] h = elim h [ ]
map-In id (a ∷ actions) (inl e) = (a, inl refl, e)
map-In id (a ∷ actions) (inr h) = let (b, i, e) = map-In id actions h in (b, inr i, e)

valid_ids-IsPending :
    (state : AgentState) (id : String) → In id (valid_ids state) → IsPending state id
unfolding valid_ids gated IsPending
valid_ids-IsPending state id h =
    let (a, i, e) = map-In id (gated state) (distinct-In id _ h) in
    let (needs, here) = In-keep_to needs_approval a state.proposed_actions i in (a, here, needs, e)

module _ (P : String → Type 0) where
  ids_with-All :
      (b : Bool) (ds : List ApprovalDecision) → All (λ d. P d.action_id) ds → All P (ids_with b ds)
  ids_with-All b [] h = tt
  ids_with-All true (d ∷ ds) h = elim (Bool-cases d.approved) [
    | inl e ↦ rw e (h.0, ids_with-All true ds h.1)
    | inr e ↦ rw e (ids_with-All true ds h.1)
  ]
  ids_with-All false (d ∷ ds) h = elim (Bool-cases d.approved) [
    | inl e ↦ rw e (ids_with-All false ds h.1)
    | inr e ↦ rw e (h.0, ids_with-All false ds h.1)
  ]

All-map :
    (P Q : ApprovalDecision → Type 0)
    → ((d : ApprovalDecision) → P d → Q d)
    → (ds : List ApprovalDecision) → All P ds
    → All Q ds
All-map P Q f [] h = tt
All-map P Q f (d ∷ ds) h = (f d h.0, All-map P Q f ds h.1)

module _ {W : Type 0} (agent : Agent W) where
  record_decisions-Grows :
      (ds : List ApprovalDecision) (log : Log) → Grows agent.env log (record_decisions agent ds log)
  unfolding record_decisions decided
  record_decisions-Grows [] log = Grows-refl agent.env log
  record_decisions-Grows (d ∷ ds) log =
      Grows-trans agent.env log _ _
        (record_event-Grows agent.env _ d.action_id _ d.decided_by _ log)
        (record_decisions-Grows ds _)

  approval_node-decides :
      (state : AgentState) (raw : Value) (s : State W) (ds : List ApprovalDecision)
      → parse_decisions agent.render (valid_ids state) raw ≡ ok ds
      → approval_node agent state raw s ≡ (
        ok (record state {
          approved_action_ids = ids_with true ds;
          rejected_action_ids = ids_with false ds;
        }),
        record s { log = record_decisions agent ds s.log },
      )
  unfolding approval_node
  approval_node-decides state raw s ds e = rw (approval_node, e) refl

  approval_node-raises :
      (state : AgentState) (raw : Value) (s : State W) (e : Error)
      → parse_decisions agent.render (valid_ids state) raw ≡ err e
      → approval_node agent state raw s ≡ (err e, s)
  unfolding approval_node
  approval_node-raises state raw s e h = rw (approval_node, h) refl

  -- A gate that returned had parsed the payload, and returned the ids that it sorted.
  approval_node-inverted :
      (state state' : AgentState) (raw : Value) (s : State W)
      → (approval_node agent state raw s).0 ≡ ok state'
      → (ds : List ApprovalDecision) × (parse_decisions agent.render (valid_ids state) raw ≡ ok ds)
        × (record state {
          approved_action_ids = ids_with true ds;
          rejected_action_ids = ids_with false ds;
        }
            ≡ state')
  approval_node-inverted state state' raw s h =
      elim (Result-cases (parse_decisions agent.render (valid_ids state) raw)) [
        | inl (ds, e) ↦ (
          ds,
          e,
          ok-injective _ state' (sym (ap (λ x. x.0) (approval_node-decides state raw s ds e)) ∙ h),
        )
        | inr (e, f) ↦
            let bad : err e ≡ ok state' =
              sym (ap (λ x. x.0) (approval_node-raises state raw s e f)) ∙ h in
            cc
      ]

  -- Whatever payload resumes the thread, each id that is approved or rejected is the id of one of its
  -- proposed actions that needs an approval; the proposed actions themselves are unchanged, no tool
  -- runs, and the log only grows.
  pub approval_node-IsBound :
      (state state' : AgentState) (raw : Value) (s : State W)
      → (approval_node agent state raw s).0 ≡ ok state'
      → All (IsPending state) state'.approved_action_ids
        × All (IsPending state) state'.rejected_action_ids
        × (state'.proposed_actions ≡ state.proposed_actions)
        × Grows agent.env s.log (approval_node agent state raw s).1.log
        × ((approval_node agent state raw s).1.world ≡ s.world)
  approval_node-IsBound state state' raw s h =
      let (ds, e, same) = approval_node-inverted state state' raw s h in
      let run = approval_node-decides state raw s ds e in
      let pending =
        All-map (λ d. In d.action_id (valid_ids state)) (λ d. IsPending state d.action_id)
          (λ d. valid_ids-IsPending state d.action_id) ds
          (parse_decisions-IsKnown agent.render (valid_ids state) raw ds e) in
      (
        subst (λ t. All (IsPending state) t.approved_action_ids) same
            (ids_with-All (IsPending state) true ds pending),
        subst (λ t. All (IsPending state) t.rejected_action_ids) same
            (ids_with-All (IsPending state) false ds pending),
        sym (ap (λ t. t.proposed_actions) same),
        rw run (record_decisions-Grows ds s.log),
        rw run refl,
      )

  pub approval_node-rests :
      (state : AgentState) (raw : Value) (s : State W)
      → Grows agent.env s.log (approval_node agent state raw s).1.log
        × ((approval_node agent state raw s).1.world ≡ s.world)
  approval_node-rests state raw s =
      elim (Result-cases (parse_decisions agent.render (valid_ids state) raw)) [
        | inl (ds, e) ↦
            let run = approval_node-decides state raw s ds e in
            (rw run (record_decisions-Grows ds s.log), rw run refl)
        | inr (e, f) ↦
            let run = approval_node-raises state raw s e f in
            (rw run (Grows-refl agent.env s.log), rw run refl)
      ]

  pub approval_node-keeps :
      (state state' : AgentState) (raw : Value) (s : State W)
      → (approval_node agent state raw s).0 ≡ ok state'
      → state'.principal ≡ state.principal
  approval_node-keeps state state' raw s h =
      let (_, _, same) = approval_node-inverted state state' raw s h in
      sym (ap (λ t. t.principal) same)

  pub approval_node-total :
      (state : AgentState) (raw : Value) (s : State W) (ds : List ApprovalDecision)
      → parse_decisions agent.render (valid_ids state) raw ≡ ok ds
      → (state' : AgentState) × ((approval_node agent state raw s).0 ≡ ok state')
  approval_node-total state raw s ds e = (_, ap (λ x. x.0) (approval_node-decides state raw s ds e))
