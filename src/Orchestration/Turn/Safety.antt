-- ===== src/Orchestration/Turn/Safety.antt =====
-- What every reachable thread satisfies, whichever nodes fail or run again on the way.
use atlas_alpha.Prelude.{
  ◌≡◌, refl, sym, ap, ◌∙◌, subst, String, Option, none, some, List, [], ◌∷◌, In, All, any, ◌⊎◌, inl,
  inr, Bool-cases,
}
use atlas_alpha.Prelude.Result.{ok, ok-injective}
use atlas_alpha.Value.{Value}
use atlas_alpha.Actions.{ProposedAction, needs_approval}
use atlas_alpha.Policy.{Principal}
use atlas_alpha.Audit.Growth.{Grows, Grows-refl, Grows-trans}
use atlas_alpha.Execution.{State}
use atlas_alpha.Orchestration.State.{AgentState, Agent, initial_state, get_current_principal}
use atlas_alpha.Orchestration.Gate.Cleared.{IsAllowed}
use atlas_alpha.Orchestration.Planner.{planner_node}
use atlas_alpha.Orchestration.Planner.Authorized.{
  planner_node-authorizes, planner_node-rests, planner_node-keeps,
}
use atlas_alpha.Orchestration.Approval.{approval_node}
use atlas_alpha.Orchestration.Approval.Bound.{
  IsPending, approval_node-IsBound, approval_node-rests, approval_node-keeps,
}
use atlas_alpha.Orchestration.Executor.{executor_node}
use atlas_alpha.Orchestration.Executor.Moves.{Moves, stop, move, rests, Moves-Grows, IsEarned}
use atlas_alpha.Orchestration.Executor.Safety.{executor_node-IsSafe}
use atlas_alpha.Orchestration.Responder.{responder_node}
use atlas_alpha.Orchestration.Turn.{
  Node, planner, approval, executor, responder, to_executor, route_after_planner, successor, Thread,
  node_run, Step, commits, repeats, Reach, here, step, fresh_thread,
}

module _ {W : Type 0} (agent : Agent W) where
  -- Every proposed action is allowed to the thread's principal.
  abbrev pub AreAllowed : AgentState → Type 0
  AreAllowed v =
      (a : ProposedAction) → In a v.proposed_actions → IsAllowed agent (get_current_principal v) a

  -- Every approved id is that of a proposed action that needs an approval.
  abbrev pub AreBound : AgentState → Type 0
  AreBound v = (id : String) → In id v.approved_action_ids → IsPending v id

  -- Every result is that of an action that is allowed and, when gated, approved.
  abbrev pub AreEarned : AgentState → Type 0
  AreEarned v =
      All (IsEarned agent (get_current_principal v) v.approved_action_ids v.proposed_actions)
        v.action_results

  -- What holds of a thread's saved state, by the node that is next.
  pub IsSound : Option Node → AgentState → Type 0
  IsSound (some planner) v = (v.approved_action_ids ≡ []) × (v.action_results ≡ [])
  IsSound (some approval) v =
      AreAllowed v × ((v.approved_action_ids ≡ []) × (v.action_results ≡ []))
  IsSound (some executor) v = AreAllowed v × AreBound v
  IsSound (some responder) v = AreBound v × AreEarned v
  IsSound none v = AreBound v × AreEarned v

  -- The changes that a node run on `v` may make.
  abbrev pub MovesOf : AgentState → State W → State W → Type 0
  MovesOf v = Moves agent (get_current_principal v) v.approved_action_ids v.proposed_actions

  node_run-Moves :
      (raw : Value) (n : Node) (v : AgentState) (s : State W)
      → MovesOf v s (node_run agent raw n v s).1
  unfolding node_run
  node_run-Moves raw planner v s =
      let (grows, still) = planner_node-rests agent v s in move (rests grows still) (stop _)
  node_run-Moves raw approval v s =
      let (grows, still) = approval_node-rests agent v raw s in move (rests grows still) (stop _)
  node_run-Moves raw executor v s = (executor_node-IsSafe agent v s).4
  node_run-Moves raw responder v s = stop s

  All-In : (P : String → Type 0) (ids : List String) → All P ids → (id : String) → In id ids → P id
  All-In P [] h id i = elim i [ ]
  All-In P (x ∷ ids) h id (inl e) = subst P e h.0
  All-In P (x ∷ ids) h id (inr i) = All-In P ids h.1 id i

  bound-none : (v : AgentState) → v.approved_action_ids ≡ [] → AreBound v
  bound-none v e id i = elim (subst (In id) e i) [ ]

  earned-none : (v : AgentState) → v.action_results ≡ [] → AreEarned v
  earned-none v e =
      subst
        (All (IsEarned agent (get_current_principal v) v.approved_action_ids v.proposed_actions))
        (sym e) tt

  -- The state after the planner is sound wherever the route leads.
  routed :
      (v : AgentState)
      → AreAllowed v
      → v.approved_action_ids ≡ []
      → v.action_results ≡ []
      → IsSound (some (route_after_planner v)) v
  unfolding route_after_planner IsSound
  routed v allowed e f = elim (Bool-cases (any needs_approval v.proposed_actions)) [
    | inl yes_gated ↦ rw yes_gated (allowed, (e, f))
    | inr none_gated ↦ rw none_gated (by_list v.proposed_actions)
  ]
    where
      by_list : (actions : List ProposedAction) → IsSound (some (to_executor actions)) v
      by_list [] = (bound-none v e, earned-none v f)
      by_list (_ ∷ _) = (allowed, bound-none v e)

  same_principal :
      (v v' : AgentState)
      → v'.principal ≡ v.principal
      → get_current_principal v' ≡ get_current_principal v
  unfolding get_current_principal
  same_principal v v' e = rw (get_current_principal, e) refl

  planned-IsSound :
      (v v' : AgentState) (s : State W)
      → IsSound (some planner) v
      → (planner_node agent v s).0 ≡ ok v'
      → IsSound (some (route_after_planner v')) v'
  unfolding IsSound
  planned-IsSound v v' s (e, f) h =
      let (planned, _, only, _, _) = planner_node-authorizes agent v v' s h in
      let (kept, kept_approved, kept_results) = planner_node-keeps agent v v' s h in
      routed v'
        (λ a i. subst (λ p. IsAllowed agent p a) (sym (same_principal v v' kept)) ((only a).0 i).1)
        (kept_approved ∙ e) (kept_results ∙ f)

  decided-IsSound :
      (raw : Value) (v v' : AgentState) (s : State W)
      → IsSound (some approval) v
      → (approval_node agent v raw s).0 ≡ ok v'
      → IsSound (some executor) v'
  unfolding IsSound IsPending
  decided-IsSound raw v v' s (allowed, _) h =
      let (bound, _, same, _, _) = approval_node-IsBound agent v v' raw s h in
      let kept = approval_node-keeps agent v v' raw s h in
      (
        λ a i.
            subst (λ p. IsAllowed agent p a) (sym (same_principal v v' kept))
              (allowed a (subst (In a) same i)),
        λ id i.
            let (a, j, needs, e) = All-In (IsPending v) v'.approved_action_ids bound id i in
            (a, subst (In a) (sym same) j, needs, e),
      )

  executed-IsSound :
      (v v' : AgentState) (s : State W)
      → IsSound (some executor) v
      → (executor_node agent v s).0 ≡ ok v'
      → IsSound (some responder) v'
  unfolding IsSound IsPending get_current_principal
  executed-IsSound v v' s (_, bound) h =
      let (results, e, earned, _, _, _) = executor_node-IsSafe agent v s in
      let same : record v { action_results = results } ≡ v' = ok-injective _ v' (sym e ∙ h) in
      subst (IsSound (some responder)) same (bound, earned)

  responded-IsSound :
      (v : AgentState) → IsSound (some responder) v → IsSound none (responder_node agent v)
  unfolding IsSound IsPending get_current_principal responder_node
  responded-IsSound v h = h

  Step-IsSound :
      {t u : Thread W} → Step agent t u → IsSound t.next t.values → IsSound u.next u.values
  unfolding successor node_run
  Step-IsSound (commits raw planner v v' s h) sound = planned-IsSound v v' s sound h
  Step-IsSound (commits raw approval v v' s h) sound = decided-IsSound raw v v' s sound h
  Step-IsSound (commits raw executor v v' s h) sound = executed-IsSound v v' s sound h
  Step-IsSound (commits raw responder v v' s h) sound =
      subst (IsSound none) (ok-injective _ v' h) (responded-IsSound v sound)
  Step-IsSound (repeats raw n v s) sound = sound

  -- Every thread that a fresh one reaches, through whatever resume payloads, failures and repeated
  -- nodes, is sound: where the executor is next, each proposed action is allowed to the thread's
  -- principal and each approved id is that of a proposed action that needs approval; where it has run,
  -- each result is that of an action that is allowed and, when gated, approved.
  pub Reach-IsSound :
      (message : String) (principal : Principal) (s : State W) (t : Thread W)
      → Reach agent (fresh_thread message principal s) t
      → IsSound t.next t.values
  unfolding fresh_thread initial_state IsSound
  Reach-IsSound message principal s _ here = (refl, refl)
  Reach-IsSound message principal s u (step {t = t} r st) =
      Step-IsSound st (Reach-IsSound message principal s t r)

  Step-Moves : {t u : Thread W} → Step agent t u → MovesOf t.values t.shared u.shared
  Step-Moves (commits raw n v v' s h) = node_run-Moves raw n v s
  Step-Moves (repeats raw n v s) = node_run-Moves raw n v s

  -- Whatever a thread does, the audit log only grows and stays intact.
  pub Reach-Grows : (t u : Thread W) → Reach agent t u → Grows agent.env t.shared.log u.shared.log
  Reach-Grows t _ here = Grows-refl agent.env t.shared.log
  Reach-Grows t u (step {t = m} r st) = Grows-trans agent.env _ _ _ (Reach-Grows t m r) (
      Moves-Grows agent (get_current_principal m.values) m.values.approved_action_ids
        (Step-Moves st))

  sound-bound : (next : Option Node) (v : AgentState) → IsSound next v → AreBound v
  unfolding IsSound
  sound-bound (some planner) v (e, _) = bound-none v e
  sound-bound (some approval) v (_, (e, _)) = bound-none v e
  sound-bound (some executor) v (_, bound) = bound
  sound-bound (some responder) v (bound, _) = bound
  sound-bound none v (bound, _) = bound

  node_run-world :
      (raw : Value) (n : Node) (v : AgentState) (s : State W)
      → (n ≡ executor) ⊎ ((node_run agent raw n v s).1.world ≡ s.world)
  unfolding node_run
  node_run-world raw planner v s = inr (planner_node-rests agent v s).1
  node_run-world raw approval v s = inr (approval_node-rests agent v raw s).1
  node_run-world raw executor v s = inl refl
  node_run-world raw responder v s = inr refl

  Step-world :
      {t u : Thread W}
      → Step agent t u
      → (t.next ≡ some executor) ⊎ (u.shared.world ≡ t.shared.world)
  Step-world (commits raw n v v' s h) = elim (node_run-world raw n v s) [
    | inl e ↦ inl (ap (λ x. some x) e)
    | inr e ↦ inr e
  ]
  Step-world (repeats raw n v s) = elim (node_run-world raw n v s) [
    | inl e ↦ inl (ap (λ x. some x) e)
    | inr e ↦ inr e
  ]

  -- A step of a thread that a fresh one reaches changes the tools' world only if the executor is next,
  -- and then by single runs of its proposed actions that are allowed to its principal and, when gated,
  -- approved and not executed before in the log; each approved id is that of a proposed action that
  -- needs approval.
  pub Step-IsSafe :
      (message : String) (principal : Principal) (s : State W) (t u : Thread W)
      → Reach agent (fresh_thread message principal s) t
      → Step agent t u
      → ((t.next ≡ some executor) ⊎ (u.shared.world ≡ t.shared.world))
        × MovesOf t.values t.shared u.shared
        × AreBound t.values
  Step-IsSafe message principal s t u r st = (
    Step-world st,
    Step-Moves st,
    sound-bound t.next t.values (Reach-IsSound message principal s t r),
  )
