-- ===== src/Orchestration/Gate/Cleared.antt =====
-- What an action must satisfy to pass the guards.
use atlas_alpha.Prelude.{
  ◌≡◌, refl, ap, ◌∙◌, true, String, Option, some, List, In, Bool-cases, ◌↔◌, inl, inr, contains,
  contains_iff, append,
}
use atlas_alpha.Prelude.Result.{Result, ok, err}
use atlas_alpha.Actions.{tier, requires_approval, ProposedAction}
use atlas_alpha.Policy.{Principal, can}
use atlas_alpha.Audit.{AuditToolContext}
use atlas_alpha.Registry.{Tool, get_tool}
use atlas_alpha.Orchestration.State.{Agent}
use atlas_alpha.Orchestration.Gate.{
  deny, skip, run, required_permission_for, shown, meta_for, approved_verdict, resolved_verdict,
  found_verdict, gate,
}

module _ {W : Type 0} (agent : Agent W) (principal : Principal) where
  -- The action's tool is registered, its permission resolves, and the principal holds it.
  unfoldable pub IsAllowed : ProposedAction → Type 0
  IsAllowed action =
      (tool : Tool W) × (get_tool action.tool agent.tools ≡ ok tool)
      × (required : Option String) × (required_permission_for action tool ≡ ok required)
      × (can agent.policy (some principal) required ≡ true)

  module _ (approved : List String) (action : ProposedAction) where
    -- An action that is allowed, and that is approved if its tier is gated.
    unfoldable pub IsCleared : Type 0
    unfolding IsAllowed
    IsCleared =
        IsAllowed action
        × (requires_approval (tier action.risk_tier) ≡ true → In action.action_id approved)

    approved_verdict-run :
        (meta meta' : AuditToolContext)
        → approved_verdict agent principal approved action meta ≡ run meta'
        → requires_approval (tier action.risk_tier) ≡ true
        → In action.action_id approved
    unfolding approved_verdict
    approved_verdict-run meta meta' h gated =
        elim (Bool-cases (contains approved action.action_id)) [
          | inl e ↦ (contains_iff approved action.action_id).0 e
          | inr e ↦ let bad : skip "not approved" meta ≡ run meta' = rw (gated, e) at h in cc
        ]

    resolved_verdict-run :
        (meta meta' : AuditToolContext) (r : Result (Option String))
        → resolved_verdict agent principal approved action meta r ≡ run meta'
        → (required : Option String) × (r ≡ ok required)
          × (can agent.policy (some principal) required ≡ true)
          × (requires_approval (tier action.risk_tier) ≡ true → In action.action_id approved)
    unfolding resolved_verdict
    resolved_verdict-run meta meta' (err _) h = cc
    resolved_verdict-run meta meta' (ok required) h =
        elim (Bool-cases (can agent.policy (some principal) required)) [
          | inl e ↦ (required, refl, e, approved_verdict-run meta meta' (rw e at h))
          | inr e ↦
              let bad : deny (append "missing permission: " (shown required)) meta ≡ run meta' =
                rw e at h in
              cc
        ]

    found_verdict-run :
        (meta : AuditToolContext) (found : Result (Tool W))
        → found_verdict agent principal approved action found ≡ run meta
        → get_tool action.tool agent.tools ≡ found
        → IsCleared
    unfolding found_verdict IsCleared IsAllowed
    found_verdict-run meta (err _) h e = cc
    found_verdict-run meta (ok tool) h e =
        let (required, resolved, granted, bound) =
          resolved_verdict-run (meta_for tool principal) meta _ h in
        ((tool, e, required, resolved, granted), bound)

    approved_verdict-cleared :
        (meta : AuditToolContext)
        → (requires_approval (tier action.risk_tier) ≡ true → In action.action_id approved)
        → approved_verdict agent principal approved action meta ≡ run meta
    unfolding approved_verdict
    approved_verdict-cleared meta bound =
        elim (Bool-cases (requires_approval (tier action.risk_tier))) [
          | inl gated ↦ rw (gated, (contains_iff approved action.action_id).1 (bound gated)) refl
          | inr free ↦ rw free refl
        ]

    resolved_verdict-granted :
        (meta : AuditToolContext) (required : Option String)
        → can agent.policy (some principal) required ≡ true
        → resolved_verdict agent principal approved action meta (ok required)
          ≡ approved_verdict agent principal approved action meta
    unfolding resolved_verdict
    resolved_verdict-granted meta required granted = rw granted refl

    gate-cleared_to :
        (meta : AuditToolContext) → gate agent principal approved action ≡ run meta → IsCleared
    unfolding gate
    gate-cleared_to meta h = found_verdict-run meta _ h refl

    gate-cleared_of :
        IsCleared → (meta : AuditToolContext) × (gate agent principal approved action ≡ run meta)
    unfolding gate found_verdict IsCleared IsAllowed
    gate-cleared_of ((tool, found, required, resolved, granted), bound) = (
      meta_for tool principal,
      ap (found_verdict agent principal approved action) found
          ∙ ap (resolved_verdict agent principal approved action (meta_for tool principal)) resolved
          ∙ resolved_verdict-granted (meta_for tool principal) required granted
          ∙ approved_verdict-cleared (meta_for tool principal) bound,
    )

    pub gate-run_iff :
        ((meta : AuditToolContext) × (gate agent principal approved action ≡ run meta)) ↔ IsCleared
    gate-run_iff = (λ (meta, h). gate-cleared_to meta h, gate-cleared_of)
