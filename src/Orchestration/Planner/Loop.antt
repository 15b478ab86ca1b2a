-- ===== src/Orchestration/Planner/Loop.antt =====
-- The planner's loop keeps an action exactly when the policy allows it, and only appends to the log.
use atlas_alpha.Prelude.{
  ◌≡◌, refl, sym, ap, ◌∙◌, subst, true, String, Option, none, some, List, [], ◌∷◌, In, inl, inr,
  Bool-cases, Option-cases,
}
use atlas_alpha.Prelude.Result.{Result, ok, err, >>=-eq-ok}
use atlas_alpha.Actions.{ProposedAction}
use atlas_alpha.Policy.{Principal, can}
use atlas_alpha.Audit.{Log, proposed, denied}
use atlas_alpha.Audit.Recorders.{log_proposed, log_denied}
use atlas_alpha.Audit.Growth.{Grows, Grows-refl, Grows-trans, record_event-Grows}
use atlas_alpha.Registry.{Tool, get_tool}
use atlas_alpha.Orchestration.State.{Agent}
use atlas_alpha.Orchestration.Gate.{required_permission_for}
use atlas_alpha.Orchestration.Gate.Cleared.{IsAllowed}
use atlas_alpha.Orchestration.Planner.{resolve, denial_of, denial, authorize}

module _ {W : Type 0} (agent : Agent W) where
  module _ (principal : Principal) where
    denial_of-none :
        (action : ProposedAction) (r : Result (Option String))
        → resolve agent action ≡ r
        → denial_of agent principal r ≡ none
        → IsAllowed agent principal action
    unfolding denial_of resolve IsAllowed
    denial_of-none action (err _) e q = cc
    denial_of-none action (ok required) e q =
        let (tool, found, resolved) = >>=-eq-ok (get_tool action.tool agent.tools) _ required e in
        elim (Bool-cases (can agent.policy (some principal) required)) [
          | inl granted ↦ (tool, found, required, resolved, granted)
          | inr refused ↦ cc
        ]

    denial-none :
        (action : ProposedAction)
        → denial agent principal action ≡ none
        → IsAllowed agent principal action
    unfolding denial
    denial-none action h = denial_of-none action (resolve agent action) refl h

    resolve-ok :
        (action : ProposedAction) (tool : Tool W) (required : Option String)
        → get_tool action.tool agent.tools ≡ ok tool
        → required_permission_for action tool ≡ ok required
        → resolve agent action ≡ ok required
    unfolding resolve
    resolve-ok action tool required found resolved = rw (resolve, found, resolved) refl

    granted-denial_of :
        (required : Option String)
        → can agent.policy (some principal) required ≡ true
        → denial_of agent principal (ok required) ≡ none
    unfolding denial_of
    granted-denial_of required granted = rw granted

    allowed-denial :
        (action : ProposedAction)
        → IsAllowed agent principal action
        → denial agent principal action ≡ none
    unfolding denial IsAllowed
    allowed-denial action (tool, found, required, resolved, granted) =
        ap (denial_of agent principal) (resolve-ok action tool required found resolved)
        ∙ granted-denial_of required granted

    module _ (action : ProposedAction) (actions : List ProposedAction) (log : Log) where
      authorize-kept :
          denial agent principal action ≡ none
          → let (rest, end_log) =
              authorize agent principal actions (log_proposed agent.env action log) in
            authorize agent principal (action ∷ actions) log ≡ (action ∷ rest, end_log)
      unfolding authorize
      authorize-kept e = rw (authorize, e) refl

      authorize-denied :
          (reason : String)
          → denial agent principal action ≡ some reason
          → authorize agent principal (action ∷ actions) log
            ≡ authorize agent principal actions (
                log_denied agent.env action principal.user_id reason none
                  (log_proposed agent.env action log))
      unfolding authorize
      authorize-denied reason e = rw (authorize, e) refl

    pub authorize_sound :
        (actions : List ProposedAction) (log : Log) (a : ProposedAction)
        → In a (authorize agent principal actions log).0
        → In a actions × IsAllowed agent principal a
    unfolding authorize
    authorize_sound [] log a h = elim h [ ]
    authorize_sound (action ∷ actions) log a h =
        elim (Option-cases (denial agent principal action)) [
          | inl e ↦ elim (rw (authorize-kept action actions log e) at h) [
            | inl here ↦ (inl here, subst (IsAllowed agent principal) here (denial-none action e))
            | inr i ↦ let (there, allowed) = authorize_sound actions _ a i in (inr there, allowed)
          ]
          | inr (reason, e) ↦
              let (there, allowed) =
                authorize_sound actions _ a
                  (rw (authorize-denied action actions log reason e) at h) in
              (inr there, allowed)
        ]

    pub authorize_complete :
        (actions : List ProposedAction) (log : Log) (a : ProposedAction)
        → IsAllowed agent principal a
        → In a actions
        → In a (authorize agent principal actions log).0
    unfolding authorize
    authorize_complete [] log a allowed h = elim h [ ]
    authorize_complete (action ∷ actions) log a allowed (inl here) =
        rw
          (authorize-kept action actions log
            (subst (λ x. denial agent principal x ≡ none) (sym here) (allowed-denial a allowed)))
          (inl here)
    authorize_complete (action ∷ actions) log a allowed (inr there) =
        elim (Option-cases (denial agent principal action)) [
          | inl e ↦
              rw (authorize-kept action actions log e)
                (inr (authorize_complete actions _ a allowed there))
          | inr (reason, e) ↦
              rw (authorize-denied action actions log reason e)
                (authorize_complete actions _ a allowed there)
        ]

    log_proposed-Grows :
        (action : ProposedAction) (log : Log)
        → Grows agent.env log (log_proposed agent.env action log)
    unfolding log_proposed
    log_proposed-Grows action log =
        record_event-Grows agent.env proposed action.action_id (some action.tool) "system" _ log

    log_denied-Grows :
        (action : ProposedAction) (reason : String) (log : Log)
        → Grows agent.env log (log_denied agent.env action principal.user_id reason none log)
    unfolding log_denied
    log_denied-Grows action reason log =
        record_event-Grows agent.env denied action.action_id (some action.tool) principal.user_id _
          log

    pub authorize-Grows :
        (actions : List ProposedAction) (log : Log)
        → Grows agent.env log (authorize agent principal actions log).1
    unfolding authorize
    authorize-Grows [] log = Grows-refl agent.env log
    authorize-Grows (action ∷ actions) log = elim (Option-cases (denial agent principal action)) [
      | inl e ↦ rw (authorize-kept action actions log e) (
          Grows-trans agent.env log _ _ (log_proposed-Grows action log) (authorize-Grows actions _))
      | inr (reason, e) ↦ rw (authorize-denied action actions log reason e) (
          Grows-trans agent.env log _ _ (log_proposed-Grows action log) (
            Grows-trans agent.env _ _ _ (log_denied-Grows action reason _)
              (authorize-Grows actions _)))
    ]
