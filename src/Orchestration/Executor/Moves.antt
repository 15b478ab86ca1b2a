-- ===== src/Orchestration/Executor/Moves.antt =====
-- How the executor may change the state, and what it promises of its results.
use atlas_alpha.Prelude.{◌≡◌, false, String, List, [], ◌∷◌, In, Some, All, inr}
use atlas_alpha.Prelude.Result.{Result, ok}
use atlas_alpha.Actions.{ProposedAction, ActionResult}
use atlas_alpha.Policy.{Principal}
use atlas_alpha.Audit.Growth.{Grows, Grows-refl, Grows-trans}
use atlas_alpha.Registry.{execute}
use atlas_alpha.Execution.{State}
use atlas_alpha.Execution.Idempotency.{is_replay}
use atlas_alpha.Orchestration.State.{Agent}
use atlas_alpha.Orchestration.Gate.Cleared.{IsCleared}

module _ {W : Type 0} (agent : Agent W) (principal : Principal) (approved : List String) where
  -- What one action of the list may do: leave the tools' world alone, or run once, if it is cleared
  -- and, when it is gated, has not executed before.
  pub data Move (actions : List ProposedAction) (s t : State W) : Type 0 where
    rests : Grows agent.env s.log t.log → t.world ≡ s.world → Move actions s t
    runs :
        (action : ProposedAction)
        → In action actions
        → IsCleared agent principal approved action
        → is_replay agent.env agent.tools action principal s ≡ false
        → t.world ≡ (execute action principal agent.tools s.world).1
        → Grows agent.env s.log t.log
        → Move actions s t

  pub data Moves (actions : List ProposedAction) : State W → State W → Type 0 where
    stop : (s : State W) → Moves actions s s
    move : {s t u : State W} → Move actions s t → Moves actions t u → Moves actions s u

  Move-more :
      {actions : List ProposedAction} {s t : State W} (a : ProposedAction)
      → Move actions s t
      → Move (a ∷ actions) s t
  Move-more a (rests g e) = rests g e
  Move-more a (runs action i cleared fresh e g) = runs action (inr i) cleared fresh e g

  pub Moves-more :
      {actions : List ProposedAction} {s t : State W} (a : ProposedAction)
      → Moves actions s t
      → Moves (a ∷ actions) s t
  Moves-more a (stop s) = stop s
  Moves-more a (move m rest) = move (Move-more a m) (Moves-more a rest)

  Move-Grows :
      {actions : List ProposedAction} {s t : State W}
      → Move actions s t
      → Grows agent.env s.log t.log
  Move-Grows (rests g e) = g
  Move-Grows (runs action i cleared fresh e g) = g

  pub Moves-Grows :
      {actions : List ProposedAction} {s t : State W}
      → Moves actions s t
      → Grows agent.env s.log t.log
  Moves-Grows (stop s) = Grows-refl agent.env s.log
  Moves-Grows (move m rest) = Grows-trans agent.env _ _ _ (Move-Grows m) (Moves-Grows rest)

  -- The result of a cleared action of the list.
  unfoldable pub IsEarned : List ProposedAction → ActionResult → Type 0
  IsEarned actions r =
      (a : ProposedAction) × In a actions
      × IsCleared agent principal approved a
      × (r.action_id ≡ a.action_id)

  pub All-IsEarned :
      (a : ProposedAction) (actions : List ProposedAction) (results : List ActionResult)
      → All (IsEarned actions) results
      → All (IsEarned (a ∷ actions)) results
  unfolding IsEarned
  All-IsEarned a actions [] h = tt
  All-IsEarned a actions (r ∷ results) ((b, i, cleared, e), h) =
      ((b, inr i, cleared, e), All-IsEarned a actions results h)

  -- How a run of the loop ends: without a raise, by moves only, with the earned results, one for each
  -- cleared action.
  unfoldable pub Ends :
      List ProposedAction → State W → Result (List ActionResult) × State W → Type 0
  unfolding IsEarned
  Ends actions s end =
      (results : List ActionResult) × (end.0 ≡ ok results)
      × All (IsEarned actions) results
      × ((a : ProposedAction)
          → In a actions
          → IsCleared agent principal approved a
          → Some (λ r. r.action_id ≡ a.action_id) results)
      × Moves actions s end.1
