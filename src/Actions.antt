-- ===== src/Actions.antt =====
-- src/atlas/actions.py: risk tiers, the approval policy and the action contracts.
use atlas_alpha.Prelude.{Bool, true, false, not, String, Option, none, some, ◌==◌, if◌then◌else◌}
use atlas_alpha.Value.{Value, Fields}
pub mod Approval

pub data RiskTier : Type 0 where
  read write send delete pay : RiskTier

-- `.value`
unfoldable pub value : RiskTier → String
value read = "read"
value write = "write"
value send = "send"
value delete = "delete"
value pay = "pay"

-- `RiskTier(label)`, `none` for its ValueError
unfoldable pub tier_of : String → Option RiskTier
tier_of label =
    if label == "read"
    then some read
    else if label == "write"
    then some write
    else if label == "send"
    then some send
    else if label == "delete"
    then some delete
    else if label == "pay"
    then some pay
    else none

-- membership in `_AUTO_APPROVED_TIERS`
unfoldable pub is_auto_approved : RiskTier → Bool
is_auto_approved read = true
is_auto_approved _ = false

-- What `requires_approval` may be given: a tier, a string, or anything else (None included).
pub data RawTier : Type 0 where
  tier : RiskTier → RawTier
  label : String → RawTier
  other : RawTier

unfoldable pub requires_approval : RawTier → Bool
unfolding tier_of is_auto_approved
requires_approval (tier t) = not (is_auto_approved t)
requires_approval (label s) = elim (tier_of s) [ some t ↦ not (is_auto_approved t) | none ↦ true ]
requires_approval other = true

pub record ProposedAction : Type 0 where
  pub action_id : String
  pub tool : String
  pub args : Fields
  pub risk_tier : RiskTier
  pub rationale : String
  pub required_permission : Option String

unfoldable pub needs_approval : ProposedAction → Bool
unfolding requires_approval
needs_approval a = requires_approval (tier a.risk_tier)

pub record ApprovalDecision : Type 0 where
  pub action_id : String
  pub approved : Bool
  pub decided_by : String

pub record ActionResult : Type 0 where
  pub action_id : String
  pub tool : String
  pub ok : Bool
  pub output : Value
  pub error : Option String
