-- ===== src/Actions/Approval.antt =====
-- The approval policy is fail-closed.
use atlas_alpha.Prelude.{◌≡◌, refl, false, some, ◌↔◌, ◌⊎◌, arith, eq_iff}
use atlas_alpha.Actions.{
  RiskTier, read, write, send, delete, pay, RawTier, tier, label, other, value, tier_of,
  requires_approval,
}

-- A tier is found again from its value.
tier_of-value : (t : RiskTier) → tier_of (value t) ≡ some t
unfolding tier_of value
tier_of-value read = refl
tier_of-value write = refl
tier_of-value send = refl
tier_of-value delete = refl
tier_of-value pay = refl

-- No approval is needed exactly for the tier READ and the text "read": every other tier, every other
-- text and everything that is no tier requires one.
pub requires_approval-eq-false_iff :
    (r : RawTier) → (requires_approval r ≡ false) ↔ ((r ≡ tier read) ⊎ (r ≡ label "read"))
unfolding requires_approval
requires_approval-eq-false_iff (tier t) = ground arith
requires_approval-eq-false_iff (label s) = ground (arith, eq_iff s "read")
requires_approval-eq-false_iff other = ground arith
