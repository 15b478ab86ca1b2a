-- ===== src/Orchestration/Decisions/Listed.antt =====
-- A payload that lists decisions one by one, as `decision_payload` of
-- src/atlas/interface/resume_lock.py builds it, is read back.
use atlas_alpha.Prelude.{
  ◌≡◌, refl, Bool, String, List, [], ◌∷◌, keep, contains, Bool-cases, inl, inr, if◌then◌else◌,
}
use atlas_alpha.Prelude.Result.{ok}
use atlas_alpha.Value.{Value, bool, text, arr, obj, Items, nil, cons, field, end, get, truthy}
use atlas_alpha.Actions.{ApprovalDecision}
use atlas_alpha.Orchestration.Decisions.{items, member, from_item, from_items, parse_decisions}

-- A decision as the dict of the payload.
abbrev pub payload_item : ApprovalDecision → Value
payload_item d = obj (
    field "action_id" (text d.action_id)
      (field "approved" (bool d.approved) (field "decided_by" (text d.decided_by) end)))

abbrev pub payload_items : List ApprovalDecision → Items
payload_items [] = nil
payload_items (d ∷ ds) = cons (payload_item d) (payload_items ds)

module _ (render : Value → String) (valid_ids : List String) where
  abbrev is_known : ApprovalDecision → Bool
  is_known d = contains valid_ids d.action_id

  from_item-payload_item :
      (d : ApprovalDecision)
      → from_item render valid_ids (payload_item d) ≡ ok (if is_known d then d ∷ [] else [])
  unfolding from_item member get truthy
  from_item-payload_item d = refl

  from_items-payload_items :
      (ds : List ApprovalDecision)
      → from_items render valid_ids (items (payload_items ds)) ≡ ok (keep is_known ds)
  unfolding from_items items
  from_items-payload_items [] = refl
  from_items-payload_items (d ∷ ds) = elim (Bool-cases (is_known d)) [
    | inl e ↦ rw (from_item-payload_item d, from_items-payload_items ds, e) refl
    | inr e ↦ rw (from_item-payload_item d, from_items-payload_items ds, e) refl
  ]

  -- Each decision of the list is read back, as it is and in its order, unless its action is not known.
  pub parse_decisions-payload_items :
      (ds : List ApprovalDecision)
      → parse_decisions render valid_ids (arr (payload_items ds))
        ≡ ok (keep (λ d. contains valid_ids d.action_id) ds)
  unfolding parse_decisions
  parse_decisions-payload_items ds = from_items-payload_items ds
