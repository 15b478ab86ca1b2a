-- ===== src/Orchestration/Decisions/Known.antt =====
-- Decisions only ever speak of known actions.
use atlas_alpha.Prelude.{
  ◌≡◌, refl, subst, Bool, true, false, ◌||◌, String, List, [], ◌∷◌, ◌++◌, map, contains,
  contains_iff, In, All, Bool-cases, inl, inr, if◌then◌else◌,
}
use atlas_alpha.Prelude.Result.{ok, >>=-eq-ok, ok-injective}
use atlas_alpha.Value.{
  Value, null, bool, int, number, text, arr, obj, Fields, end, field, get, truthy,
}
use atlas_alpha.Actions.{ApprovalDecision}
use atlas_alpha.Confidence.{str}
use atlas_alpha.Orchestration.Decisions.{
  or_null, or_value, has_key, items, member, listed, decision, from_item, from_items, from_ids,
  from_mapping, from_lists, parse_decisions,
}

module _ (render : Value → String) (valid_ids : List String) where
  abbrev IsKnown : ApprovalDecision → Type 0
  IsKnown d = In d.action_id valid_ids

  member-IsKnown :
      (v : Value) (by : String) (b : Bool)
      → member v valid_ids ≡ ok true
      → IsKnown (decision render valid_ids v b by)
  unfolding member
  member-IsKnown (text s) by b h = (contains_iff valid_ids s).0 (cc)
  member-IsKnown null by b h = cc
  member-IsKnown (bool _) by b h = cc
  member-IsKnown (int _) by b h = cc
  member-IsKnown (number _ _) by b h = cc
  member-IsKnown (arr _) by b h = cc
  member-IsKnown (obj _) by b h = cc

  All-++ :
      (xs ys : List ApprovalDecision) → All IsKnown xs → All IsKnown ys → All IsKnown (xs ++ ys)
  All-++ [] ys h k = k
  All-++ (x ∷ xs) ys h k = (h.0, All-++ xs ys h.1 k)

  from_item-IsKnown :
      (v : Value) (ds : List ApprovalDecision)
      → from_item render valid_ids v ≡ ok ds
      → All IsKnown ds
  unfolding from_item
  from_item-IsKnown (obj item) ds h =
      let (known, e, h1) = >>=-eq-ok (member (or_null (get "action_id" item)) valid_ids) _ ds h in
      checked known e (ok-injective _ ds h1)
    where
      one : ApprovalDecision
      one =
          decision render valid_ids (or_null (get "action_id" item))
            (truthy (or_value (bool false) (get "approved" item)))
            (str render (or_value (text "human") (get "decided_by" item)))

      checked :
          (known : Bool)
          → member (or_null (get "action_id" item)) valid_ids ≡ ok known
          → (if known then one ∷ [] else []) ≡ ds
          → All IsKnown ds
      checked true e same = subst (All IsKnown) same (
        member-IsKnown (or_null (get "action_id" item))
            (str render (or_value (text "human") (get "decided_by" item)))
            (truthy (or_value (bool false) (get "approved" item))) e,
        tt,
      )
      checked false e same = subst (All IsKnown) same tt
  from_item-IsKnown _ ds h = subst (All IsKnown) (ok-injective [] ds h) tt

  from_items-IsKnown :
      (vs : List Value) (ds : List ApprovalDecision)
      → from_items render valid_ids vs ≡ ok ds
      → All IsKnown ds
  unfolding from_items
  from_items-IsKnown [] ds h = subst (All IsKnown) (ok-injective [] ds h) tt
  from_items-IsKnown (v ∷ vs) ds h =
      let (here, e, h1) = >>=-eq-ok (from_item render valid_ids v) _ ds h in
      let (rest, f, h2) = >>=-eq-ok (from_items render valid_ids vs) _ ds h1 in
      subst (All IsKnown) (ok-injective (here ++ rest) ds h2)
        (All-++ here rest (from_item-IsKnown v here e) (from_items-IsKnown vs rest f))

  from_ids-IsKnown :
      (b : Bool) (vs : List Value) (ds : List ApprovalDecision)
      → from_ids render valid_ids b vs ≡ ok ds
      → All IsKnown ds
  unfolding from_ids
  from_ids-IsKnown b [] ds h = subst (All IsKnown) (ok-injective [] ds h) tt
  from_ids-IsKnown b (v ∷ vs) ds h =
      let (known, e, h1) = >>=-eq-ok (member v valid_ids) _ ds h in
      let (rest, f, h2) = >>=-eq-ok (from_ids render valid_ids b vs) _ ds h1 in
      checked known rest e (from_ids-IsKnown b vs rest f) (ok-injective _ ds h2)
    where
      checked :
          (known : Bool) (rest : List ApprovalDecision)
          → member v valid_ids ≡ ok known
          → All IsKnown rest
          → (if known then decision render valid_ids v b "human" ∷ rest else rest) ≡ ds
          → All IsKnown ds
      checked true rest e k same = subst (All IsKnown) same (member-IsKnown v "human" b e, k)
      checked false rest e k same = subst (All IsKnown) same k

  from_mapping-IsKnown : (fields : Fields) → All IsKnown (from_mapping render valid_ids fields)
  unfolding from_mapping
  from_mapping-IsKnown end = tt
  from_mapping-IsKnown (field aid approved fields) = elim (Bool-cases (contains valid_ids aid)) [
    | inl e ↦ rw e ((contains_iff valid_ids aid).0 e, from_mapping-IsKnown fields)
    | inr e ↦ rw e (from_mapping-IsKnown fields)
  ]

  All-IsKnown :
      (b : Bool) (ids : List String)
      → ((aid : String) → In aid ids → In aid valid_ids)
      → All IsKnown (map (λ aid. decision render valid_ids (text aid) b "human") ids)
  All-IsKnown b [] f = tt
  All-IsKnown b (aid ∷ ids) f = (f aid (inl refl), All-IsKnown b ids (λ a h. f a (inr h)))

  from_lists-IsKnown :
      (fields : Fields) (ds : List ApprovalDecision)
      → from_lists render valid_ids fields ≡ ok ds
      → All IsKnown ds
  unfolding from_lists
  from_lists-IsKnown fields ds h =
      let (yes_ids, _, h1) = >>=-eq-ok (listed render valid_ids "approved_ids" fields) _ ds h in
      let (approved, e, h2) = >>=-eq-ok (from_ids render valid_ids true yes_ids) _ ds h1 in
      let (no_ids, _, h3) = >>=-eq-ok (listed render valid_ids "rejected_ids" fields) _ ds h2 in
      let (rejected, f, h4) = >>=-eq-ok (from_ids render valid_ids false no_ids) _ ds h3 in
      subst (All IsKnown) (ok-injective (approved ++ rejected) ds h4) (
        All-++ approved rejected (from_ids-IsKnown true yes_ids approved e)
          (from_ids-IsKnown false no_ids rejected f))

  -- Every decision that is read from a resume payload, in any of its shapes, is about a known action.
  pub parse_decisions-IsKnown :
      (raw : Value) (ds : List ApprovalDecision)
      → parse_decisions render valid_ids raw ≡ ok ds
      → All (λ d. In d.action_id valid_ids) ds
  unfolding parse_decisions
  parse_decisions-IsKnown (bool b) ds h =
      subst (All IsKnown) (ok-injective _ ds h) (All-IsKnown b valid_ids (λ a i. i))
  parse_decisions-IsKnown (arr vs) ds h = from_items-IsKnown (items vs) ds h
  parse_decisions-IsKnown (obj fields) ds h =
      elim (Bool-cases (has_key "approved_ids" fields || has_key "rejected_ids" fields)) [
        | inl e ↦ from_lists-IsKnown fields ds (rw e at h)
        | inr e ↦ subst (All IsKnown) (ok-injective _ ds (rw e at h)) (from_mapping-IsKnown fields)
      ]
  parse_decisions-IsKnown _ ds h = subst (All IsKnown) (ok-injective [] ds h) tt
