-- ===== src/Orchestration/Decisions.antt =====
-- `_parse_decisions` of src/atlas/orchestration/nodes.py: a resume payload becomes decisions on known
-- actions. A set of ids is the list of its elements; `str` of a value that is no text is an argument.
pub mod Known
pub mod Listed
use Prim.Native.String as S
use atlas_alpha.Prelude.{
  Bool, true, false, ◌||◌, String, Option, none, some, List, [], ◌∷◌, ◌++◌, map, contains,
  if◌then◌else◌,
}
use atlas_alpha.Prelude.Result.{Result, ok, err, raise, ◌>>=◌}
use atlas_alpha.Value.{
  Value, null, bool, int, number, text, arr, obj, Items, nil, cons, Fields, end, field, get, truthy,
}
use atlas_alpha.Actions.{ApprovalDecision}
use atlas_alpha.Confidence.{str}

abbrev has_key : String → Fields → Bool
has_key k fields = elim (get k fields) [ none ↦ false | some _ ↦ true ]

-- `for x in v`: lists, the keys of a dict and the characters of a text; the rest raise.
letters : String → List Value
letters String.[] = []
letters (String.◌∷◌ c s) = text (String.◌∷◌ c "") ∷ letters s

items : Items → List Value
items nil = []
items (cons v vs) = v ∷ items vs

key_values : Fields → List Value
key_values end = []
key_values (field k v fields) = text k ∷ key_values fields

iterate : Value → Result (List Value)
unfolding letters items key_values
iterate (arr vs) = ok (items vs)
iterate (obj fields) = ok (key_values fields)
iterate (text s) = ok (letters s)
iterate _ = raise "TypeError" "object is not iterable"

-- `v in valid_ids`: only a text can be one of the ids, and a list or a dict cannot be looked up.
member : Value → List String → Result Bool
member (text s) ids = ok (contains ids s)
member (arr _) ids = raise "TypeError" "unhashable type: 'list'"
member (obj _) ids = raise "TypeError" "unhashable type: 'dict'"
member _ ids = ok false

abbrev or_null : Option Value → Value
or_null none = null
or_null (some v) = v

abbrev or_value : Value → Option Value → Value
or_value d none = d
or_value d (some v) = v

module _ (render : Value → String) (valid_ids : List String) where
  abbrev decision : Value → Bool → String → ApprovalDecision
  decision aid approved by = record {
    action_id = str render aid;
    approved = approved;
    decided_by = by;
  }

  -- One element of an explicit list; what is no dict or names no known id is passed over.
  from_item : Value → Result (List ApprovalDecision)
  from_item (obj item) = do
    let aid = or_null (get "action_id" item)
    known ← member aid valid_ids
    ok (
        if known
        then decision aid (truthy (or_value (bool false) (get "approved" item)))
            (str render (or_value (text "human") (get "decided_by" item)))
          ∷ []
        else [])
  from_item _ = ok []

  from_items : List Value → Result (List ApprovalDecision)
  from_items [] = ok []
  from_items (v ∷ vs) = do here ← from_item v; rest ← from_items vs; ok (here ++ rest)

  from_ids : Bool → List Value → Result (List ApprovalDecision)
  from_ids approved [] = ok []
  from_ids approved (aid ∷ aids) = do
    known ← member aid valid_ids
    rest ← from_ids approved aids
    ok (if known then decision aid approved "human" ∷ rest else rest)

  from_mapping : Fields → List ApprovalDecision
  from_mapping end = []
  from_mapping (field aid approved fields) =
      let rest = from_mapping fields in
      if contains valid_ids aid then decision (text aid) (truthy approved) "human" ∷ rest else rest

  listed : String → Fields → Result (List Value)
  unfolding iterate
  listed key fields = iterate (or_value (arr nil) (get key fields))

  -- The lists of approved and of rejected ids.
  from_lists : Fields → Result (List ApprovalDecision)
  from_lists fields = do
    yes_ids ← listed "approved_ids" fields
    approved ← from_ids true yes_ids
    no_ids ← listed "rejected_ids" fields
    rejected ← from_ids false no_ids
    ok (approved ++ rejected)

  unfoldable pub parse_decisions : Value → Result (List ApprovalDecision)
  unfolding from_items from_item from_ids from_mapping from_lists listed items member
  parse_decisions (bool b) = ok (map (λ aid. decision (text aid) b "human") valid_ids)
  parse_decisions (arr vs) = from_items (items vs)
  parse_decisions (obj fields) =
      if has_key "approved_ids" fields || has_key "rejected_ids" fields
      then from_lists fields
      else ok (from_mapping fields)
  parse_decisions _ = ok []
