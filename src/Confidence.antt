-- ===== src/Confidence.antt =====
-- src/atlas/governance/confidence.py: provenance and confidence. A confidence is in hundredths. Python
-- rounds the quotient's double to two digits; which way it goes where the exact quotient lies half way
-- is an argument. `str` of a value that is no text is an argument too.
pub mod Scores
pub mod Provenance
use atlas_alpha.Prelude.{
  ℕ, zero, suc, ◌+◌, ◌*◌, Bool, true, false, ◌&&◌, String, Option, none, some, List, [], ◌∷◌, ◌++◌,
  ◌==◌, any, length, ltb, if◌then◌else◌,
}
use Prim.Native.Nat.{◌/◌, ◌%◌}
use atlas_alpha.Value.{Value, text, obj, get, truthy}
use atlas_alpha.Actions.{ActionResult}
use atlas_alpha.Knowledge.{Entity}

pub data Kind : Type 0 where
  tool knowledge : Kind

pub record Source : Type 0 where
  pub kind : Kind
  pub ref : String
  pub label : String

abbrev same_kind : Kind → Kind → Bool
same_kind tool tool = true
same_kind knowledge knowledge = true
same_kind _ _ = false

-- Two sources with the key `(kind, ref)` in common.
abbrev pub same_key : Source → Source → Bool
same_key a b = same_kind a.kind b.kind && a.ref == b.ref

-- `_add`
unfoldable pub add_source : Source → List Source → List Source
add_source source sources =
    if any (λ s. same_key s source) sources then sources else sources ++ source ∷ []

module _ (render : Value → String) where
  -- `str(v)`
  abbrev pub str : Value → String
  str (text s) = s
  str v = render v

  abbrev pub tool_source : ActionResult → Value → Source
  tool_source result label = record { kind = tool; ref = result.tool; label = str label }

  -- The label of a result's source, if it has one: `result.output.get("source")`.
  abbrev pub label_of : ActionResult → Option Value
  label_of result = elim result.output [
    | obj fields ↦ elim (get "source" fields) [
      | some label ↦ if result.ok && truthy label then some label else none
      | none ↦ none
    ]
    | _ ↦ none
  ]

  from_results : List ActionResult → List Source → List Source
  from_results [] sources = sources
  from_results (result ∷ results) sources = from_results results (elim (label_of result) [
    | some label ↦ add_source (tool_source result label) sources
    | none ↦ sources
  ])

  abbrev pub entity_source : Entity → Source
  entity_source e = record { kind = knowledge; ref = e.id; label = e.name }

  from_entities : List Entity → List Source → List Source
  from_entities [] sources = sources
  from_entities (e ∷ es) sources = from_entities es (add_source (entity_source e) sources)

  unfoldable pub collect_sources : List ActionResult → List Entity → List Source
  unfolding from_results from_entities
  collect_sources action_results kg_context =
      from_entities kg_context (from_results action_results [])

-- `sum(1 for result in results if result.ok)`
unfoldable pub count_ok : List ActionResult → ℕ
count_ok [] = 0
count_ok (r ∷ rs) = let rest = count_ok rs in if r.ok then suc rest else rest

module _ (rounds_up : ℕ → ℕ → Bool) where
  -- `round(ok / total, 2)`, in hundredths
  unfoldable pub round_ratio : ℕ → ℕ → ℕ
  round_ratio ok total =
      let low = 100 * ok / total in
      let rest = (100 * ok) % total in
      if ltb (2 * rest) total
      then low
      else if ltb total (2 * rest)
      then low + 1
      else if rounds_up ok total
      then low + 1
      else low

  unfoldable pub score_confidence : List ActionResult → List Entity → ℕ
  unfolding round_ratio
  score_confidence [] [] = 50
  score_confidence [] (e ∷ es) = 80
  score_confidence (r ∷ rs) kg_context = round_ratio (count_ok (r ∷ rs)) (length (r ∷ rs))
