-- ===== src/Registry.antt =====
-- src/atlas/tools.py: the contract of a tool and the registry. A tool's schema validation, its
-- resource segment and its `run` are fields of the tool; `run` may change the world outside.
pub mod Proposals
use Prim.Native.String.{compare}
use text.Mathlib.Text.{is_le}
use atlas_alpha.Prelude.{
  Bool, true, false, not, ◌&&◌, String, Option, none, some, List, [], ◌∷◌, append, if◌then◌else◌,
  Dict, lookup, insert, keys,
}
use atlas_alpha.Prelude.Result.{Error, Result, ok, err, raise, ◌>>=◌}
use atlas_alpha.Value.{Value, null, Fields}
use atlas_alpha.Actions.{RiskTier, ProposedAction, ActionResult}
use atlas_alpha.Policy.{Principal}
use atlas_alpha.Audit.{AuditToolContext}

-- `BaseTool`. `validate` is `ArgsSchema.model_validate`, its result the validated model's fields.
pub record Tool (W : Type 0) : Type 0 where
  pub name : String
  pub description : String
  pub risk_tier : RiskTier
  pub required_permission : Option String
  pub validate : Fields → Result Fields
  pub resource_permission : Fields → Result (Option String)
  pub run : Fields → Principal → W → Result Value × W
  pub audit_metadata : AuditToolContext

-- `_combine_permission`
unfoldable pub combine_permission : Option String → Option String → Option String
combine_permission none resource = none
combine_permission (some base) none = some base
combine_permission (some base) (some resource) = some (append (append base ":") resource)

abbrev pub is_some {ℓ} : {A : Type ℓ} → Option A → Bool
is_some none = false
is_some (some _) = true

-- The rank of a text in `sorted`: before the first one that is not smaller.
sort_insert : String → List String → List String
sort_insert x [] = x ∷ []
sort_insert x (y ∷ ys) = if is_le (compare x y) then x ∷ y ∷ ys else y ∷ sort_insert x ys

sorted : List String → List String
unfolding sort_insert
sorted [] = []
sorted (x ∷ xs) = sort_insert x (sorted xs)

-- `f"{type(exc).__name__}: {exc}"`
abbrev describe : Error → String
describe e = append (append e.kind ": ") e.message

abbrev success : ProposedAction → Value → ActionResult
success action output = record {
  action_id = action.action_id;
  tool = action.tool;
  ok = true;
  output = output;
  error = none;
}

abbrev failure : ProposedAction → Error → ActionResult
failure action e = record {
  action_id = action.action_id;
  tool = action.tool;
  ok = false;
  output = null;
  error = some (describe e);
}

abbrev outcome : ProposedAction → Result Value → ActionResult
outcome action (ok output) = success action output
outcome action (err e) = failure action e

module _ {W : Type 0} where
  unfoldable pub permission_for : Tool W → Fields → Result (Option String)
  permission_for tool args = do
    resource ← tool.resource_permission args
    ok (combine_permission tool.required_permission resource)

  -- `ToolRegistry.register`
  unfoldable pub register : Tool W → Bool → Dict (Tool W) → Result (Dict (Tool W))
  register tool replace tools =
      if is_some (lookup tool.name tools) && not replace
      then raise "ValueError" (append "tool already registered: " tool.name)
      else ok (insert tool.name tool tools)

  -- `ToolRegistry.get`. The message of a KeyError is the quoted text of its argument.
  unfoldable pub get_tool : String → Dict (Tool W) → Result (Tool W)
  get_tool name tools = elim (lookup name tools) [
    | some tool ↦ ok tool
    | none ↦ raise "KeyError" (append (append "'unknown tool: " name) "'")
  ]

  unfoldable pub names : Dict (Tool W) → List String
  unfolding sorted
  names tools = sorted (keys tools)

  -- `ToolRegistry.propose`; the default factory's id is an argument.
  unfoldable pub propose : String → String → Fields → String → Dict (Tool W) → Result ProposedAction
  propose action_id tool_name args rationale tools = do
    tool ← get_tool tool_name tools
    validated ← tool.validate args
    permission ← permission_for tool validated
    ok (record {
      action_id = action_id;
      tool = tool.name;
      args = validated;
      risk_tier = tool.risk_tier;
      rationale = rationale;
      required_permission = permission;
    })

  -- The `try` block of `ToolRegistry.execute`: what the tool did to the world stays when it raises.
  attempt : ProposedAction → Principal → Dict (Tool W) → W → Result Value × W
  attempt action principal tools world = elim (get_tool action.tool tools) [
    | err e ↦ (err e, world)
    | ok tool ↦ elim (tool.validate action.args) [
      | err e ↦ (err e, world)
      | ok args ↦ tool.run args principal world
    ]
  ]

  -- `ToolRegistry.execute`
  unfoldable pub execute : ProposedAction → Principal → Dict (Tool W) → W → ActionResult × W
  unfolding attempt
  execute action principal tools world =
      let (result, world') = attempt action principal tools world in (outcome action result, world')
