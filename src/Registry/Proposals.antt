-- ===== src/Registry/Proposals.antt =====
-- Proposals and registration.
use atlas_alpha.Prelude.{
  ◌≡◌, sym, ap, ◌∙◌, ◌≢◌, subst, Bool, false, not, ◌&&◌, lookup-insert_self, Bool-cases, String,
  Option, none, some, eq_iff, arith, Dict, lookup, insert, lookup-insert, inl, inr,
}
use atlas_alpha.Prelude.Result.{ok, >>=-eq-ok}
use atlas_alpha.Value.{Fields}
use atlas_alpha.Actions.{ProposedAction}
use atlas_alpha.Registry.{Tool, is_some, permission_for, register, get_tool, propose}

module _ {W : Type 0} (tools : Dict (Tool W)) where
  -- What a registered tool declares about an action.
  pub record Stamped (tool : Tool W) (args : Fields) (action : ProposedAction) : Type 0 where
    pub risk : action.risk_tier ≡ tool.risk_tier
    pub valid : tool.validate args ≡ ok action.args
    pub permission : permission_for tool action.args ≡ ok action.required_permission

  get_tool-eq-ok :
      (name : String) (tool : Tool W)
      → get_tool name tools ≡ ok tool
      → lookup name tools ≡ some tool
  unfolding get_tool
  get_tool-eq-ok name tool h = ground arith

  -- The tier and the permission of a proposed action are those that the registered tool declares for
  -- the validated arguments, whatever arguments and rationale were given.
  pub propose-Stamped :
      (action_id tool_name : String) (args : Fields) (rationale : String) (action : ProposedAction)
      → propose action_id tool_name args rationale tools ≡ ok action
      → (tool : Tool W) × (lookup tool_name tools ≡ some tool)
        × (action.action_id ≡ action_id)
        × (action.tool ≡ tool.name)
        × Stamped tool args action
  unfolding propose
  propose-Stamped action_id tool_name args rationale action h =
      let (tool, found, h1) = >>=-eq-ok (get_tool tool_name tools) _ action h in
      let (validated, valid, h2) = >>=-eq-ok (tool.validate args) _ action h1 in
      let (permission, granted, h3) = >>=-eq-ok (permission_for tool validated) _ action h2 in
      let same : proposal tool validated permission ≡ action = cc in
      (
        tool,
        get_tool-eq-ok tool_name tool found,
        sym (ap (λ a. a.action_id) same),
        sym (ap (λ a. a.tool) same),
        record {
          risk = sym (ap (λ a. a.risk_tier) same);
          valid = valid ∙ ap (λ a. ok a.args) same;
          permission =
              subst (λ a. permission_for tool a.args ≡ ok a.required_permission) same granted;
        },
      )
    where
      proposal : Tool W → Fields → Option String → ProposedAction
      proposal tool validated permission = record {
        action_id = action_id;
        tool = tool.name;
        args = validated;
        risk_tier = tool.risk_tier;
        rationale = rationale;
        required_permission = permission;
      }

-- Every tool stands under its own name.
abbrev pub IsNamed : {W : Type 0} → Dict (Tool W) → Type 0
IsNamed {W} tools = (k : String) (tool : Tool W) → lookup k tools ≡ some tool → tool.name ≡ k

-- Registering keeps every tool under its own name, the new tool is found, the others are found as
-- before, and without `replace` no tool is overwritten.
pub register-IsNamed :
    {W : Type 0} (tool : Tool W) (replace : Bool) (tools tools' : Dict (Tool W))
    → IsNamed tools
    → register tool replace tools ≡ ok tools'
    → IsNamed tools'
      × (get_tool tool.name tools' ≡ ok tool)
      × ((k : String) → k ≢ tool.name → lookup k tools' ≡ lookup k tools)
      × (replace ≡ false → lookup tool.name tools ≡ none)
unfolding register get_tool
register-IsNamed {W} tool replace tools tools' named h =
    elim (Bool-cases (is_some (lookup tool.name tools) && not replace)) [
      | inl refused ↦ cc
      | inr free ↦
          let same : insert tool.name tool tools ≡ tools' = cc in
          rw (← same) (
            λ k other found. named_after k other found,
            rw (lookup-insert_self tool.name tool tools, get_tool),
            λ k differs. ground (arith, lookup-insert tool.name k tool tools, eq_iff tool.name k),
            λ keeps. ground arith,
          )
    ]
  where
    named_after :
        (k : String) (other : Tool W)
        → lookup k (insert tool.name tool tools) ≡ some other
        → other.name ≡ k
    named_after k other found =
        ground (arith, lookup-insert tool.name k tool tools, eq_iff tool.name k, named k other)
