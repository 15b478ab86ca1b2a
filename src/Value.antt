-- ===== src/Value.antt =====
-- The values of Python that the program passes on without looking inside (`Any`, `dict[str, Any]`):
-- tool arguments, tool outputs and the details of audit events.
pub mod Merge
use atlas_alpha.Prelude.{
  ℕ, String, Bool, true, false, not, nat_beq, Option, none, some, List, [], ◌∷◌, ◌==◌,
  if◌then◌else◌,
}

mutual
  -- `int` is a count; `number` is any other number, by its literal and whether it is not zero.
  pub data Value : Type 0 where
    null : Value
    bool : Bool → Value
    int : ℕ → Value
    number : String → Bool → Value
    text : String → Value
    obj : Fields → Value
    arr : Items → Value

  -- A dict: its keys and values in insertion order.
  pub data Fields : Type 0 where
    end : Fields
    field : String → Value → Fields → Fields

  -- A list.
  pub data Items : Type 0 where
    nil : Items
    cons : Value → Items → Items

-- `d.get(k)`
unfoldable pub get : String → Fields → Option Value
get k end = none
get k (field j v d) = if j == k then some v else get k d

-- `d[k] = v`
unfoldable pub set : String → Value → Fields → Fields
set k v end = field k v end
set k v (field j w d) = if j == k then field j v d else field j w (set k v d)

-- `{**a, **b}`
unfoldable pub merge : Fields → Fields → Fields
unfolding set
merge a end = a
merge a (field k v b) = merge (set k v a) b

-- `bool(v)`, Python's truth of a value
unfoldable pub truthy : Value → Bool
truthy null = false
truthy (bool b) = b
truthy (int n) = not (nat_beq n 0)
truthy (number s nonzero) = nonzero
truthy (text s) = if s == "" then false else true
truthy (arr nil) = false
truthy (arr (cons v vs)) = true
truthy (obj end) = false
truthy (obj (field k v d)) = true
