-- ===== src/Adapter.antt =====
-- src/atlas/adapter_engine.py: tools that are built from a schema. What pydantic makes of the declared
-- arguments and the transport are arguments; the loading of the JSON files is not modelled.
pub mod Tool
use Prim.Native.Char.{Char, code}
use Prim.Native.String.{[], ◌∷◌}
use atlas_alpha.Prelude.{
  ℕ, Bool, true, false, not, ◌&&◌, ◌||◌, String, Option, none, some, ◌==◌, append, if◌then◌else◌,
  leb, nat_beq, starts_with, contains, List, Dict,
}
use atlas_alpha.Prelude.Result.{Error, Result, ok, err, raise, ◌>>=◌}
use atlas_alpha.Value.{Value, Fields}
use atlas_alpha.Actions.{RiskTier}
use atlas_alpha.Credentials.{OAuthProvider}

pub data ArgType : Type 0 where
  str_type int_type bool_type : ArgType

pub record ArgSpec : Type 0 where
  pub name : String
  pub type : ArgType
  pub required : Bool
  pub min_length : Option ℕ
  pub max_length : Option ℕ
  pub description : String

-- A field is `none` where it is not set, and `some none` where it is set to null.
pub record PayloadField : Type 0 where
  pub arg : Option (Option String)
  pub constant : Option Value

pub record ResponseField : Type 0 where
  pub path : Option (Option String)
  pub constant : Option Value

pub record ToolSchema : Type 0 where
  pub name : String
  pub description : String
  pub schema_version : String
  pub risk_tier : RiskTier
  pub required_permission : Option String
  pub resource_permission_arg : Option String
  pub provider : OAuthProvider
  pub required_scopes : List String
  pub endpoint : String
  pub args : List ArgSpec
  pub payload : Dict PayloadField
  pub response : Dict ResponseField
  pub ok_field : Option String

abbrev pub schema_error {ℓ} : {A : Type ℓ} → String → Result A
schema_error message = raise "ToolSchemaError" message

-- `[a-z]` and `[a-z0-9_]`
abbrev pub is_lower : Char → Bool
is_lower c = let n = code c in leb 97 n && leb n 122

abbrev pub is_word : Char → Bool
is_word c = let n = code c in is_lower c || (leb 48 n && leb n 57) || nat_beq n 95

unfoldable pub all_word : String → Bool
all_word [] = true
all_word (c ∷ s) = is_word c && all_word s

-- `_SAFE_ARG_NAME.fullmatch(value)`
unfoldable pub is_safe_name : String → Bool
unfolding all_word
is_safe_name [] = false
is_safe_name (c ∷ s) = is_lower c && all_word s

-- `ArgSpec._safe_identifier`
unfoldable pub safe_identifier : ArgSpec → Result ArgSpec
unfolding is_safe_name
safe_identifier spec =
    if not (is_safe_name spec.name)
    then schema_error "arg name must be a lowercase identifier"
    else if starts_with spec.name "model_" || starts_with spec.name "__"
    then schema_error "arg name collides with a reserved namespace"
    else ok spec

abbrev pub is_set {ℓ} : {A : Type ℓ} → Option A → Bool
is_set none = false
is_set (some _) = true

abbrev pub is_null : Option (Option String) → Bool
is_null (some none) = true
is_null (some (some _)) = false
is_null none = false

-- `PayloadField._exactly_one` and `ResponseField._exactly_one`
unfoldable pub exactly_one : String → String → Option (Option String) → Option Value → Result Bool
exactly_one what key reference constant =
    if (is_set reference && is_set constant) || (not (is_set reference) && not (is_set constant))
    then schema_error
        (append (append what " field must set exactly one of ") (append key " or 'value'"))
    else if is_null reference
    then schema_error (append (append what " field ") (append key " must not be null"))
    else ok true

-- Every element passes a check.
unfoldable pub check_all : {A : Type 0} → (A → Result Bool) → List A → Result Bool
check_all check List.[] = ok true
check_all check (List.◌∷◌ x xs) = do first ← check x; check_all check xs

abbrev pub arg_names : List ArgSpec → List String
arg_names List.[] = List.[]
arg_names (List.◌∷◌ spec specs) = List.◌∷◌ spec.name (arg_names specs)

abbrev pub reference_declared : List String → String → Option (Option String) → Result Bool
reference_declared names key (some (some arg)) =
    if contains names arg
    then ok true
    else schema_error (append (append "payload field '" key) "' references undeclared arg")
reference_declared names key (some none) = ok true
reference_declared names key none = ok true

-- A payload field names a declared argument.
abbrev pub arg_declared : List String → String × PayloadField → Result Bool
arg_declared names (key, f) = reference_declared names key f.arg

-- `next(a for a in self.args if a.name == arg_name)`
unfoldable pub find_spec : String → List ArgSpec → Option ArgSpec
find_spec name List.[] = none
find_spec name (List.◌∷◌ spec specs) = if spec.name == name then some spec else find_spec name specs

abbrev pub is_required_text : ArgSpec → Bool
is_required_text spec = elim spec.type [
  | str_type ↦ spec.required
  | int_type ↦ false
  | bool_type ↦ false
]

-- The check of `resource_permission_arg`
unfoldable pub resource_arg_declared : List ArgSpec → Option String → Result Bool
unfolding find_spec
resource_arg_declared specs none = ok true
resource_arg_declared specs (some name) = elim (find_spec name specs) [
  | none ↦
      schema_error (append (append "resource_permission_arg '" name) "' references undeclared arg")
  | some spec ↦
      if is_required_text spec
      then ok true
      else schema_error (
          append (append "resource_permission_arg '" name)
            "' must name a declared required str arg")
]

abbrev pub spec_safe : ArgSpec → Result Bool
unfolding safe_identifier
spec_safe spec = safe_identifier spec >>= λ s. ok true

-- The validators of a schema and its parts
unfoldable pub validate_schema : ToolSchema → Result ToolSchema
unfolding check_all exactly_one resource_arg_declared
validate_schema schema = do
  names ← check_all spec_safe schema.args
  payloads ← check_all (λ e. exactly_one "payload" "'arg'" e.1.arg e.1.constant) schema.payload
  responses ← check_all (λ e. exactly_one "response" "'path'" e.1.path e.1.constant) schema.response
  references ← check_all (arg_declared (arg_names schema.args)) schema.payload
  resource ← resource_arg_declared schema.args schema.resource_permission_arg
  ok schema
