-- ===== src/Adapter/Tool.antt =====
-- The tool of a schema: its permission, its payload, its call and its result, and the engine that builds
-- it.
pub mod Declared
pub mod Gated
pub mod Routes
use atlas_alpha.Prelude.{
  ℕ, Bool, true, false, not, ◌&&◌, String, Option, none, some, List, [], ◌∷◌, ◌==◌, append,
  if◌then◌else◌, contains, Dict,
}
use atlas_alpha.Prelude.Result.{Error, Result, ok, err, raise, ◌>>=◌}
use atlas_alpha.Value.{Value, text, obj, Fields, end, field, get, set, truthy}
use atlas_alpha.Actions.{RiskTier, read, value}
use atlas_alpha.Policy.{Principal}
use atlas_alpha.Audit.{AuditToolContext}
use atlas_alpha.Credentials.{OAuthProvider, provider_value}
use atlas_alpha.Registry.{Tool}
use atlas_alpha.Tools.{Texts, slack_channel_resource_segment}
use atlas_alpha.Egress.{
  Url, EgressRoute, EgressPolicy, Network, route_of, egress_policy, assert_host_allowed,
}
use atlas_alpha.Adapter.{
  ArgType, str_type, int_type, bool_type, ArgSpec, PayloadField, ResponseField, ToolSchema,
  schema_error,
}

-- A field of the generated model; bounds on a length are kept for texts only.
pub record FieldDef : Type 0 where
  pub name : String
  pub type : ArgType
  pub optional : Bool
  pub min_length : Option ℕ
  pub max_length : Option ℕ

abbrev pub text_bound : ArgType → Option ℕ → Option ℕ
text_bound str_type bound = bound
text_bound int_type bound = none
text_bound bool_type bound = none

-- `_build_args_model`, up to pydantic's `create_model`
pub field_defs : List ArgSpec → List FieldDef
field_defs [] = []
field_defs (spec ∷ specs) =
    record {
      name = spec.name;
      type = spec.type;
      optional = not spec.required;
      min_length = text_bound spec.type spec.min_length;
      max_length = text_bound spec.type spec.max_length;
    }
    ∷ field_defs specs

abbrev pub present : String → Option Value → Result Value
present name none = raise "AttributeError" name
present name (some v) = ok v

-- `getattr(args, name)`
abbrev pub attribute : String → Fields → Result Value
attribute name args = present name (get name args)

abbrev pub constant_of : Option Value → Value
constant_of none = Value.null
constant_of (some v) = v

abbrev pub value_for : Option (Option String) → Option Value → Fields → Result Value
value_for (some (some arg)) constant args = attribute arg args
value_for (some none) constant args = ok (constant_of constant)
value_for none constant args = ok (constant_of constant)

abbrev pub payload_value : PayloadField → Fields → Result Value
payload_value f args = value_for f.arg f.constant args

-- The loop of `_build_payload`, over the payload so far
pub build_payload : Dict PayloadField → Fields → Fields → Result Fields
build_payload [] args payload = ok payload
build_payload ((key, f) ∷ fs) args payload = do
  v ← payload_value f args
  build_payload fs args (set key v payload)

abbrev pub response_value : ResponseField → Fields → Result Value
unfolding get
response_value f answer = elim f.path [
  | some (some path) ↦ elim (get path answer) [
    | none ↦ raise "RuntimeError" (append "provider response missing required field: " path)
    | some v ↦ ok v
  ]
  | _ ↦ ok (constant_of f.constant)
]

-- The loop of `_shape_response`
pub shape_response : Dict ResponseField → Fields → Fields → Result Fields
shape_response [] answer shaped = ok shaped
shape_response ((key, f) ∷ fs) answer shaped = do
  v ← response_value f answer
  shape_response fs answer (set key v shaped)

abbrev pub is_read : RiskTier → Bool
is_read read = true
is_read _ = false

abbrev pub is_named : Option String → Bool
is_named none = false
is_named (some permission) = not (permission == "")

-- What an engine holds: the call of pydantic's `create_model`, `str`, the network, the allowlists, and
-- where they are configured the resolver of tokens and the transport.
pub record Engine (W : Type 0) : Type 0 where
  pub texts : Texts
  pub network : Network
  pub create_model : List FieldDef → Fields → Result Fields
  pub render : Value → String
  pub allowlist : List String
  pub read_tier_allowlist : List String
  pub resolver : Option (Principal → OAuthProvider → List String → W → Result String × W)
  pub post_json : Option (String → Fields → String → W → Result Fields × W)

module _ {W : Type 0} (engine : Engine W) where
  abbrev pub error_message : ToolSchema → Option Value → String
  error_message schema none = append (provider_value schema.provider) " API error"
  error_message schema (some v) =
      if truthy v then engine.render v else append (provider_value schema.provider) " API error"

  -- The check of `ok_field`
  abbrev pub field_holds : Option Value → Bool
  field_holds none = false
  field_holds (some v) = truthy v

  abbrev pub checked : ToolSchema → Fields → Result Fields
  checked schema answer = elim schema.ok_field [
    | none ↦ ok answer
    | some name ↦
        if field_holds (get name answer)
        then ok answer
        else raise "RuntimeError" (error_message schema (get "error" answer))
  ]

  abbrev pub shaped : ToolSchema → Fields → Result Value
  unfolding shape_response
  shaped schema answer = do
    good ← checked schema answer
    shape ← shape_response schema.response good end
    ok (obj shape)

  abbrev pub answered : ToolSchema → Result Fields × W → Result Value × W
  answered schema (err e, world) = (err e, world)
  answered schema (ok answer, world) = (shaped schema answer, world)

  abbrev pub posted :
      ToolSchema
      → (String → Fields → String → W → Result Fields × W)
      → String
      → W
      → Result Fields
      → Result Value × W
  posted schema post token world (err e) = (err e, world)
  posted schema post token world (ok payload) =
      answered schema (post schema.endpoint payload token world)

  abbrev pub with_token :
      ToolSchema
      → (String → Fields → String → W → Result Fields × W)
      → Fields
      → Result String × W
      → Result Value × W
  unfolding build_payload
  with_token schema post args (err e, world) = (err e, world)
  with_token schema post args (ok token, world) =
      posted schema post token world (build_payload schema.payload args end)

  abbrev pub run_with :
      ToolSchema
      → Option (Principal → OAuthProvider → List String → W → Result String × W)
      → Option (String → Fields → String → W → Result Fields × W)
      → Fields
      → Principal
      → W
      → Result Value × W
  run_with schema (some tokens) (some post) args principal world =
      with_token schema post args (tokens principal schema.provider schema.required_scopes world)
  run_with schema none post args principal world =
      (raise "RuntimeError" (append schema.name " not configured"), world)
  run_with schema (some tokens) none args principal world =
      (raise "RuntimeError" (append schema.name " not configured"), world)

  -- `_SchemaTool.run`
  pub schema_run : ToolSchema → Fields → Principal → W → Result Value × W
  unfolding build_payload shape_response
  schema_run schema = run_with schema engine.resolver engine.post_json

  abbrev pub segment : String → Value → Option String
  segment name v =
      if name == "channel"
      then some (slack_channel_resource_segment engine.texts (engine.render v))
      else some (append (append name ":") (engine.render v))

  -- `_SchemaTool.resource_permission`
  pub schema_resource_permission : ToolSchema → Fields → Result (Option String)
  schema_resource_permission schema args = elim schema.resource_permission_arg [
    | none ↦ ok none
    | some name ↦ attribute name args >>= λ v. ok (segment name v)
  ]

  abbrev pub host_of : ToolSchema → Result String
  host_of schema =
      engine.network.parse_url schema.endpoint >>= λ u. ok (engine.network.lower u.host)

  -- `_SchemaTool.audit_metadata`
  abbrev pub schema_metadata : ToolSchema → String → AuditToolContext
  schema_metadata schema host = record {
    tool_schema = some schema.name;
    schema_version = some schema.schema_version;
    destination_host = some host;
    provider = some (provider_value schema.provider);
    principal = none;
  }

  -- `_SchemaTool`, given the host of its endpoint
  unfoldable pub schema_tool : ToolSchema → String → Tool W
  unfolding schema_run schema_resource_permission field_defs
  schema_tool schema host = record {
    name = schema.name;
    description = schema.description;
    risk_tier = schema.risk_tier;
    required_permission = schema.required_permission;
    validate = engine.create_model (field_defs schema.args);
    resource_permission = schema_resource_permission schema;
    run = schema_run schema;
    audit_metadata = schema_metadata schema host;
  }

  -- `_validate_security`
  unfoldable pub validate_security : ToolSchema → Result Url
  validate_security schema =
      if is_read schema.risk_tier && not (contains engine.read_tier_allowlist schema.name)
      then schema_error (
          append (append "schema '" schema.name)
            "' may not declare auto-run READ tier (not code-allowlisted)")
      else if not (is_read schema.risk_tier) && not (is_named schema.required_permission)
      then schema_error (
          append
            (append (append (append "schema '" schema.name) "' is a side-effecting tool (")
              (value schema.risk_tier))
            ") and must declare a required_permission")
      else assert_host_allowed engine.network schema.endpoint engine.allowlist

  -- `AdapterEngine.build_tool`
  unfoldable pub build_tool : ToolSchema → Result (Tool W)
  unfolding validate_security schema_tool
  build_tool schema = do
    endpoint ← validate_security schema
    host ← host_of schema
    ok (schema_tool schema host)

-- The routes of `build_egress_policy`
unfoldable pub routes_of : Network → List ToolSchema → Result (List EgressRoute)
routes_of net [] = ok []
routes_of net (schema ∷ schemas) = do
  url ← net.parse_url schema.endpoint
  routes ← routes_of net schemas
  ok (route_of net.lower url ∷ routes)

-- `build_egress_policy`
unfoldable pub build_egress_policy : Network → List ToolSchema → List String → Result EgressPolicy
unfolding routes_of
build_egress_policy net schemas allowed_hosts = do
  routes ← routes_of net schemas
  ok (egress_policy net.lower allowed_hosts routes)
