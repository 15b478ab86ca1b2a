-- ===== src/Tests/Catalog.antt =====
-- The catalogue of tools, a tool from a schema, and settings, at concrete inputs.
use atlas_alpha.Prelude.{
  ℕ, suc, ◌≡◌, ◌≢◌, ◌⊎◌, refl, true, false, String, none, some, [], ◌∷◌, ◌==◌, if◌then◌else◌, subst,
  Bool-cases, inl, inr, eq_iff, append, contains, starts_with, strip, Dict, lookup, is_space,
}
use atlas_alpha.Prelude.Result.{ok, raise}
use atlas_alpha.Value.{Value, null, text, Fields, field, end, get}
use atlas_alpha.Actions.{send}
use atlas_alpha.Registry.{Tool}
use atlas_alpha.Credentials.{google}
use atlas_alpha.Egress.{Url, route_of, assert_host_allowed}
use atlas_alpha.Tools.{
  Texts, plain, is_recipient, has_domain, validated_recipient, recipient_domain,
  reject_non_channel_targets,
}
use atlas_alpha.Tools.Recipients.{IsDomain, validated_recipient-IsDomain}
use atlas_alpha.Tools.Channels.{IsChannel, reject_non_channel_targets-IsChannel}
use atlas_alpha.Tools.Catalog.{Live, ToolSettings, default_registry}
use atlas_alpha.Tools.Durable.{IsGated, IsHarmless, default_registry-IsGated}
use atlas_alpha.Adapter.{
  str_type, ToolSchema, arg_names, validate_schema, check_all, exactly_one, resource_arg_declared,
  safe_identifier, is_safe_name, all_word, find_spec,
}
use atlas_alpha.Adapter.Tool.{
  Engine, build_tool, build_payload, validate_security, schema_tool, build_egress_policy, routes_of,
}
use atlas_alpha.Adapter.Tool.Gated.{IsAnchored, IsAllowedEndpoint, build_tool-IsAnchored}
use atlas_alpha.Adapter.Tool.Routes.{IsEndpoint, prepare_pinned-IsEndpoint}
use atlas_alpha.Adapter.Tool.Declared.{build_payload-declared}
use atlas_alpha.Config.{pos, Settings, Parsers}
use atlas_alpha.Config.Checks.{reject, validate_adapter_egress_proxy}
use atlas_alpha.Config.Transport.{
  direct, through, adapter_egress_proxy_auth, make_adapter_transport,
}
use atlas_alpha.Config.Transport.Validated.{IsUsable, make_adapter_transport-ok}
use atlas_alpha.Tests.Egress.{network, crm_policy, crm_pin, pinned}

-- Texts without capital letters, except that `u` and `d` have one.
abbrev texts : Texts
texts = record {
  read_text = λ name least most default args. elim (get name args) [
    | some (text s) ↦ ok s
    | _ ↦ raise "ValidationError" name
  ];
  lower = λ s. s;
  upper = λ s. if s == "u" then "U" else if s == "d" then "D" else s;
  repr = λ s. s;
}

abbrev recipient : String
recipient = "bob@acme.io"

valid : validated_recipient recipient ≡ ok recipient
unfolding validated_recipient is_recipient has_domain plain is_space
valid = refl

validated_recipient-IsDomain_example :
    (local : String) × (domain : String) × (recipient ≡ append local (append "@" domain))
    × (recipient ≡ recipient)
    × (local ≢ "")
    × (plain local ≡ true)
    × IsDomain domain
    × (recipient_domain texts recipient ≡ domain)
    × (domain ≢ "")
validated_recipient-IsDomain_example =
    validated_recipient-IsDomain texts recipient recipient (λ s n. n) valid

public_channel : reject_non_channel_targets texts " #general" ≡ ok "#general"
unfolding reject_non_channel_targets strip starts_with
public_channel = refl

reject_non_channel_targets-IsChannel_example : IsChannel texts "#general"
reject_non_channel_targets-IsChannel_example =
    reject_non_channel_targets-IsChannel texts " #general" "#general" (λ s. refl) refl
      public_channel

-- Senders that count what they sent.
abbrev live : Live ℕ
live = record {
  email = λ m n. (ok null, suc n);
  slack = λ m n. (ok null, suc n);
  gmail = λ m t n. (ok null, suc n);
  calendar = λ m t n. (ok null, suc n);
  slack_user = λ m t n. (ok null, suc n);
}

abbrev no_database : ToolSettings
no_database = record { email_configured = true; slack_configured = true; database_url = none }

default_registry-IsGated_example :
    (tools : Dict (Tool ℕ)) × (default_registry no_database live texts none ≡ ok tools)
    × ((name : String) (tool : Tool ℕ)
        → lookup name tools ≡ some tool
        → (tool.name ≡ name)
          × ((name ≡ "search") ⊎ IsGated tool)
          × (((url : String) × (no_database.database_url ≡ some url)) ⊎ IsHarmless tool))
default_registry-IsGated_example = default_registry-IsGated texts no_database live none

abbrev note_schema : ToolSchema
note_schema = record {
  name = "crm_note";
  description = "Write a note.";
  schema_version = "1";
  risk_tier = send;
  required_permission = some "tool:crm:note";
  resource_permission_arg = some "account";
  provider = google;
  required_scopes = [];
  endpoint = "https://api.crm.io/v1/notes";
  args =
      record {
        name = "account";
        type = str_type;
        required = true;
        min_length = some 1;
        max_length = none;
        description = "The account.";
      }
      ∷ [];
  payload = ("to", record { arg = some (some "account"); constant = none }) ∷ [];
  response = [];
  ok_field = none;
}

abbrev engine : Engine ℕ
engine = record {
  texts = texts;
  network = network;
  create_model = λ fields args. ok args;
  render = λ v. elim v [ text s ↦ s | _ ↦ "" ];
  allowlist = "api.crm.io" ∷ [];
  read_tier_allowlist = [];
  resolver = none;
  post_json = none;
}

abbrev note_tool : Tool ℕ
note_tool = schema_tool engine note_schema "api.crm.io"

built : build_tool engine note_schema ≡ ok note_tool
unfolding build_tool validate_security assert_host_allowed contains
built = refl

build_tool-IsAnchored_example :
    (note_tool.name ≡ "crm_note")
    × (note_tool.risk_tier ≡ send)
    × IsAnchored engine note_schema note_tool
    × IsAllowedEndpoint network ("api.crm.io" ∷ []) "https://api.crm.io/v1/notes"
build_tool-IsAnchored_example = build_tool-IsAnchored engine note_schema note_tool built

routed : build_egress_policy network (note_schema ∷ []) ("api.crm.io" ∷ []) ≡ ok crm_policy
unfolding build_egress_policy routes_of
routed = refl

prepare_pinned-IsEndpoint_example :
    (parsed : Url) × (network.parse_url "https://api.crm.io/v1/notes" ≡ ok parsed)
    × IsEndpoint network (note_schema ∷ []) (route_of network.lower parsed)
    × (crm_pin.url ≡ record parsed { host = crm_pin.url.host })
prepare_pinned-IsEndpoint_example =
    prepare_pinned-IsEndpoint network (note_schema ∷ []) ("api.crm.io" ∷ []) crm_policy
      "https://api.crm.io/v1/notes" crm_pin routed pinned

abbrev more_args : Fields
more_args = field "note" (text "secret") (field "account" (text "a1") end)

abbrev declared_args : Fields
declared_args = field "account" (text "a1") end

checked : validate_schema note_schema ≡ ok note_schema
unfolding validate_schema check_all exactly_one resource_arg_declared safe_identifier is_safe_name
    all_word find_spec starts_with contains
checked = refl

account_given :
    (a : String)
    → contains (arg_names note_schema.args) a ≡ true
    → (v : Value) × (get a more_args ≡ some v)
unfolding contains get
account_given a h = elim (Bool-cases ("account" == a)) [
  | inr e ↦ let bad = rw e at h in cc
  | inl e ↦
      subst (λ b. (v : Value) × (get b more_args ≡ some v)) ((eq_iff "account" a).0 e)
        (text "a1", refl)
]

account_same :
    (a : String)
    → contains (arg_names note_schema.args) a ≡ true
    → get a more_args ≡ get a declared_args
unfolding contains get
account_same a h = elim (Bool-cases ("account" == a)) [
  | inr e ↦ let bad = rw e at h in cc
  | inl e ↦ subst (λ b. get b more_args ≡ get b declared_args) ((eq_iff "account" a).0 e) refl
]

build_payload-declared_example :
    (payload : Fields) × (build_payload note_schema.payload more_args end ≡ ok payload)
    × (build_payload note_schema.payload declared_args end ≡ ok payload)
build_payload-declared_example =
    build_payload-declared note_schema note_schema more_args declared_args checked account_given
      account_same

abbrev settings : Settings
settings = record {
  database_url = some "postgres://db";
  voyage_api_key = none;
  embedding_model = "voyage-3";
  embedding_dim = pos 1024;
  openrouter_api_key = none;
  kg_extraction_enabled = false;
  extraction_model = "";
  extraction_max_entities = pos 20;
  extraction_max_relations = pos 40;
  responder_llm_enabled = false;
  responder_model = "";
  adapter_egress_proxy_url = "";
  adapter_egress_proxy_username = "";
  adapter_egress_proxy_password = none;
  oidc_issuer = some "https://issuer";
  oidc_audience = some "atlas";
  oidc_jwks_uri = some "https://issuer/jwks";
  oidc_allow_insecure_http = false;
  rate_limit_enabled = false;
  rate_limit_requests = pos 60;
  rate_limit_window_seconds = pos 60;
  upstash_redis_rest_url = none;
  upstash_redis_rest_token = none;
  resend_api_key = some "k";
  email_from = some "a@acme.io";
  slack_bot_token = none;
  vault_addr = some "https://vault";
  vault_token = some "t";
  vault_role_id = none;
  vault_secret_id = none;
  google_oauth_client_id = some "id";
  google_oauth_client_secret = some "s";
  google_oauth_redirect_uri = some "https://atlas/cb";
  slack_oauth_client_id = none;
  slack_oauth_client_secret = none;
  slack_oauth_redirect_uri = none;
  oauth_state_secret = some "secret";
  oauth_allow_insecure_state = false;
}

abbrev parsers : Parsers
parsers = record {
  urlparse = λ url. ("https", some "issuer");
  parse_url = λ url. raise "InvalidURL" "no such url";
  ip_address = λ host. none;
}

abbrev proxied : Settings
proxied = record settings {
  adapter_egress_proxy_url = " https://proxy.acme.io ";
  adapter_egress_proxy_username = "atlas";
  adapter_egress_proxy_password = some "p";
}

abbrev proxy : Url
proxy = record { scheme = "https"; userinfo = ""; host = "proxy.acme.io"; port = none; path = "/" }

abbrev proxy_parsers : Parsers
proxy_parsers = record {
  urlparse = λ url. ("https", some "issuer");
  parse_url = λ url. ok proxy;
  ip_address = λ host. none;
}

proxy_valid : validate_adapter_egress_proxy proxied proxy_parsers ≡ ok proxied
unfolding validate_adapter_egress_proxy strip reject
proxy_valid = refl

make_adapter_transport-ok_example :
    ((strip proxied.adapter_egress_proxy_url ≡ "")
      × (make_adapter_transport proxy_parsers proxied crm_policy ≡ ok (direct crm_policy)))
    ⊎ ((url : Url) × (proxy_parsers.parse_url (strip proxied.adapter_egress_proxy_url) ≡ ok url)
        × IsUsable proxy_parsers (adapter_egress_proxy_auth proxied) url
        × (make_adapter_transport proxy_parsers proxied crm_policy
            ≡ ok (
                through (record {
                  policy = crm_policy;
                  proxy_url = strip proxied.adapter_egress_proxy_url;
                  proxy_auth = adapter_egress_proxy_auth proxied;
                }))))
make_adapter_transport-ok_example =
    make_adapter_transport-ok proxy_parsers proxied proxied crm_policy proxy_valid
