-- ===== src/Config.antt =====
-- src/atlas/config.py: the checks on the settings that are read from the environment, and what the
-- program asks of them. The reading of the environment is pydantic's, the parsing of a URL and the classes
-- of an address are the libraries'. Messages are shortened to what they say is wrong.
pub mod Checks
pub mod Consistent
pub mod Transport
use atlas_alpha.Prelude.{
  ℕ, Bool, true, false, not, ◌&&◌, ◌||◌, String, Option, none, some, List, [], ◌∷◌, ◌==◌, append,
  if◌then◌else◌, nat_beq, strip,
}
use atlas_alpha.Prelude.Result.{Result, ok, raise, ◌>>=◌}
use atlas_alpha.Egress.{Url}

-- A whole number: `negsuc n` is -(n + 1).
pub data ℤ : Type 0 where
  pos : ℕ → ℤ
  negsuc : ℕ → ℤ

-- `0 < n`
abbrev pub is_positive : ℤ → Bool
is_positive (pos n) = not (nat_beq n 0)
is_positive (negsuc n) = false

-- The fields that the checks and the program's questions read.
pub record Settings : Type 0 where
  pub database_url : Option String
  pub voyage_api_key : Option String
  pub embedding_model : String
  pub embedding_dim : ℤ
  pub openrouter_api_key : Option String
  pub kg_extraction_enabled : Bool
  pub extraction_model : String
  pub extraction_max_entities : ℤ
  pub extraction_max_relations : ℤ
  pub responder_llm_enabled : Bool
  pub responder_model : String
  pub adapter_egress_proxy_url : String
  pub adapter_egress_proxy_username : String
  pub adapter_egress_proxy_password : Option String
  pub oidc_issuer : Option String
  pub oidc_audience : Option String
  pub oidc_jwks_uri : Option String
  pub oidc_allow_insecure_http : Bool
  pub rate_limit_enabled : Bool
  pub rate_limit_requests : ℤ
  pub rate_limit_window_seconds : ℤ
  pub upstash_redis_rest_url : Option String
  pub upstash_redis_rest_token : Option String
  pub resend_api_key : Option String
  pub email_from : Option String
  pub slack_bot_token : Option String
  pub vault_addr : Option String
  pub vault_token : Option String
  pub vault_role_id : Option String
  pub vault_secret_id : Option String
  pub google_oauth_client_id : Option String
  pub google_oauth_client_secret : Option String
  pub google_oauth_redirect_uri : Option String
  pub slack_oauth_client_id : Option String
  pub slack_oauth_client_secret : Option String
  pub slack_oauth_redirect_uri : Option String
  pub oauth_state_secret : Option String
  pub oauth_allow_insecure_state : Bool

-- What `ipaddress` says of the literal of an address, and of the IPv4 address that it wraps if it is an
-- IPv4-mapped one.
pub record Ranges : Type 0 where
  pub is_loopback : Bool
  pub is_link_local : Bool
  pub is_multicast : Bool
  pub is_unspecified : Bool

pub record Literal : Type 0 where
  pub ranges : Ranges
  pub ipv4_mapped : Option Ranges

-- The library calls: `urlparse` (its scheme and host name), `httpx.URL`, and `ipaddress.ip_address`,
-- which is `none` for a text that is no address.
pub record Parsers : Type 0 where
  pub urlparse : String → String × Option String
  pub parse_url : String → Result Url
  pub ip_address : String → Option Literal

abbrev pub in_blocked_range : Ranges → Bool
in_blocked_range r = r.is_loopback || (r.is_link_local || (r.is_multicast || r.is_unspecified))

abbrev pub unwrapped : Literal → Option Ranges → Ranges
unwrapped ip none = ip.ranges
unwrapped ip (some mapped) = mapped

-- The test of `assert_proxy_host_not_blocked`
abbrev pub literal_is_blocked : Option Literal → Bool
literal_is_blocked none = false
literal_is_blocked (some ip) = in_blocked_range (unwrapped ip ip.ipv4_mapped)

abbrev pub value_error {ℓ} : {A : Type ℓ} → String → Result A
value_error message = raise "ValueError" message

-- `_nonempty_str` and `_nonempty_secret`
abbrev pub nonempty : Option String → Bool
nonempty none = false
nonempty (some s) = not (strip s == "")

abbrev pub is_local : Option String → Bool
is_local none = false
is_local (some host) = host == "127.0.0.1" || host == "localhost"

-- `_is_secure_oidc_url`
abbrev pub is_secure_oidc_url : Parsers → String → Bool
is_secure_oidc_url parsers url =
    let (scheme, host) = parsers.urlparse (strip url) in
    scheme == "https" || (scheme == "http" && is_local host)

abbrev pub is_given : Option String → Bool
is_given none = false
is_given (some v) = not (v == "")

-- The properties of `Settings`
module _ (s : Settings) where
  abbrev pub oidc_enabled : Bool
  oidc_enabled = is_given s.oidc_issuer && (is_given s.oidc_audience && is_given s.oidc_jwks_uri)

  abbrev pub rate_limit_configured : Bool
  rate_limit_configured =
      s.rate_limit_enabled
      && (nonempty s.upstash_redis_rest_url && nonempty s.upstash_redis_rest_token)

  abbrev pub email_configured : Bool
  email_configured = nonempty s.resend_api_key && nonempty s.email_from

  abbrev pub slack_configured : Bool
  slack_configured = nonempty s.slack_bot_token

  abbrev pub embeddings_configured : Bool
  embeddings_configured = nonempty s.voyage_api_key

  abbrev pub openrouter_configured : Bool
  openrouter_configured = nonempty s.openrouter_api_key

  abbrev pub extraction_enabled : Bool
  extraction_enabled = s.kg_extraction_enabled && openrouter_configured

  abbrev pub responder_llm_active : Bool
  responder_llm_active = s.responder_llm_enabled && openrouter_configured

  abbrev pub vault_configured : Bool
  vault_configured =
      nonempty s.vault_addr
      && (nonempty s.vault_token || (nonempty s.vault_role_id && nonempty s.vault_secret_id))

  abbrev pub oauth_google_configured : Bool
  oauth_google_configured =
      nonempty s.google_oauth_client_id
      && (nonempty s.google_oauth_client_secret && nonempty s.google_oauth_redirect_uri)

  abbrev pub oauth_slack_configured : Bool
  oauth_slack_configured =
      nonempty s.slack_oauth_client_id
      && (nonempty s.slack_oauth_client_secret && nonempty s.slack_oauth_redirect_uri)

  abbrev pub oauth_routes_enabled : Bool
  oauth_routes_enabled = oauth_google_configured || oauth_slack_configured
