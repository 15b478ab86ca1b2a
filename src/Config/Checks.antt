-- ===== src/Config/Checks.antt =====
-- The validators of `Settings`. Messages are shortened to what they say is wrong.
use atlas_alpha.Prelude.{
  Bool, true, false, not, ◌&&◌, ◌||◌, String, Option, none, some, ◌==◌, append, if◌then◌else◌,
  nat_beq, strip,
}
use atlas_alpha.Prelude.Result.{Result, ok, ◌>>=◌}
use atlas_alpha.Egress.{Url}
use atlas_alpha.Config.{
  ℤ, pos, negsuc, is_positive, Settings, Parsers, value_error, literal_is_blocked, nonempty,
  is_secure_oidc_url, oidc_enabled, embeddings_configured, vault_configured, oauth_routes_enabled,
}

-- `if test: raise ValueError(message)`
unfoldable pub reject : Bool → String → Settings → Result Settings
reject true message s = value_error message
reject false message s = ok s

-- Some of three variables are set and some are not.
abbrev pub partial_of_three : Bool → Bool → Bool → Bool
partial_of_three a b c = (a || b || c) && not (a && (b && c))

abbrev pub partial_of_two : Bool → Bool → Bool
partial_of_two a b = (a || b) && not (a && b)

abbrev pub partial_message : String → String
partial_message what = append (append "Partial " what) " configuration"

abbrev pub secure : Parsers → Option String → Bool
secure parsers none = true
secure parsers (some url) = is_secure_oidc_url parsers url

module _ (s : Settings) where
  -- `validate_vault_config`
  abbrev pub has_role : Bool
  has_role = nonempty s.vault_role_id && nonempty s.vault_secret_id

  unfoldable pub validate_vault_config : Result Settings
  validate_vault_config = do
    role ←
        reject ((nonempty s.vault_role_id || nonempty s.vault_secret_id) && not has_role)
          "Partial Vault AppRole configuration" s
    reject (nonempty s.vault_addr && (not (nonempty s.vault_token) && not has_role))
        "VAULT_ADDR is set but neither VAULT_TOKEN nor AppRole credentials are configured." s

  -- `validate_adapter_egress_proxy`
  abbrev pub proxy_user : Bool
  proxy_user = nonempty (some s.adapter_egress_proxy_username)

  abbrev pub proxy_password : Bool
  proxy_password = nonempty s.adapter_egress_proxy_password

  abbrev pub proxy_url : String
  proxy_url = strip s.adapter_egress_proxy_url

  abbrev pub check_proxy_url : Parsers → Url → Result Settings
  check_proxy_url parsers parsed = do
    scheme ←
        reject (not (parsed.scheme == "http") && not (parsed.scheme == "https"))
          "ATLAS_ADAPTER_EGRESS_PROXY_URL must use http or https scheme" s
    host ← reject (parsed.host == "") "ATLAS_ADAPTER_EGRESS_PROXY_URL must include a host." s
    plain ←
        reject (not (parsed.userinfo == ""))
          "ATLAS_ADAPTER_EGRESS_PROXY_URL must not contain userinfo" s
    secure ←
        reject (proxy_user && (proxy_password && not (parsed.scheme == "https")))
          "Authenticated proxy egress requires https://" s
    reject (literal_is_blocked (parsers.ip_address parsed.host))
        "ATLAS_ADAPTER_EGRESS_PROXY_URL host resolves to a blocked address range." s

  abbrev pub check_proxy : Parsers → Result Settings
  check_proxy parsers =
      if proxy_url == "" then ok s else parsers.parse_url proxy_url >>= check_proxy_url parsers

  abbrev pub proxy_auth_paired : Result Settings
  proxy_auth_paired =
      reject ((proxy_user && not proxy_password) || (not proxy_user && proxy_password))
        "Partial proxy auth" s

  abbrev pub proxy_auth_has_url : Result Settings
  proxy_auth_has_url =
      reject ((proxy_user || proxy_password) && proxy_url == "")
        "Proxy egress credentials require ATLAS_ADAPTER_EGRESS_PROXY_URL" s

  unfoldable pub validate_adapter_egress_proxy : Parsers → Result Settings
  validate_adapter_egress_proxy parsers = do
    paired ← proxy_auth_paired
    complete ← proxy_auth_has_url
    check_proxy parsers

  -- `validate_google_oauth_config` and `validate_slack_oauth_config`
  unfoldable pub validate_google_oauth_config : Result Settings
  validate_google_oauth_config =
      reject
        (partial_of_three (nonempty s.google_oauth_client_id)
          (nonempty s.google_oauth_client_secret) (nonempty s.google_oauth_redirect_uri))
        (partial_message "Google OAuth") s

  unfoldable pub validate_slack_oauth_config : Result Settings
  validate_slack_oauth_config =
      reject
        (partial_of_three (nonempty s.slack_oauth_client_id) (nonempty s.slack_oauth_client_secret)
          (nonempty s.slack_oauth_redirect_uri))
        (partial_message "Slack OAuth") s

  -- `validate_oidc_config`
  unfoldable pub validate_oidc_config : Parsers → Result Settings
  validate_oidc_config parsers = do
    complete ←
        reject
          (partial_of_three (nonempty s.oidc_issuer) (nonempty s.oidc_audience)
            (nonempty s.oidc_jwks_uri))
          (partial_message "OIDC") s
    issuer ←
        reject
          (((oidc_enabled s) && not s.oidc_allow_insecure_http)
            && not (secure parsers s.oidc_issuer))
          "ATLAS_OIDC_ISSUER must use https:// (or http://127.0.0.1 / http://localhost)." s
    reject
        (((oidc_enabled s) && not s.oidc_allow_insecure_http)
          && not (secure parsers s.oidc_jwks_uri))
        "ATLAS_OIDC_JWKS_URI must use https:// (or http://127.0.0.1 / http://localhost)." s

  -- `validate_rate_limit_config`
  unfoldable pub validate_rate_limit_config : Result Settings
  validate_rate_limit_config = do
    budget ←
        reject (not (is_positive s.rate_limit_requests))
          "ATLAS_RATE_LIMIT_REQUESTS must be a positive integer." s
    window ←
        reject (not (is_positive s.rate_limit_window_seconds))
          "ATLAS_RATE_LIMIT_WINDOW_SECONDS must be a positive integer." s
    reject
        (s.rate_limit_enabled
          && partial_of_two (nonempty s.upstash_redis_rest_url)
              (nonempty s.upstash_redis_rest_token))
        (partial_message "Upstash rate-limit") s

  abbrev pub is_1024 : ℤ → Bool
  is_1024 (pos n) = nat_beq n 1024
  is_1024 (negsuc n) = false

  -- `validate_embedding_config`: the one supported model is `voyage-3`, of dimension 1024.
  unfoldable pub validate_embedding_config : Result Settings
  validate_embedding_config = do
    dim ←
        reject (not (is_positive s.embedding_dim)) "ATLAS_EMBEDDING_DIM must be a positive integer."
          s
    model ← reject (strip s.embedding_model == "") "ATLAS_EMBEDDING_MODEL must not be blank." s
    agrees ←
        reject (strip s.embedding_model == "voyage-3" && not (is_1024 s.embedding_dim))
          "ATLAS_EMBEDDING_MODEL 'voyage-3' requires ATLAS_EMBEDDING_DIM=1024." s
    reject ((embeddings_configured s) && not (strip s.embedding_model == "voyage-3"))
        "Unsupported ATLAS_EMBEDDING_MODEL" s

  -- `validate_extraction_config`
  unfoldable pub validate_extraction_config : Result Settings
  validate_extraction_config = do
    entities ←
        reject (not (is_positive s.extraction_max_entities))
          "ATLAS_EXTRACTION_MAX_ENTITIES must be a positive integer." s
    relations ←
        reject (not (is_positive s.extraction_max_relations))
          "ATLAS_EXTRACTION_MAX_RELATIONS must be a positive integer." s
    key ←
        reject (s.kg_extraction_enabled && not (nonempty s.openrouter_api_key))
          "ATLAS_KG_EXTRACTION_ENABLED is true but OPENROUTER_API_KEY is not set." s
    reject (s.kg_extraction_enabled && strip s.extraction_model == "")
        "ATLAS_EXTRACTION_MODEL must not be blank when extraction is enabled." s

  -- `validate_responder_llm_config`
  unfoldable pub validate_responder_llm_config : Result Settings
  validate_responder_llm_config = do
    key ←
        reject (s.responder_llm_enabled && not (nonempty s.openrouter_api_key))
          "ATLAS_RESPONDER_LLM_ENABLED is true but OPENROUTER_API_KEY is not set." s
    reject (s.responder_llm_enabled && strip s.responder_model == "")
        "ATLAS_RESPONDER_MODEL must not be blank when the responder LLM is enabled." s

  -- `validate_email_config`
  unfoldable pub validate_email_config : Result Settings
  validate_email_config =
      reject (partial_of_two (nonempty s.resend_api_key) (nonempty s.email_from))
        (partial_message "email") s

  -- `validate_oauth_state_secret`
  unfoldable pub validate_oauth_state_secret : Result Settings
  validate_oauth_state_secret =
      reject
        (((oauth_routes_enabled s) && not (nonempty s.oauth_state_secret))
          && not s.oauth_allow_insecure_state)
        "OAuth is enabled but ATLAS_OAUTH_STATE_SECRET is not set." s

  -- `validate_oauth_vault_config`
  unfoldable pub validate_oauth_vault_config : Result Settings
  validate_oauth_vault_config =
      reject (((oauth_routes_enabled s) && nonempty s.database_url) && not (vault_configured s))
        "OAuth is enabled with DATABASE_URL but Vault is not configured." s

  -- The validators of `Settings`, in the order in which they stand
  unfoldable pub validate_settings : Parsers → Result Settings
  validate_settings parsers = do
    vault ← validate_vault_config
    proxy ← validate_adapter_egress_proxy parsers
    google ← validate_google_oauth_config
    slack ← validate_slack_oauth_config
    oidc ← validate_oidc_config parsers
    rate_limit ← validate_rate_limit_config
    embedding ← validate_embedding_config
    extraction ← validate_extraction_config
    responder ← validate_responder_llm_config
    email ← validate_email_config
    state_secret ← validate_oauth_state_secret
    validate_oauth_vault_config
