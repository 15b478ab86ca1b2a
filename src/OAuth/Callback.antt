-- ===== src/OAuth/Callback.antt =====
-- src/atlas/interface/oauth_routes.py: connecting an account, the callback and the revocation. The
-- clients of src/atlas/integrations/oauth.py are arguments, and so are the vault, the time and a fresh
-- nonce; an HTTPException is an error whose kind is the status.
pub mod Bound
pub mod Caller
use atlas_alpha.Prelude.{
  ℕ, Bool, true, false, not, ◌&&◌, ◌||◌, String, Option, none, some, ◌==◌, append, if◌then◌else◌,
  has_substring, List, [], ◌∷◌, map,
}
use atlas_alpha.Prelude.Result.{Error, Result, ok, err, raise, ◌>>=◌}
use atlas_alpha.Value.{Value, text, Fields, get}
use atlas_alpha.Policy.{Principal, is_anonymous}
use atlas_alpha.Interface.Identity.{
  Done, done, Verified, answer, bearer_token, principal_from_headers,
}
use atlas_alpha.Credentials.{
  OAuthProvider, google, slack, provider_value, StoredCredential, CredentialVault,
}
use atlas_alpha.OAuth.State.{
  Codec, StateSettings, state_error, two_parts, rsplit_dot, issue_oauth_state, consume_oauth_state,
  principal_from_payload, principal_from_state, value_is, sign_pending_nonce, nonce_of,
  verify_oauth_pending_cookie, normalize_email,
}
use atlas_alpha.OAuth.Binding.{
  Accounts, binding_error, require_binding_email, assert_provider_email_binding,
}

-- `OAuthExchangeResult`
pub record Exchange : Type 0 where
  pub credential : StoredCredential
  pub token_response : Fields

-- A configured client: where it sends a user, and how it exchanges a code.
pub record Client : Type 0 where
  pub client_id : String
  pub authorization_url : String → String
  pub exchange_code : String → Result Exchange

pub record Server : Type 0 where
  pub codec : Codec
  pub settings : StateSettings
  pub accounts : Accounts
  pub google_client : Option Client
  pub slack_client : Option Client
  pub oauth_success_url : Option String
  pub authenticator : Option (String → Verified)
  -- Whether `app.state` holds a vault.
  pub has_vault : Bool

-- The headers and the cookie that identify who calls.
pub record Request : Type 0 where
  pub authorization : Option String
  pub cookie : Option String
  pub user_header : Option String
  pub roles_header : Option String
  pub org_header : Option String

-- `except OAuthStateError` and `except OAuthBindingError`, answered by a 400
abbrev pub refuse_400 : {A : Type 0} → Error → Result A
refuse_400 e =
    if e.kind == "OAuthStateError" || e.kind == "OAuthBindingError"
    then raise "400" e.message
    else err e

abbrev pub as_400 : {A : Type 0} → Result A → Result A
as_400 (ok a) = ok a
as_400 (err e) = refuse_400 e

-- `_raise_vault_error`
abbrev pub vault_error : {A : Type 0} → Error → Result A
vault_error e =
    if e.kind == "CredentialAccessError"
    then (if has_substring e.message "temporarily unavailable"
        then raise "503" e.message
        else raise "403" e.message)
    else err e

-- `_provider`
unfoldable pub provider_named : Codec → String → Result OAuthProvider
provider_named codec name =
    if codec.lower name == "google"
    then ok google
    else if codec.lower name == "slack"
    then ok slack
    else raise "404" (append "Unknown provider: " name)

-- `_vault`
abbrev pub vault_ready : Bool → Result Done
vault_ready true = ok done
vault_ready false = raise "503" "Credential vault not configured."

abbrev pub client_of : Server → OAuthProvider → Result Client
client_of server google = elim server.google_client [
  | none ↦ raise "503" "Google OAuth not configured."
  | some client ↦ ok client
]
client_of server slack = elim server.slack_client [
  | none ↦ raise "503" "Slack OAuth not configured."
  | some client ↦ ok client
]

abbrev pub client_id_of : Option Client → Option String
client_id_of none = none
client_id_of (some client) = some client.client_id

abbrev pub callback_hint : {A : Type 0} → String → Result A
callback_hint provider = raise "401" (
    append (append "Complete OAuth via authenticated POST /oauth/" provider)
      "/callback or restart connect to receive a pending cookie.")

module _ (server : Server) where
  -- The end of `_resolve_callback_principal`: neither a token nor a cookie said who calls.
  abbrev pub from_headers : Request → Fields → String → Result Principal
  from_headers request payload provider = elim server.authenticator [
    | some _ ↦ callback_hint provider
    | none ↦
        let caller =
          principal_from_headers request.user_header request.roles_header request.org_header in
        if not (is_anonymous caller)
        then principal_from_state payload caller
        else callback_hint provider
  ]

  -- `if cookie and verify_oauth_pending_cookie(...)`
  abbrev pub cookie_holds : Option String → Fields → Result Bool
  cookie_holds none payload = ok false
  cookie_holds (some cookie) payload =
      if cookie == ""
      then ok false
      else verify_oauth_pending_cookie server.codec server.settings cookie payload

  abbrev pub by_cookie : Request → Fields → String → Bool → Result Principal
  by_cookie request payload provider true = principal_from_payload payload
  by_cookie request payload provider false = from_headers request payload provider

  abbrev pub from_cookie : Request → Fields → String → Result Principal
  from_cookie request payload provider =
      cookie_holds request.cookie payload >>= by_cookie request payload provider

  abbrev pub resolve_with :
      Request → Fields → String → Option String → Option (String → Verified) → Result Principal
  resolve_with request payload provider (some token) (some verify) =
      answer (verify token) >>= principal_from_state payload
  resolve_with request payload provider (some token) none = from_cookie request payload provider
  resolve_with request payload provider none authenticator = from_cookie request payload provider

  -- `_resolve_callback_principal`
  unfoldable pub resolve_callback_principal : Request → Fields → String → Result Principal
  resolve_callback_principal request payload provider =
      resolve_with request payload provider (bearer_token server.codec.lower request.authorization)
        server.authenticator

  -- The checks of `_complete_oauth_callback` on the state, with the address that it binds to.
  abbrev pub same_provider : OAuthProvider → Fields → Result Fields
  same_provider provider payload =
      if value_is (get "provider" payload) (some (provider_value provider))
      then ok payload
      else state_error "provider mismatch"

  abbrev pub same_principal : Principal → Fields → Result Fields
  same_principal bound payload =
      if value_is (get "user_id" payload) (some bound.user_id)
        && value_is (get "org_id" payload) bound.org_id
      then ok payload
      else state_error "state principal mismatch"

  unfoldable pub binding_email_for : OAuthProvider → String → Principal → ℕ → Result String
  binding_email_for provider state bound now = do
    payload ← consume_oauth_state server.codec server.settings state now
    for_provider ← same_provider provider payload
    for_principal ← same_principal bound for_provider
    require_binding_email server.codec for_principal

  -- The credential that a code is exchanged for, bound to the user's address.
  unfoldable pub bound_credential : OAuthProvider → String → String → Result StoredCredential
  bound_credential provider code binding_email = do
    client ← client_of server provider
    exchange ← client.exchange_code code
    as_400 (
        assert_provider_email_binding server.codec server.accounts provider binding_email
          exchange.credential exchange.token_response (client_id_of server.google_client))

  abbrev pub success_url : Option String → String
  success_url none = "/oauth/connections"
  success_url (some url) = if url == "" then "/oauth/connections" else url

  module _ (V : CredentialVault) where
    abbrev pub stored : V.State → Result V.State → Result String × V.State
    stored s (err e) = (vault_error e, s)
    stored s (ok s') = (ok (success_url server.oauth_success_url), s')

    abbrev pub store_for :
        Principal → OAuthProvider → V.State → Result StoredCredential → Result String × V.State
    store_for bound provider s (err e) = (err e, s)
    store_for bound provider s (ok credential) = stored s (V.put bound provider credential s)

    -- `_complete_oauth_callback`
    unfoldable pub complete_oauth_callback :
        OAuthProvider → String → String → Principal → ℕ → V.State → Result String × V.State
    unfolding binding_email_for bound_credential
    complete_oauth_callback provider code state bound now s =
        store_for bound provider s
          (as_400 (binding_email_for provider state bound now) >>= bound_credential provider code)

    -- Who the callback is for.
    unfoldable pub callback_caller :
        Request → String → String → ℕ → Result (OAuthProvider × Principal)
    unfolding resolve_callback_principal
    callback_caller request name state now = do
      ready ← vault_ready server.has_vault
      provider ← provider_named server.codec name
      payload ← as_400 (consume_oauth_state server.codec server.settings state now)
      bound ← resolve_callback_principal request payload name
      ok (provider, bound)

    abbrev pub completed :
        String → String → ℕ → V.State → Result (OAuthProvider × Principal) → Result String × V.State
    completed code state now s (err e) = (err e, s)
    completed code state now s (ok (provider, bound)) =
        complete_oauth_callback provider code state bound now s

    -- `oauth_callback_get`; the clock is read twice. The result is where it redirects to.
    unfoldable pub oauth_callback_get :
        Request → String → String → String → ℕ → ℕ → V.State → Result String × V.State
    unfolding callback_caller complete_oauth_callback
    oauth_callback_get request name code state now now' s =
        completed code state now' s (callback_caller request name state now)

    -- `oauth_callback_post`, for a caller that is known
    pub oauth_callback_post :
        Principal → String → String → String → ℕ → ℕ → V.State → Result String × V.State
    unfolding complete_oauth_callback
    oauth_callback_post principal name code state now now' s = completed code state now' s (do
      ready ← vault_ready server.has_vault
      provider ← provider_named server.codec name
      bound ← as_400 (
          consume_oauth_state server.codec server.settings state now >>= λ payload.
          principal_from_state payload principal)
      ok (provider, bound))

    abbrev pub revoked : OAuthProvider → V.State → Result V.State → Result String × V.State
    revoked provider s (err e) = (vault_error e, s)
    revoked provider s (ok s') = (ok (provider_value provider), s')

    abbrev pub revoked_from : Principal → V.State → Result OAuthProvider → Result String × V.State
    revoked_from principal s (err e) = (err e, s)
    revoked_from principal s (ok provider) = revoked provider s (V.delete principal provider s)

    -- `oauth_revoke`
    pub oauth_revoke : Principal → String → V.State → Result String × V.State
    oauth_revoke principal name s =
        revoked_from principal s
          (vault_ready server.has_vault >>= λ ready. provider_named server.codec name)

    abbrev pub listed : Result (List OAuthProvider) → Result (List String)
    listed (err e) = vault_error e
    listed (ok providers) = ok (map provider_value providers)

    -- `list_connections`
    pub list_connections : Principal → V.State → Result (List String)
    list_connections principal s =
        vault_ready server.has_vault >>= λ ready. listed (V.list_connected principal s)
