-- ===== src/OAuth/Connect.antt =====
-- `oauth_connect` of src/atlas/interface/oauth_routes.py: a user is sent to the provider with a signed
-- state, and the browser gets a cookie for it.
pub mod Returns
use atlas_alpha.Prelude.{ℕ, String, Option, none, some, ◌==◌, if◌then◌else◌, strip}
use atlas_alpha.Prelude.Result.{Error, Result, ok, err, raise, ◌>>=◌}
use atlas_alpha.Value.{Value, text, Fields, get}
use atlas_alpha.Policy.{Principal}
use atlas_alpha.Interface.Identity.{Verified, bearer_token}
use atlas_alpha.Credentials.{OAuthProvider}
use atlas_alpha.OAuth.State.{
  Codec, StateSettings, state_error, rsplit_dot, issue_oauth_state, sign_pending_nonce, nonce_of,
  normalize_email,
}
use atlas_alpha.OAuth.Binding.{binding_error}
use atlas_alpha.OAuth.Callback.{Server, Request, as_400, provider_named, client_of}

-- Where the browser is sent, the state in that address, and the cookie that it gets.
pub record Redirect : Type 0 where
  pub url : String
  pub state : String
  pub pending_cookie : String

-- What the authenticator says of a token's e-mail address.
pub data TokenEmail : Type 0 where
  email_is : Option String → TokenEmail
  unavailable : TokenEmail
  refused : TokenEmail

abbrev pub email_required : {A : Type 0} → Result A
email_required = binding_error "email claim required for OAuth connect"

abbrev pub given_email : Codec → Option String → Result String
given_email codec none = email_required
given_email codec (some email) =
    if email == "" then email_required else ok (normalize_email codec email)

abbrev pub token_email : Codec → TokenEmail → Result String
token_email codec (email_is email) = given_email codec email
token_email codec unavailable = binding_error "authentication service unavailable"
token_email codec refused = binding_error "invalid or expired token"

abbrev pub stripped : Option String → Option String
stripped none = none
stripped (some header) = some (strip header)

-- `resolve_binding_email`, given the authenticator's view of a token's address if there is one, the
-- bearer token and the header of the development shim
unfoldable pub resolve_binding_email :
    Codec → Option (String → TokenEmail) → Option String → Option String → Result String
resolve_binding_email codec (some email_from_token) (some token) header =
    token_email codec (email_from_token token)
resolve_binding_email codec (some email_from_token) none header =
    given_email codec (stripped header)
resolve_binding_email codec none token header = given_email codec (stripped header)

-- `state.rsplit(".", 1)[0]`
abbrev pub state_body : String → Option (String × String) → String
state_body state none = state
state_body state (some (body, sig)) = body

abbrev pub payload_of : Option Fields → Result Fields
payload_of none = raise "ValueError" "invalid state"
payload_of (some payload) = ok payload

abbrev pub nonce_in : Option String → Result String
nonce_in none = state_error "state missing nonce"
nonce_in (some nonce) = ok nonce

-- `_nonce_from_state`
unfoldable pub nonce_from_state : Codec → String → Result String
nonce_from_state codec state = do
  payload ← payload_of (codec.decode (state_body state (rsplit_dot state)))
  nonce_in (nonce_of (get "nonce" payload))

abbrev pub org_named : Option String → Result String
org_named none = raise "400" "org_id is required for OAuth connect."
org_named (some org_id) = ok org_id

-- `oauth_connect`, given the fresh nonce; a state lives for ten minutes.
unfoldable pub oauth_connect :
    Server
    → Option (String → TokenEmail)
    → Option String
    → Option String
    → String
    → Principal
    → String
    → ℕ
    → Result Redirect
unfolding resolve_binding_email nonce_from_state
oauth_connect server email_from_token token email_header name principal nonce now = do
  provider ← provider_named server.codec name
  org_id ← org_named principal.org_id
  binding_email ← as_400 (resolve_binding_email server.codec email_from_token token email_header)
  state ←
      issue_oauth_state server.codec server.settings principal provider binding_email 600 nonce now
  client ← client_of server provider
  stated_nonce ← nonce_from_state server.codec state
  cookie ← sign_pending_nonce server.codec server.settings stated_nonce
  ok (record { url = client.authorization_url state; state = state; pending_cookie = cookie })
