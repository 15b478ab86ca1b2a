-- ===== src/OAuth/Binding.antt =====
-- src/atlas/integrations/oauth_binding.py: the account that a provider names must have the e-mail address
-- of the user who asked to connect it. The verification of an identity token by PyJWT and Slack's answer
-- over HTTP are arguments.
pub mod Matched
use atlas_alpha.Prelude.{
  Bool, true, false, not, ◌||◌, String, Option, none, some, ◌==◌, append, if◌then◌else◌, strip,
  Dict, lookup, insert, List, [], ◌∷◌,
}
use atlas_alpha.Prelude.Result.{Error, Result, ok, err, raise, ◌>>=◌}
use atlas_alpha.Value.{Value, text, obj, Fields, end, get, truthy}
use atlas_alpha.Credentials.{OAuthProvider, google, slack, StoredCredential}
use atlas_alpha.OAuth.State.{Codec, normalize_email}

-- What is asked of the providers: the claims of an identity token that PyJWT verifies, under the key of
-- its issuer and for a client id, and the JSON answer of `users.info`; `render` is `str`.
pub record Accounts : Type 0 where
  pub verify_id_token : String → String → Option Fields
  pub users_info : String → String → Result Fields
  pub render : Value → String

abbrev pub binding_error {ℓ} : {A : Type ℓ} → String → Result A
binding_error message = raise "OAuthBindingError" message

-- A value that is there and true.
abbrev pub given : Option Value → Option Value
given none = none
given (some v) = if truthy v then some v else none

-- `d.get(key) or {}`, read as a dictionary
abbrev pub or_dict : Option Value → Result Fields
or_dict none = ok end
or_dict (some (obj d)) = ok d
or_dict (some v) = if truthy v then raise "AttributeError" "get" else ok end

-- `require_binding_email`
unfoldable pub require_binding_email : Codec → Fields → Result String
require_binding_email codec payload = elim (get "binding_email" payload) [
  | some (text raw) ↦
      if strip raw == ""
      then binding_error "state missing binding_email"
      else ok (normalize_email codec raw)
  | _ ↦ binding_error "state missing binding_email"
]

-- `assert_emails_match`
unfoldable pub emails_match : Codec → String → String → Bool
emails_match codec expected actual = normalize_email codec expected == normalize_email codec actual

-- `claims.get("iss") in _GOOGLE_ISSUERS`
abbrev pub is_google : Option Value → Bool
is_google (some (text iss)) = iss == "accounts.google.com" || iss == "https://accounts.google.com"
is_google _ = false

-- `_verify_google_id_token`
unfoldable pub verify_google_id_token : Accounts → String → String → Result Fields
verify_google_id_token accounts id_token client_id =
    elim (accounts.verify_id_token id_token client_id) [
      | none ↦ binding_error "invalid Google id_token"
      | some claims ↦
          if is_google (get "iss" claims)
          then ok claims
          else binding_error "invalid Google id_token"
    ]

-- `if value: metadata[key] = str(value)`
abbrev pub noted : Accounts → String → Option Value → Dict String → Dict String
noted accounts key none metadata = metadata
noted accounts key (some v) metadata = insert key (accounts.render v) metadata

abbrev pub needed : String → Option Value → Result Value
needed message none = binding_error message
needed message (some v) = ok v

-- `google_provider_email`
unfoldable pub google_provider_email :
    Codec → Accounts → String → Fields → Result (String × Dict String)
unfolding verify_google_id_token
google_provider_email codec accounts client_id token_response = do
  id_token ← needed "Google OAuth response missing id_token" (given (get "id_token" token_response))
  claims ← verify_google_id_token accounts (accounts.render id_token) client_id
  raw ← needed "Google id_token missing email claim" (given (get "email" claims))
  let email = normalize_email codec (accounts.render raw)
  ok (
    email,
    noted accounts "google_sub" (given (get "sub" claims)) (("provider_email", email) ∷ []),
  )

-- The message of a refused lookup: `data.get("error", default)`
abbrev pub lookup_error : Accounts → Option Value → String
lookup_error accounts none = "Slack users.info lookup failed"
lookup_error accounts (some v) = accounts.render v

abbrev pub accepted : Accounts → Fields → Result Fields
accepted accounts answer = elim (given (get "ok" answer)) [
  | none ↦ binding_error (lookup_error accounts (get "error" answer))
  | some _ ↦ ok answer
]

-- `slack_provider_email`
pub slack_provider_email : Codec → Accounts → String → String → Result (String × Dict String)
slack_provider_email codec accounts access_token user_id = do
  answer ← accounts.users_info access_token user_id
  info ← accepted accounts answer
  user ← or_dict (get "user" info)
  profile ← or_dict (get "profile" user)
  raw ← needed "Slack user profile missing email" (given (get "email" profile))
  team ← or_dict (get "team" info)
  let email = normalize_email codec (accounts.render raw)
  let metadata = noted accounts "user_id" (given (get "id" user)) (("provider_email", email) ∷ [])
  ok (email, noted accounts "team_id" (given (get "id" team)) metadata)

abbrev pub known_id : Option String → Option String
known_id none = none
known_id (some id) = if id == "" then none else some id

abbrev pub rendered_id : Accounts → Option Value → Result String
rendered_id accounts none = binding_error "Slack OAuth response missing user id"
rendered_id accounts (some v) =
    if accounts.render v == ""
    then binding_error "Slack OAuth response missing user id"
    else ok (accounts.render v)

-- The Slack user whose account was connected.
pub slack_user_id : Accounts → StoredCredential → Fields → Result String
slack_user_id accounts credential token_response =
    elim (known_id (lookup "user_id" credential.metadata)) [
      | some id ↦ ok id
      | none ↦ do
        authed_user ← or_dict (get "authed_user" token_response)
        rendered_id accounts (given (get "id" authed_user))
    ]

-- The provider's e-mail address and metadata of the account, given Google's client id if a Google
-- client is configured.
unfoldable pub provider_email :
    Codec
    → Accounts
    → OAuthProvider
    → StoredCredential
    → Fields
    → Option String
    → Result (String × Dict String)
unfolding google_provider_email slack_provider_email slack_user_id
provider_email codec accounts google credential token_response none =
    binding_error "Google OAuth client not configured"
provider_email codec accounts google credential token_response (some client_id) =
    google_provider_email codec accounts client_id token_response
provider_email codec accounts slack credential token_response client_id = do
  user_id ← slack_user_id accounts credential token_response
  slack_provider_email codec accounts credential.access_token user_id

-- `{**a, **b}`
unfoldable pub merged : Dict String → Dict String → Dict String
merged a [] = a
merged a ((k, v) ∷ b) = merged (insert k v a) b

abbrev pub with_account :
    Codec → String → StoredCredential → String × Dict String → Result StoredCredential
unfolding emails_match merged
with_account codec binding_email credential (email, metadata) =
    if emails_match codec binding_email email
    then ok (record credential { metadata = merged credential.metadata metadata })
    else binding_error "provider account does not match connected Atlas user"

-- `assert_provider_email_binding`
unfoldable pub assert_provider_email_binding :
    Codec
    → Accounts
    → OAuthProvider
    → String
    → StoredCredential
    → Fields
    → Option String
    → Result StoredCredential
unfolding provider_email emails_match merged
assert_provider_email_binding codec accounts provider binding_email credential response client_id =
    provider_email codec accounts provider credential response client_id
    >>= with_account codec binding_email credential
