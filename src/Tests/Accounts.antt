-- ===== src/Tests/Accounts.antt =====
-- A user connects a Google account: the state, the cookie, the callback, and the use of the token.
use atlas_alpha.Prelude.{
  ℕ, ◌⊎◌, ◌≡◌, refl, arith, true, false, String, append, none, some, [], ◌∷◌, strip, contains,
  lookup, insert,
}
use atlas_alpha.Prelude.Result.{ok, raise}
use atlas_alpha.Value.{text, Fields, field, end, get, truthy}
use atlas_alpha.Policy.{Principal, is_anonymous}
use atlas_alpha.Interface.Identity.{bearer_token}
use atlas_alpha.Credentials.{
  OAuthProvider, google, StoredCredential, memory_vault, Store, put_in, get_in, key, find, assign,
  require_org_id,
}
use atlas_alpha.Credentials.Isolated.{memory_vault-IsIsolated}
use atlas_alpha.Credentials.Resolver.{
  Refreshers, needs_refresh, get_access_token, token_for, refresh, renew,
}
use atlas_alpha.Credentials.Resolver.Scoped.{Covers, Renewed, get_access_token-Renewed}
use atlas_alpha.OAuth.State.{
  StateSettings, oauth_state_key, state_payload, rsplit_dot, is_ascii, issue_oauth_state,
  consume_oauth_state, value_is, compare_digest, verify_oauth_pending_cookie, sign_pending_nonce,
  principal_from_payload,
}
use atlas_alpha.OAuth.State.Genuine.{Genuine, sorted_payload, consume_oauth_state-issue_oauth_state}
use atlas_alpha.OAuth.Binding.{
  Accounts, require_binding_email, emails_match, verify_google_id_token, google_provider_email,
  provider_email, merged, assert_provider_email_binding,
}
use atlas_alpha.OAuth.Callback.{
  Client, Server, Request, provider_named, callback_caller, oauth_callback_get,
  resolve_callback_principal, binding_email_for, bound_credential, complete_oauth_callback,
}
use atlas_alpha.OAuth.Callback.Bound.{Earned, StoredFor}
use atlas_alpha.OAuth.Callback.Caller.{Proven, oauth_callback_get-Earned}
use atlas_alpha.OAuth.Connect.{Redirect, oauth_connect, nonce_from_state, resolve_binding_email}
use atlas_alpha.OAuth.Connect.Returns.{callback_caller-oauth_connect}
use atlas_alpha.Tests.Fixtures.{alice}
use atlas_alpha.Tests.Codec.{codec, codec-IsCodec, written}

abbrev settings : StateSettings
settings = record { oauth_state_secret = some "secret"; oauth_allow_insecure_state = false }

abbrev body : ℕ → String
body exp = written (state_payload codec alice google "a@acme.io" "n1" exp)

abbrev state : ℕ → String
state exp = append (body exp) ".11ee"

issued : issue_oauth_state codec settings alice google "a@acme.io" 7 "n1" 5 ≡ ok (state 12)
unfolding issue_oauth_state oauth_state_key strip get
issued = refl

consume_oauth_state-issue_oauth_state_example :
    consume_oauth_state codec settings (state 12) 11
    ≡ ok (sorted_payload codec alice google "a@acme.io" "n1" 12)
consume_oauth_state-issue_oauth_state_example =
    consume_oauth_state-issue_oauth_state codec settings alice google "a@acme.io" "n1" (state 12) 7
      5 11 codec-IsCodec issued (omega arith)

abbrev credential : StoredCredential
credential = record {
  provider = google;
  scopes = "mail" ∷ [];
  access_token = "t1";
  refresh_token = some "r1";
  expires_at = some 5;
  token_type = "Bearer";
  metadata = [];
}

abbrev accounts : Accounts
accounts = record {
  verify_id_token = λ token client.
      some (field "iss" (text "accounts.google.com") (field "email" (text "a@acme.io") end));
  users_info = λ token user. raise "OAuthBindingError" "no such user";
  render = λ v. elim v [ text s ↦ s | _ ↦ "" ];
}

abbrev google_client : Client
google_client = record {
  client_id = "atlas";
  authorization_url = λ state. "https://accounts.google.com";
  exchange_code = λ code.
      ok (record { credential = credential; token_response = field "id_token" (text "jwt") end });
}

abbrev server : Server
server = record {
  codec = codec;
  settings = settings;
  accounts = accounts;
  google_client = some google_client;
  slack_client = none;
  oauth_success_url = none;
  authenticator = none;
  has_vault = true;
}

abbrev redirect : Redirect
redirect = record {
  url = "https://accounts.google.com";
  state = state 605;
  pending_cookie = "11ee";
}

abbrev request : Request
request = record {
  authorization = none;
  cookie = some "11ee";
  user_header = none;
  roles_header = none;
  org_header = none;
}

abbrev bound : Principal
bound = record { user_id = "alice"; roles = []; org_id = some "acme" }

sent : oauth_connect server none none (some "a@acme.io") "google" alice "n1" 5 ≡ ok redirect
unfolding oauth_connect issue_oauth_state oauth_state_key strip get provider_named rsplit_dot
    nonce_from_state resolve_binding_email sign_pending_nonce
sent = refl

anonymous : bearer_token codec.lower none ≡ none
unfolding bearer_token strip
anonymous = refl

callback_caller-oauth_connect_example :
    (provider : OAuthProvider) × (provider_named codec "google" ≡ ok provider)
    × (callback_caller server memory_vault request "google" (state 605) 11 ≡ ok (provider, bound))
unfolding strip
callback_caller-oauth_connect_example =
    callback_caller-oauth_connect server memory_vault none none (some "a@acme.io") "google" "n1"
      "acme" alice 5 11 redirect request codec-IsCodec refl sent refl refl refl anonymous refl
      (omega arith)

abbrev kept_credential : StoredCredential
kept_credential = record credential { metadata = ("provider_email", "a@acme.io") ∷ [] }

abbrev store : Store
store = (record { org_id = "acme"; user_id = "alice"; provider = google }, kept_credential) ∷ []

called :
    oauth_callback_get server memory_vault request "google" "code" (state 12) 11 11 []
    ≡ (ok "/oauth/connections", store)
unfolding oauth_callback_get callback_caller provider_named consume_oauth_state oauth_state_key
    rsplit_dot is_ascii compare_digest resolve_callback_principal bearer_token
    principal_from_payload verify_oauth_pending_cookie sign_pending_nonce complete_oauth_callback
    binding_email_for value_is bound_credential require_binding_email assert_provider_email_binding
    provider_email google_provider_email verify_google_id_token emails_match merged put_in get_in
    key find assign require_org_id strip get insert lookup contains truthy is_anonymous
called = refl

oauth_callback_get-Earned_example :
    (provider : OAuthProvider) × (caller : Principal) × (kept : StoredCredential)
    × (payload : Fields) × (provider_named codec "google" ≡ ok provider)
    × Genuine codec settings (state 12) 11 payload
    × Proven server request payload caller
    × Earned server provider "code" (state 12) caller 11 kept
    × StoredFor memory_vault caller provider [] store kept
oauth_callback_get-Earned_example =
    oauth_callback_get-Earned server memory_vault request "google" "code" (state 12)
      "/oauth/connections" 11 11 [] store memory_vault-IsIsolated called

abbrev fresh : StoredCredential
fresh = record credential { access_token = "t2"; scopes = []; expires_at = some 900000000 }

abbrev resolver : Refreshers
resolver = record { refresh_google = some (λ token scopes. ok fresh); refresh_slack = none }

abbrev renewed_store : Store
renewed_store =
    (
      record { org_id = "acme"; user_id = "alice"; provider = google },
      record fresh { scopes = "mail" ∷ [] },
    )
    ∷ []

obtained :
    get_access_token memory_vault resolver alice google ("mail" ∷ []) 0 store
    ≡ (ok "t2", renewed_store)
unfolding get_access_token token_for refresh renew put_in get_in key find assign require_org_id
    strip contains is_anonymous
obtained = refl

get_access_token-Renewed_example :
    (stored : StoredCredential) × (memory_vault.get alice google store ≡ ok (some stored))
    × Covers stored ("mail" ∷ [])
    × (((needs_refresh 0 stored ≡ false) × ("t2" ≡ stored.access_token) × (renewed_store ≡ store))
        ⊎ ((needs_refresh 0 stored ≡ true)
            × Renewed memory_vault resolver alice google stored store renewed_store "t2"))
get_access_token-Renewed_example =
    get_access_token-Renewed memory_vault resolver alice google ("mail" ∷ []) 0 store renewed_store
      "t2" memory_vault-IsIsolated obtained
