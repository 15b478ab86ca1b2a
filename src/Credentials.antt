-- ===== src/Credentials.antt =====
-- src/atlas/governance/credentials.py: the contract of a credential vault and the in-memory vault. A time
-- is a number of microseconds since the epoch.
pub mod Isolated
pub mod Resolver
use atlas_alpha.Prelude.{
  ℕ, Bool, true, false, ◌&&◌, String, Option, none, some, List, [], ◌∷◌, ◌==◌, if◌then◌else◌, Dict,
  strip, any,
}
use atlas_alpha.Prelude.Result.{Result, ok, raise, ◌>>=◌}
use atlas_alpha.Policy.{Principal, is_anonymous}

pub data OAuthProvider : Type 0 where
  google slack : OAuthProvider

-- `provider.value`
abbrev pub provider_value : OAuthProvider → String
provider_value google = "google"
provider_value slack = "slack"

abbrev pub provider_beq : OAuthProvider → OAuthProvider → Bool
provider_beq google google = true
provider_beq slack slack = true
provider_beq google slack = false
provider_beq slack google = false

pub record StoredCredential : Type 0 where
  pub provider : OAuthProvider
  pub scopes : List String
  pub access_token : String
  pub refresh_token : Option String
  pub expires_at : Option ℕ
  pub token_type : String
  pub metadata : Dict String

-- `require_org_id`
unfoldable pub require_org_id : Principal → Result String
require_org_id principal = elim principal.org_id [
  | none ↦ raise "CredentialAccessError" "org_id is required for credential storage"
  | some org_id ↦
      if strip org_id == ""
      then raise "CredentialAccessError" "org_id is required for credential storage"
      else if is_anonymous principal
      then raise "CredentialAccessError" "anonymous principal cannot access credentials"
      else ok org_id
]

-- The contract `CredentialVault`, over an unknown state.
pub record CredentialVault : Type 1 where
  pub State : Type 0
  pub put : Principal → OAuthProvider → StoredCredential → State → Result State
  pub get : Principal → OAuthProvider → State → Result (Option StoredCredential)
  pub delete : Principal → OAuthProvider → State → Result State
  pub list_connected : Principal → State → Result (List OAuthProvider)

abbrev pub org_beq : Option String → Option String → Bool
org_beq none none = true
org_beq (some a) (some b) = a == b
org_beq (some _) none = false
org_beq none (some _) = false

-- A key of `InMemoryCredentialVault._store`.
pub record Key : Type 0 where
  pub org_id : String
  pub user_id : String
  pub provider : OAuthProvider

abbrev pub Store : Type 0
Store = List (Key × StoredCredential)

abbrev pub key_beq : Key → Key → Bool
key_beq a b = a.org_id == b.org_id && (a.user_id == b.user_id && provider_beq a.provider b.provider)

-- `dict.get`, `dict.__setitem__` and `dict.pop` at such a key
unfoldable pub find : Key → Store → Option StoredCredential
find k [] = none
find k ((j, c) ∷ store) = if key_beq j k then some c else find k store

unfoldable pub assign : Key → StoredCredential → Store → Store
assign k c [] = (k, c) ∷ []
assign k c ((j, d) ∷ store) = if key_beq j k then (j, c) ∷ store else (j, d) ∷ assign k c store

pub discard : Key → Store → Store
discard k [] = []
discard k ((j, d) ∷ store) =
    let rest = discard k store in if key_beq j k then rest else (j, d) ∷ rest

-- `InMemoryCredentialVault._key`
unfoldable pub key : Principal → OAuthProvider → Result Key
unfolding require_org_id
key principal provider = do
  org_id ← require_org_id principal
  ok (record { org_id = org_id; user_id = principal.user_id; provider = provider })

-- Whether some key of the store is that of a user of an organization, for a provider.
abbrev pub connects : String → String → OAuthProvider → Store → Bool
connects org_id user_id provider store =
    any (λ e. key_beq e.0 (record { org_id = org_id; user_id = user_id; provider = provider }))
      store

-- A set of providers, sorted by their values.
abbrev pub in_order : Bool → Bool → List OAuthProvider
in_order true true = google ∷ slack ∷ []
in_order true false = google ∷ []
in_order false true = slack ∷ []
in_order false false = []

-- `InMemoryCredentialVault`
unfoldable pub put_in : Principal → OAuthProvider → StoredCredential → Store → Result Store
unfolding key assign
put_in principal provider credential store = do
  k ← key principal provider
  ok (assign k credential store)

unfoldable pub get_in : Principal → OAuthProvider → Store → Result (Option StoredCredential)
unfolding key find
get_in principal provider store = do k ← key principal provider; ok (find k store)

pub delete_in : Principal → OAuthProvider → Store → Result Store
unfolding key discard
delete_in principal provider store = do k ← key principal provider; ok (discard k store)

pub list_connected_in : Principal → Store → Result (List OAuthProvider)
unfolding require_org_id
list_connected_in principal store = do
  org_id ← require_org_id principal
  ok (
      in_order (connects org_id principal.user_id google store)
        (connects org_id principal.user_id slack store))

abbrev pub memory_vault : CredentialVault
memory_vault = record {
  State = Store;
  put = put_in;
  get = get_in;
  delete = delete_in;
  list_connected = list_connected_in;
}
