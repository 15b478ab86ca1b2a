-- ===== src/Credentials/Resolver.antt =====
-- `CredentialResolver` of src/atlas/governance/credentials.py, over any vault. The providers' refresh
-- calls are arguments. The message on missing scopes leaves out their list.
pub mod Scoped
use atlas_alpha.Prelude.{
  ℕ, ◌+◌, leb, Bool, true, false, not, ◌&&◌, String, Option, none, some, List, [], ◌∷◌, ◌==◌,
  append, if◌then◌else◌, keep, contains,
}
use atlas_alpha.Prelude.Result.{Error, Result, ok, err, raise}
use atlas_alpha.Policy.{Principal}
use atlas_alpha.Credentials.{
  OAuthProvider, google, slack, provider_value, StoredCredential, CredentialVault,
}

-- `_TOKEN_REFRESH_SKEW_SECONDS`, in microseconds
abbrev pub token_refresh_skew : ℕ
token_refresh_skew = 120000000

-- What `CredentialResolver` holds beside the vault: the refresh calls of the configured providers.
pub record Refreshers : Type 0 where
  pub refresh_google : Option (String → List String → Result StoredCredential)
  pub refresh_slack : Option (String → Result StoredCredential)

-- `_needs_refresh`
abbrev pub needs_refresh : ℕ → StoredCredential → Bool
needs_refresh now stored = elim stored.expires_at [
  | none ↦ false
  | some expires ↦ leb expires (now + token_refresh_skew)
]

-- `if not stored.refresh_token`
abbrev pub present : Option String → Option String
present none = none
present (some token) = if token == "" then none else some token

abbrev pub has_scopes : List String → Bool
has_scopes [] = false
has_scopes (_ ∷ _) = true

-- `required_scopes - frozenset(stored.scopes)`
abbrev pub missing : List String → StoredCredential → List String
missing required stored = keep (λ scope. not (contains stored.scopes scope)) required

-- The scopes before the refresh stay where the provider names none.
abbrev pub with_scopes : StoredCredential → StoredCredential → StoredCredential
with_scopes stored updated =
    if not (has_scopes updated.scopes) && has_scopes stored.scopes
    then record updated { scopes = stored.scopes }
    else updated

module _ (V : CredentialVault) (resolver : Refreshers) where
  -- The call of the provider in `_refresh`.
  unfoldable pub renew : OAuthProvider → String → StoredCredential → Result StoredCredential
  renew google token stored = elim resolver.refresh_google [
    | none ↦ raise "RuntimeError" "google refresh not configured"
    | some refresh ↦ refresh token stored.scopes
  ]
  renew slack token stored = elim resolver.refresh_slack [
    | none ↦ raise "RuntimeError" "slack refresh not configured"
    | some refresh ↦ refresh token
  ]

  -- The end of `_refresh`: the new credential is kept before it is used.
  abbrev pub kept : StoredCredential → V.State → Result V.State → Result StoredCredential × V.State
  kept updated s (err e) = (err e, s)
  kept updated s (ok s') = (ok updated, s')

  module _ (principal : Principal) (provider : OAuthProvider) (stored : StoredCredential)
      (s : V.State) where
    abbrev pub renewed : Result StoredCredential → Result StoredCredential × V.State
    renewed (err e) = (err e, s)
    renewed (ok updated) =
        let credential = with_scopes stored updated in
        kept credential s (V.put principal provider credential s)

    abbrev pub spent : Option String → Result StoredCredential × V.State
    spent none = (
      raise "RuntimeError"
          (append (provider_value provider) " token expired and no refresh token — reconnect"),
      s,
    )
    spent (some token) = renewed (renew provider token stored)

    -- `_refresh`
    unfoldable pub refresh : Result StoredCredential × V.State
    refresh = spent (present stored.refresh_token)

  abbrev pub token_of : Result StoredCredential × V.State → Result String × V.State
  token_of (ok stored, s) = (ok stored.access_token, s)
  token_of (err e, s) = (err e, s)

  -- `get_access_token`, once a credential is found
  unfoldable pub token_for :
      Principal
      → OAuthProvider
      → List String
      → ℕ
      → StoredCredential
      → V.State
      → Result String × V.State
  unfolding refresh
  token_for principal provider required now stored s =
      if has_scopes (missing required stored)
      then (raise "RuntimeError" (append (provider_value provider) " missing scopes"), s)
      else if needs_refresh now stored
      then token_of (refresh principal provider stored s)
      else (ok stored.access_token, s)

  abbrev pub token_from :
      Principal
      → OAuthProvider
      → List String
      → ℕ
      → V.State
      → Result (Option StoredCredential)
      → Result String × V.State
  token_from principal provider required now s (err e) = (err e, s)
  token_from principal provider required now s (ok none) = (
    raise "RuntimeError" (
        append (append (provider_value provider) " not connected — visit /oauth/")
          (append (provider_value provider) "/connect")),
    s,
  )
  token_from principal provider required now s (ok (some stored)) =
      token_for principal provider required now stored s

  unfoldable pub get_access_token :
      Principal → OAuthProvider → List String → ℕ → V.State → Result String × V.State
  get_access_token principal provider required now s =
      token_from principal provider required now s (V.get principal provider s)
