-- ===== src/OAuth/Binding/Matched.antt =====
-- A credential that is bound names the account's e-mail address, and that is the user's own.
use atlas_alpha.Prelude.{
  ◌≡◌, refl, sym, ◌∙◌, subst, true, false, String, Option, none, some, [], ◌∷◌, ◌==◌, eq_iff, arith,
  inl, inr, Bool-cases, Dict, lookup, insert, lookup-insert,
}
use atlas_alpha.Prelude.Result.{ok, >>=-eq-ok, ok-injective}
use atlas_alpha.Value.{Value, Fields, get}
use atlas_alpha.Credentials.{OAuthProvider, google, slack, StoredCredential}
use atlas_alpha.OAuth.State.{Codec, normalize_email}
use atlas_alpha.OAuth.Binding.{
  Accounts, given, or_dict, emails_match, verify_google_id_token, noted, needed,
  google_provider_email, accepted, slack_provider_email, slack_user_id, provider_email, merged,
  assert_provider_email_binding,
}

-- No key stands twice.
abbrev IsUnique : Dict String → Type 0
IsUnique [] = Unit
IsUnique ((k, v) ∷ d) = (lookup k d ≡ none) × IsUnique d

insert-IsUnique : (k v : String) (d : Dict String) → IsUnique d → IsUnique (insert k v d)
unfolding insert lookup
insert-IsUnique k v [] u = (refl, tt)
insert-IsUnique k v ((j, w) ∷ d) u = elim (Bool-cases (j == k)) [
  | inl e ↦ rw e u
  | inr e ↦ rw e (
    ground (arith, lookup-insert k j v d, eq_iff k j, eq_iff j k, u.0),
    insert-IsUnique k v d u.1,
  )
]

lookup-merged_left :
    (k : String) (a b : Dict String) → lookup k b ≡ none → lookup k (merged a b) ≡ lookup k a
unfolding merged lookup
lookup-merged_left k a [] h = refl
lookup-merged_left k a ((j, v) ∷ b) h =
    ground (arith, eq_iff j k, lookup-insert j k v a, lookup-merged_left k (insert j v a) b)

lookup-merged_right :
    (k v : String) (a b : Dict String)
    → IsUnique b
    → lookup k b ≡ some v
    → lookup k (merged a b) ≡ some v
unfolding merged lookup
lookup-merged_right k v a [] u h = cc
lookup-merged_right k v a ((j, w) ∷ b) u h = ground (
  arith,
  eq_iff j k,
  lookup-insert j k w a,
  lookup-merged_left k (insert j w a) b,
  lookup-merged_right k v (insert j w a) b u.1,
)

-- The metadata hold the address under its key.
record Holds (email : String) (metadata : Dict String) : Type 0 where
  unique : IsUnique metadata
  address : lookup "provider_email" metadata ≡ some email

Holds-single : (email : String) → Holds email (("provider_email", email) ∷ [])
unfolding lookup
Holds-single email = record { unique = (refl, tt); address = refl }

module _ (codec : Codec) (accounts : Accounts) where
  Holds-noted :
      (email key : String) (v : Option Value) (metadata : Dict String)
      → (key == "provider_email") ≡ false
      → Holds email metadata
      → Holds email (noted accounts key v metadata)
  Holds-noted email key none metadata h held = held
  Holds-noted email key (some v) metadata h held = record {
    unique = insert-IsUnique key (accounts.render v) metadata held.unique;
    address = lookup-insert key "provider_email" (accounts.render v) metadata ∙ rw h held.address;
  }

  emails_match-eq :
      (a b : String)
      → emails_match codec a b ≡ true
      → normalize_email codec a ≡ normalize_email codec b
  unfolding emails_match
  emails_match-eq a b h = (eq_iff (normalize_email codec a) (normalize_email codec b)).0 h

  google-Holds :
      (client_id : String) (response : Fields) (found : String × Dict String)
      → google_provider_email codec accounts client_id response ≡ ok found
      → Holds found.0 found.1
  unfolding google_provider_email
  google-Holds client_id response found h =
      let (id_token, e1, h1) = >>=-eq-ok (needed _ (given (get "id_token" response))) _ found h in
      let (claims, e2, h2) =
        >>=-eq-ok (verify_google_id_token accounts (accounts.render id_token) client_id) _ found
          h1 in
      let (raw, e3, h3) = >>=-eq-ok (needed _ (given (get "email" claims))) _ found h2 in
      let email = normalize_email codec (accounts.render raw) in
      subst (λ p. Holds p.0 p.1) (ok-injective _ found h3)
        (Holds-noted email "google_sub" (given (get "sub" claims)) _ refl (Holds-single email))

  slack-Holds :
      (access_token user_id : String) (found : String × Dict String)
      → slack_provider_email codec accounts access_token user_id ≡ ok found
      → Holds found.0 found.1
  unfolding slack_provider_email
  slack-Holds access_token user_id found h =
      let (answer, e1, h1) = >>=-eq-ok (accounts.users_info access_token user_id) _ found h in
      let (info, e2, h2) = >>=-eq-ok (accepted accounts answer) _ found h1 in
      let (user, e3, h3) = >>=-eq-ok (or_dict (get "user" info)) _ found h2 in
      let (profile, e4, h4) = >>=-eq-ok (or_dict (get "profile" user)) _ found h3 in
      let (raw, e5, h5) = >>=-eq-ok (needed _ (given (get "email" profile))) _ found h4 in
      let (team, e6, h6) = >>=-eq-ok (or_dict (get "team" info)) _ found h5 in
      let email = normalize_email codec (accounts.render raw) in
      subst (λ p. Holds p.0 p.1) (ok-injective _ found h6)
        (Holds-noted email "team_id" (given (get "id" team)) _ refl
          (Holds-noted email "user_id" (given (get "id" user)) _ refl (Holds-single email)))

  provider_email-Holds :
      (provider : OAuthProvider) (credential : StoredCredential) (response : Fields)
      (client_id : Option String) (found : String × Dict String)
      → provider_email codec accounts provider credential response client_id ≡ ok found
      → Holds found.0 found.1
  unfolding provider_email
  provider_email-Holds google credential response none found h = cc
  provider_email-Holds google credential response (some client_id) found h =
      google-Holds client_id response found h
  provider_email-Holds slack credential response client_id found h =
      let (user_id, e, h1) = >>=-eq-ok (slack_user_id accounts credential response) _ found h in
      slack-Holds credential.access_token user_id found h1

  -- The credential is the one that the provider gave, the account has the user's e-mail address, and the
  -- credential's metadata hold it.
  pub record Matched (binding_email : String) (credential bound : StoredCredential) : Type 0 where
    pub email : String
    pub metadata : Dict String
    pub same_address : normalize_email codec binding_email ≡ normalize_email codec email
    pub kept : bound ≡ record credential { metadata = metadata }
    pub named : lookup "provider_email" metadata ≡ some email

  -- A credential is bound only if the provider's account has the e-mail address for which the connection
  -- was asked; its metadata then hold the account's address, and all else of it is unchanged.
  pub assert_provider_email_binding-Matched :
      (provider : OAuthProvider) (binding_email : String) (credential bound : StoredCredential)
      (response : Fields) (client_id : Option String)
      → assert_provider_email_binding codec accounts provider binding_email credential response
          client_id
        ≡ ok bound
      → Matched binding_email credential bound
  unfolding assert_provider_email_binding
  assert_provider_email_binding-Matched provider binding_email credential bound response client_id
        h =
      let (found, e, h1) =
        >>=-eq-ok (provider_email codec accounts provider credential response client_id) _ bound
          h in
      let held = provider_email-Holds provider credential response client_id found e in
      elim (Bool-cases (emails_match codec binding_email found.0)) [
        | inl m ↦ record {
          email = found.0;
          metadata = merged credential.metadata found.1;
          same_address = emails_match-eq binding_email found.0 m;
          kept = sym (ok-injective _ bound (rw m at h1));
          named = lookup-merged_right "provider_email" found.0 _ found.1 held.unique held.address;
        }
        | inr m ↦ let bad = rw m at h1 in cc
      ]
