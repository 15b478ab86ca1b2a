-- ===== src/OAuth/Callback/Bound.antt =====
-- What a callback stores, and for whom.
use atlas_alpha.Prelude.{
  ℕ, ◌≡◌, ◌≢◌, refl, sym, ap, ◌∙◌, subst, true, false, ◌&&◌, ◌||◌, and_iff, String, some, ◌==◌,
  arith, inl, inr, Bool-cases,
}
use atlas_alpha.Prelude.Result.{
  Error, Result, ok, err, ◌>>=◌, >>=-eq-ok, ok-injective, Result-cases,
}
use atlas_alpha.Value.{text, Fields, get}
use atlas_alpha.Policy.{Principal}
use atlas_alpha.Credentials.{OAuthProvider, provider_value, StoredCredential, CredentialVault}
use atlas_alpha.Credentials.Isolated.{IsIsolated, same_slot}
use atlas_alpha.Credentials.Resolver.Scoped.{same_slot_self}
use atlas_alpha.OAuth.State.{consume_oauth_state, value_is}
use atlas_alpha.OAuth.State.Genuine.{Genuine, value_is-text, consume_oauth_state-Genuine}
use atlas_alpha.OAuth.Binding.{require_binding_email}
use atlas_alpha.OAuth.Binding.Matched.{Matched, assert_provider_email_binding-Matched}
use atlas_alpha.OAuth.Callback.{
  Exchange, Client, Server, as_400, vault_error, client_of, client_id_of, same_provider,
  same_principal, binding_email_for, bound_credential, stored, store_for, complete_oauth_callback,
}

pub as_400-eq-ok : {A : Type 0} (r : Result A) (a : A) → as_400 r ≡ ok a → r ≡ ok a
as_400-eq-ok (ok b) a h = h
as_400-eq-ok (err e) a h =
    elim (Bool-cases (e.kind == "OAuthStateError" || e.kind == "OAuthBindingError")) [
      | inl q ↦ let bad = rw q at h in cc
      | inr q ↦ let bad = rw q at h in cc
    ]

vault_error-ne-ok : {A : Type 0} (e : Error) (a : A) → vault_error e ≢ ok a
vault_error-ne-ok e a h = ground arith

module _ (V : CredentialVault) (bound : Principal) (provider : OAuthProvider) (s s' : V.State) where
  -- The credential stands in the place of the user and the provider, and no other place has changed.
  pub record StoredFor (credential : StoredCredential) : Type 0 where
    pub kept : V.get bound provider s' ≡ ok (some credential)
    pub apart :
        (q : Principal) (r : OAuthProvider)
        → same_slot bound provider q r ≡ false
        → V.get q r s' ≡ V.get q r s

module _ (server : Server) (provider : OAuthProvider) (code state : String) (bound : Principal)
    (now : ℕ) where
  -- The state was signed by the server for this provider and this user, and the credential is the one
  -- that the provider gave for the code, of an account with the user's address.
  pub record Earned (credential : StoredCredential) : Type 0 where
    pub payload : Fields
    pub genuine : Genuine server.codec server.settings state now payload
    pub for_provider : get "provider" payload ≡ some (text (provider_value provider))
    pub for_user : get "user_id" payload ≡ some (text bound.user_id)
    pub in_org : value_is (get "org_id" payload) bound.org_id ≡ true
    pub client : Client
    pub configured : client_of server provider ≡ ok client
    pub exchange : Exchange
    pub exchanged : client.exchange_code code ≡ ok exchange
    pub binding_email : String
    pub asked : require_binding_email server.codec payload ≡ ok binding_email
    pub matched : Matched server.codec server.accounts binding_email exchange.credential credential

  same_provider-eq-ok :
      (payload payload' : Fields)
      → same_provider server provider payload ≡ ok payload'
      → (get "provider" payload ≡ some (text (provider_value provider))) × (payload ≡ payload')
  same_provider-eq-ok payload payload' h =
      elim (Bool-cases (value_is (get "provider" payload) (some (provider_value provider)))) [
        | inl e ↦ (value_is-text _ _ e, ok-injective payload payload' (rw e at h))
        | inr e ↦ let bad = rw e at h in cc
      ]

  same_principal-eq-ok :
      (payload payload' : Fields)
      → same_principal server bound payload ≡ ok payload'
      → (get "user_id" payload ≡ some (text bound.user_id))
        × (value_is (get "org_id" payload) bound.org_id ≡ true)
        × (payload ≡ payload')
  same_principal-eq-ok payload payload' h =
      elim (Bool-cases (
        value_is (get "user_id" payload) (some bound.user_id)
        && value_is (get "org_id" payload) bound.org_id)) [
          | inl e ↦
              let (user, org) = (and_iff _ _).0 e in
              (value_is-text _ _ user, org, ok-injective payload payload' (rw e at h))
          | inr e ↦ let bad = rw e at h in cc
        ]

  earn :
      (credential : StoredCredential)
      → (as_400 (binding_email_for server provider state bound now)
          >>= bound_credential server provider code)
        ≡ ok credential
      → Earned credential
  unfolding binding_email_for bound_credential
  earn credential h =
      let (email, e1, h1) =
        >>=-eq-ok (as_400 (binding_email_for server provider state bound now)) _ credential h in
      let checked = as_400-eq-ok (binding_email_for server provider state bound now) email e1 in
      let (payload, e2, h2) =
        >>=-eq-ok (consume_oauth_state server.codec server.settings state now) _ email checked in
      let (p, e3, h3) = >>=-eq-ok (same_provider server provider payload) _ email h2 in
      let (q, e4, h4) = >>=-eq-ok (same_principal server bound p) _ email h3 in
      let (client, e5, h5) = >>=-eq-ok (client_of server provider) _ credential h1 in
      let (exchange, e6, h6) = >>=-eq-ok (client.exchange_code code) _ credential h5 in
      let (for_provider, same_p) = same_provider-eq-ok payload p e3 in
      let (for_user, in_org, same_q) = same_principal-eq-ok p q e4 in
      record {
        payload = payload;
        genuine = consume_oauth_state-Genuine server.codec server.settings state now payload e2;
        for_provider = for_provider;
        for_user = subst (λ x. get "user_id" x ≡ some (text bound.user_id)) (sym same_p) for_user;
        in_org = subst (λ x. value_is (get "org_id" x) bound.org_id ≡ true) (sym same_p) in_org;
        client = client;
        configured = e5;
        exchange = exchange;
        exchanged = e6;
        binding_email = email;
        asked =
            subst (λ x. require_binding_email server.codec x ≡ ok email) (sym (same_p ∙ same_q)) h4;
        matched =
            assert_provider_email_binding-Matched server.codec server.accounts provider email
              exchange.credential credential exchange.token_response
              (client_id_of server.google_client) (as_400-eq-ok _ credential h6);
      }

  module _ (V : CredentialVault) (lawful : IsIsolated V) (s s' : V.State) where
    stored-StoredFor :
        (credential : StoredCredential) (url : String)
        → stored server V s (V.put bound provider credential s) ≡ (ok url, s')
        → StoredFor V bound provider s s' credential
    stored-StoredFor credential url h = elim (Result-cases (V.put bound provider credential s)) [
      | inr (e, q) ↦
          let bad : vault_error e ≡ ok url = ap (λ x. x.0) (sym (ap (stored server V s) q) ∙ h) in
          absurd (vault_error-ne-ok e url bad)
      | inl (after, q) ↦
          let put = q ∙ ap (λ x. ok x) (ap (λ x. x.1) (sym (ap (stored server V s) q) ∙ h)) in
          let law = λ (q : Principal) (r : OAuthProvider).
            lawful.get-put bound q provider r credential s s' put in
          record {
            kept = law bound provider ∙ rw (same_slot_self bound provider) refl;
            apart = λ q r e. law q r ∙ rw e refl;
          }
    ]

    -- A callback that succeeds has stored one credential, in the place of the principal that it was for
    -- and the provider, and that credential is earned: the state carries the server's signature, has not
    -- expired and names this provider, user and organization, the provider gave the credential for the
    -- code, and the account's e-mail address is the one that the state binds to.
    pub complete_oauth_callback-Earned :
        (url : String)
        → complete_oauth_callback server V provider code state bound now s ≡ (ok url, s')
        → (credential : StoredCredential) × Earned credential
          × StoredFor V bound provider s s' credential
    unfolding complete_oauth_callback
    complete_oauth_callback-Earned url h =
        let earned =
          as_400 (binding_email_for server provider state bound now)
          >>= bound_credential server provider code in
        elim (Result-cases earned) [
          | inr (e, q) ↦
              let bad : err e ≡ ok url =
                ap (λ x. x.0) (sym (ap (store_for server V bound provider s) q) ∙ h) in
              cc
          | inl (credential, q) ↦ (
            credential,
            earn credential q,
            stored-StoredFor credential url (sym (ap (store_for server V bound provider s) q) ∙ h),
          )
        ]
