-- ===== src/OAuth/Connect/Returns.antt =====
-- The browser that asked to connect is let back in.
use atlas_alpha.Prelude.{
  ℕ, ◌+◌, ◌≤◌, ◌≡◌, refl, sym, ap, ◌∙◌, subst, true, false, String, Option, none, some, [], ◌==◌,
  strip,
}
use atlas_alpha.Prelude.Result.{ok, >>=-eq-ok, >>=-ok, ok-injective}
use atlas_alpha.Value.{Fields, get}
use atlas_alpha.Policy.{Principal}
use atlas_alpha.Interface.Identity.{bearer_token}
use atlas_alpha.Credentials.{OAuthProvider, CredentialVault}
use atlas_alpha.OAuth.State.{
  Codec, rsplit_dot, issue_oauth_state, consume_oauth_state, sign_pending_nonce, nonce_of,
  principal_from_payload, verify_oauth_pending_cookie,
}
use atlas_alpha.OAuth.State.Genuine.{
  IsCodec, sorted_payload, issue_oauth_state-split, consume_oauth_state-issue_oauth_state,
  verify_oauth_pending_cookie-sign_pending_nonce,
}
use atlas_alpha.OAuth.Callback.{
  Server, Request, as_400, provider_named, client_of, vault_ready, resolve_callback_principal,
  resolve_with, cookie_holds, by_cookie, callback_caller,
}
use atlas_alpha.OAuth.Connect.{
  Redirect, TokenEmail, resolve_binding_email, state_body, payload_of, nonce_in, nonce_from_state,
  org_named, oauth_connect,
}

nonce_in-eq-ok : (o : Option String) (nonce : String) → nonce_in o ≡ ok nonce → o ≡ some nonce
nonce_in-eq-ok none nonce h = cc
nonce_in-eq-ok (some n) nonce h = ap (λ x. some x) (ok-injective n nonce h)

org_named-eq-ok : (o : Option String) (org : String) → org_named o ≡ ok org → o ≡ some org
org_named-eq-ok none org h = cc
org_named-eq-ok (some n) org h = ap (λ x. some x) (ok-injective n org h)

module _ (codec : Codec) (principal : Principal) (provider : OAuthProvider)
    (email nonce org : String) (exp : ℕ) where
  -- The nonce that is read back from a state is the payload's.
  nonce_from_state-eq-ok :
      (state body sig stated : String)
      → rsplit_dot state ≡ some (body, sig)
      → codec.decode body ≡ some (sorted_payload codec principal provider email nonce exp)
      → nonce_from_state codec state ≡ ok stated
      → nonce_of (get "nonce" (sorted_payload codec principal provider email nonce exp))
        ≡ some stated
  unfolding nonce_from_state
  nonce_from_state-eq-ok state body sig stated split read h =
      let (payload, e, h1) =
        >>=-eq-ok (payload_of (codec.decode (state_body state (rsplit_dot state)))) _ stated h in
      let found : payload_of (some (sorted_payload codec principal provider email nonce exp))
          ≡ ok payload =
        sym (ap (λ p. payload_of (codec.decode (state_body state p))) split ∙ ap payload_of read)
        ∙ e in
      subst (λ p. nonce_of (get "nonce" p) ≡ some stated) (sym (ok-injective _ payload found))
        (nonce_in-eq-ok _ stated h1)

  principal_from_payload-sorted_payload :
      principal.org_id ≡ some org
      → (strip principal.user_id == "") ≡ false
      → (strip org == "") ≡ false
      → principal_from_payload (sorted_payload codec principal provider email nonce exp)
        ≡ ok (record { user_id = principal.user_id; roles = []; org_id = some org })
  unfolding principal_from_payload get
  principal_from_payload-sorted_payload named user has_org = rw (named, user, has_org) refl

module _ (server : Server) (V : CredentialVault) where
  cookie_holds-some :
      (o : Option String) (cookie : String) (payload : Fields)
      → o ≡ some cookie
      → (cookie == "") ≡ false
      → verify_oauth_pending_cookie server.codec server.settings cookie payload ≡ ok true
      → cookie_holds server o payload ≡ ok true
  cookie_holds-some o cookie payload e n v =
      ap (λ x. cookie_holds server x payload) e ∙ rw (n, cookie_holds) v

  -- A user of an organization who is sent to a provider is let back in by the cookie alone, with no token:
  -- until ten minutes later the callback knows them, without roles, by the user id and the
  -- organization for which the connection was asked, where the library calls are as documented.
  pub callback_caller-oauth_connect :
      (email_from_token : Option (String → TokenEmail)) (token email_header : Option String)
      (name nonce org : String) (principal : Principal) (now now' : ℕ) (redirect : Redirect)
      (request : Request)
      → IsCodec server.codec
      → server.has_vault ≡ true
      → oauth_connect server email_from_token token email_header name principal nonce now
        ≡ ok redirect
      → principal.org_id ≡ some org
      → (strip principal.user_id == "") ≡ false
      → (strip org == "") ≡ false
      → bearer_token server.codec.lower request.authorization ≡ none
      → request.cookie ≡ some redirect.pending_cookie
      → now' ≤ now + 600
      → (provider : OAuthProvider) × (provider_named server.codec name ≡ ok provider)
        × (callback_caller server V request name redirect.state now'
            ≡ ok (provider, record { user_id = principal.user_id; roles = []; org_id = some org }))
  unfolding oauth_connect callback_caller resolve_callback_principal
  callback_caller-oauth_connect email_from_token token email_header name nonce org principal now
        now' redirect request good vault h named user has_org anonymous has_cookie early =
      let (provider, e1, h1) = >>=-eq-ok (provider_named server.codec name) _ redirect h in
      let (org', e2, h2) = >>=-eq-ok (org_named principal.org_id) _ redirect h1 in
      let (email, e3, h3) =
        >>=-eq-ok (as_400 (resolve_binding_email server.codec email_from_token token email_header))
          _ redirect h2 in
      let (state, e4, h4) =
        >>=-eq-ok
          (issue_oauth_state server.codec server.settings principal provider email 600 nonce now) _
          redirect h3 in
      let (client, e5, h5) = >>=-eq-ok (client_of server provider) _ redirect h4 in
      let (stated, e6, h6) = >>=-eq-ok (nonce_from_state server.codec state) _ redirect h5 in
      let (cookie, e7, h7) =
        >>=-eq-ok (sign_pending_nonce server.codec server.settings stated) _ redirect h6 in
      let done = ok-injective _ redirect h7 in
      let payload = sorted_payload server.codec principal provider email nonce (now + 600) in
      let (body, sig, split, read) =
        issue_oauth_state-split server.codec server.settings principal provider email nonce state
          600 now good e4 in
      let nonce_is =
        nonce_from_state-eq-ok server.codec principal provider email nonce org (now + 600) state
          body sig stated split read e6 in
      let (verified, nonempty) =
        verify_oauth_pending_cookie-sign_pending_nonce server.codec server.settings stated cookie
          payload good e7 nonce_is in
      let consumed =
        consume_oauth_state-issue_oauth_state server.codec server.settings principal provider email
          nonce state 600 now now' good e4 early in
      let bound : Principal = record {
        user_id = principal.user_id;
        roles = [];
        org_id = some org;
      } in
      let by_cookie =
        >>=-ok (cookie_holds server request.cookie payload) (by_cookie server request payload name)
          true _
          (cookie_holds-some request.cookie cookie payload
            (has_cookie ∙ ap (λ r. some r.pending_cookie) (sym done)) nonempty verified)
          (principal_from_payload-sorted_payload server.codec principal provider email nonce org
            (now + 600) named user has_org) in
      (
        provider,
        e1,
        >>=-ok (vault_ready server.has_vault) _ _ _ (ap vault_ready vault) (
            >>=-ok (provider_named server.codec name) _ provider _ e1 (
              >>=-ok (as_400 (consume_oauth_state server.codec server.settings redirect.state now'))
                _ payload _
                (ap as_400 (
                  ap (λ r. consume_oauth_state server.codec server.settings r.state now') (sym done)
                  ∙ consumed))
                (>>=-ok (resolve_callback_principal server request payload name) _ bound _
                  (ap (λ t. resolve_with server request payload name t server.authenticator)
                      anonymous
                    ∙ by_cookie)
                  refl))),
      )
