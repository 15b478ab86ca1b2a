-- ===== src/OAuth/Callback/Caller.antt =====
-- Who a callback is for, and what it stores for them.
use atlas_alpha.Prelude.{
  ℕ, ◌≡◌, refl, sym, ap, ◌∙◌, subst, true, false, String, Option, none, some, ◌==◌, inl, inr,
  Bool-cases, Option-cases,
}
use atlas_alpha.Prelude.Result.{ok, err, >>=-eq-ok, ok-injective, Result-cases}
use atlas_alpha.Value.{Fields}
use atlas_alpha.Policy.{Principal, is_anonymous}
use atlas_alpha.Interface.Identity.{
  Verified, accepted, unavailable, refused, answer, bearer_token, principal_from_headers,
}
use atlas_alpha.Credentials.{OAuthProvider, StoredCredential, CredentialVault}
use atlas_alpha.Credentials.Isolated.{IsIsolated}
use atlas_alpha.OAuth.State.{consume_oauth_state, verify_oauth_pending_cookie}
use atlas_alpha.OAuth.State.Genuine.{
  Genuine, principal_from_state-eq-ok, consume_oauth_state-Genuine,
}
use atlas_alpha.OAuth.Callback.{
  Server, Request, as_400, cookie_holds, by_cookie, from_cookie, from_headers, resolve_with,
  resolve_callback_principal, vault_ready, provider_named, callback_caller, completed,
  oauth_callback_get,
}
use atlas_alpha.OAuth.Callback.Bound.{
  Earned, StoredFor, as_400-eq-ok, complete_oauth_callback-Earned,
}

-- How the caller of a callback is known.
pub data Proven (server : Server) (request : Request) (payload : Fields) (bound : Principal)
    : Type 0 where
  by_token :
      (token : String) (verify : String → Verified)
      → bearer_token server.codec.lower request.authorization ≡ some token
      → server.authenticator ≡ some verify
      → verify token ≡ accepted bound
      → Proven server request payload bound
  by_pending_cookie :
      (cookie : String)
      → request.cookie ≡ some cookie
      → verify_oauth_pending_cookie server.codec server.settings cookie payload ≡ ok true
      → Proven server request payload bound
  by_header :
      server.authenticator ≡ none
      → principal_from_headers request.user_header request.roles_header request.org_header ≡ bound
      → is_anonymous bound ≡ false
      → Proven server request payload bound

module _ (server : Server) (request : Request) (payload : Fields) (name : String)
    (bound : Principal) where
  answer-eq-ok : (v : Verified) → answer v ≡ ok bound → v ≡ accepted bound
  answer-eq-ok (accepted p) h = ap accepted (ok-injective p bound h)
  answer-eq-ok unavailable h = cc
  answer-eq-ok refused h = cc

  cookie_holds-eq-ok :
      (o : Option String)
      → cookie_holds server o payload ≡ ok true
      → (cookie : String) × (o ≡ some cookie)
        × (verify_oauth_pending_cookie server.codec server.settings cookie payload ≡ ok true)
  cookie_holds-eq-ok none h = cc
  cookie_holds-eq-ok (some cookie) h = elim (Bool-cases (cookie == "")) [
    | inl e ↦ let bad = rw e at h in cc
    | inr e ↦ (cookie, refl, rw e at h)
  ]

  from_headers-Proven :
      from_headers server request payload name ≡ ok bound → Proven server request payload bound
  from_headers-Proven h = elim (Option-cases server.authenticator) [
    | inr (verify, e) ↦ let bad = rw e at h in cc
    | inl e ↦
        let caller =
          principal_from_headers request.user_header request.roles_header request.org_header in
        elim (Bool-cases (is_anonymous caller)) [
          | inl a ↦ let bad = rw (e, a) at h in cc
          | inr a ↦
              let (same, known) =
                principal_from_state-eq-ok payload caller bound (rw (e, a) at h) in
              Proven.by_header e same (subst (λ p. is_anonymous p ≡ false) same known)
        ]
  ]

  from_cookie-Proven :
      from_cookie server request payload name ≡ ok bound → Proven server request payload bound
  from_cookie-Proven h =
      let (holds, e, h1) = >>=-eq-ok (cookie_holds server request.cookie payload) _ bound h in
      elim (Bool-cases holds) [
        | inr f ↦ from_headers-Proven (sym (ap (by_cookie server request payload name) f) ∙ h1)
        | inl f ↦
            let (cookie, has, verified) =
              cookie_holds-eq-ok request.cookie (e ∙ ap (λ b. ok b) f) in
            Proven.by_pending_cookie cookie has verified
      ]

  resolve_with-Proven :
      (token : Option String) (authenticator : Option (String → Verified))
      → bearer_token server.codec.lower request.authorization ≡ token
      → server.authenticator ≡ authenticator
      → resolve_with server request payload name token authenticator ≡ ok bound
      → Proven server request payload bound
  resolve_with-Proven (some token) (some verify) t a h =
      let (caller, e, h1) = >>=-eq-ok (answer (verify token)) _ bound h in
      let (same, _) = principal_from_state-eq-ok payload caller bound h1 in
      Proven.by_token token verify t a (answer-eq-ok (verify token) (e ∙ ap (λ x. ok x) same))
  resolve_with-Proven (some token) none t a h = from_cookie-Proven h
  resolve_with-Proven none authenticator t a h = from_cookie-Proven h

callback_caller-Proven :
    (server : Server) (V : CredentialVault) (request : Request) (name state : String) (now : ℕ)
    (provider : OAuthProvider) (bound : Principal)
    → callback_caller server V request name state now ≡ ok (provider, bound)
    → (payload : Fields) × (provider_named server.codec name ≡ ok provider)
      × Genuine server.codec server.settings state now payload
      × Proven server request payload bound
unfolding callback_caller resolve_callback_principal
callback_caller-Proven server V request name state now provider bound h =
    let (ready, e0, h0) = >>=-eq-ok (vault_ready server.has_vault) _ (provider, bound) h in
    let (p, e1, h1) = >>=-eq-ok (provider_named server.codec name) _ (provider, bound) h0 in
    let (payload, e2, h2) =
      >>=-eq-ok (as_400 (consume_oauth_state server.codec server.settings state now)) _
        (provider, bound) h1 in
    let (caller, e3, h3) =
      >>=-eq-ok (resolve_callback_principal server request payload name) _ (provider, bound) h2 in
    let same = ok-injective (p, caller) (provider, bound) h3 in
    (
      payload,
      e1 ∙ ap (λ x. ok x.0) same,
      consume_oauth_state-Genuine server.codec server.settings state now payload
          (as_400-eq-ok _ payload e2),
      resolve_with-Proven server request payload name bound _ _ refl refl
          (e3 ∙ ap (λ x. ok x.1) same),
    )

-- A callback that succeeds is for a principal who is known: by a token that the authenticator accepts,
-- by the cookie of the browser that asked to connect, or, where no authenticator is configured, by the
-- headers. It has stored one credential, in the place of this principal and the provider that the
-- request names, which is earned for them by a state that the server signed.
pub oauth_callback_get-Earned :
    (server : Server) (V : CredentialVault) (request : Request) (name code state url : String)
    (now now' : ℕ) (s s' : V.State)
    → IsIsolated V
    → oauth_callback_get server V request name code state now now' s ≡ (ok url, s')
    → (provider : OAuthProvider) × (bound : Principal) × (credential : StoredCredential)
      × (payload : Fields) × (provider_named server.codec name ≡ ok provider)
      × Genuine server.codec server.settings state now payload
      × Proven server request payload bound
      × Earned server provider code state bound now' credential
      × StoredFor V bound provider s s' credential
unfolding oauth_callback_get callback_caller resolve_callback_principal
oauth_callback_get-Earned server V request name code state url now now' s s' lawful h =
    elim (Result-cases (callback_caller server V request name state now)) [
      | inr (e, q) ↦
          let bad : err e ≡ ok url =
            ap (λ x. x.0) (sym (ap (completed server V code state now' s) q) ∙ h) in
          cc
      | inl ((provider, bound), q) ↦
          let (payload, named, genuine, proven) =
            callback_caller-Proven server V request name state now provider bound q in
          let (credential, earned, kept) =
            complete_oauth_callback-Earned server provider code state bound now' V lawful s s' url
              (sym (ap (completed server V code state now' s) q) ∙ h) in
          (provider, bound, credential, payload, named, genuine, proven, earned, kept)
    ]
