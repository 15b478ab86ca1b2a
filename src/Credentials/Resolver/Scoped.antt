-- ===== src/Credentials/Resolver/Scoped.antt =====
-- A token is handed out from the caller's own credential, with the scopes that were asked for.
use atlas_alpha.Prelude.{
  ℕ, ◌≡◌, ◌≢◌, refl, sym, ap, ◌∙◌, true, false, not, ◌&&◌, String, Option, none, some, List, [],
  ◌∷◌, eq_iff, arith, ◌⊎◌, inl, inr, All, Bool-cases, Option-cases, contains,
}
use text.Mathlib.TextPositions.{eq_refl}
use atlas_alpha.Prelude.Result.{Result, ok, Result-cases, ok-injective}
use atlas_alpha.Policy.{Principal}
use atlas_alpha.Credentials.{
  OAuthProvider, google, slack, provider_beq, StoredCredential, CredentialVault, org_beq,
}
use atlas_alpha.Credentials.Isolated.{IsIsolated, same_slot}
use atlas_alpha.Credentials.Resolver.{
  Refreshers, needs_refresh, present, has_scopes, missing, with_scopes, renew, kept, renewed, spent,
  refresh, token_of, token_for, token_from, get_access_token,
}

org_beq_self : (o : Option String) → org_beq o o ≡ true
org_beq_self none = refl
org_beq_self (some a) = eq_refl a

provider_beq_self : (r : OAuthProvider) → provider_beq r r ≡ true
provider_beq_self google = refl
provider_beq_self slack = refl

pub same_slot_self : (p : Principal) (r : OAuthProvider) → same_slot p r p r ≡ true
same_slot_self p r = rw (org_beq_self p.org_id, eq_refl p.user_id, provider_beq_self r) refl

-- Each of the scopes is one that the credential has.
unfoldable pub Covers : StoredCredential → List String → Type 0
Covers stored required = All (λ scope. contains stored.scopes scope ≡ true) required

missing-Covers :
    (required : List String) (stored : StoredCredential)
    → has_scopes (missing required stored) ≡ false
    → Covers stored required
unfolding Covers
missing-Covers [] stored h = tt
missing-Covers (scope ∷ required) stored h = elim (Bool-cases (contains stored.scopes scope)) [
  | inl e ↦ (e, missing-Covers required stored (rw e at h))
  | inr e ↦ let bad = rw e at h in cc
]

present-eq-some :
    (o : Option String) (token : String) → present o ≡ some token → (o ≡ some token) × (token ≢ "")
present-eq-some none token h = cc
present-eq-some (some t) token h = ground (arith, eq_iff t "", eq_iff token "")

module _ (V : CredentialVault) (resolver : Refreshers) (principal : Principal)
    (provider : OAuthProvider) where
  -- The credential was renewed, and what the provider gave stands in the caller's place, and in no
  -- other.
  pub record Renewed (stored : StoredCredential) (s s' : V.State) (token : String) : Type 0 where
    pub refresh_token : String
    pub updated : StoredCredential
    pub had : stored.refresh_token ≡ some refresh_token
    pub given : refresh_token ≢ ""
    pub answer : renew V resolver provider refresh_token stored ≡ ok updated
    pub handed : token ≡ updated.access_token
    pub kept : V.get principal provider s' ≡ ok (some (with_scopes stored updated))
    pub apart :
        (q : Principal) (r : OAuthProvider)
        → same_slot principal provider q r ≡ false
        → V.get q r s' ≡ V.get q r s

  module _ (lawful : IsIsolated V) (stored : StoredCredential) (s : V.State) where
    with_scopes-token :
        (updated : StoredCredential)
        → (with_scopes stored updated).access_token ≡ updated.access_token
    with_scopes-token updated =
        elim (Bool-cases (not (has_scopes updated.scopes) && has_scopes stored.scopes)) [
          | inl e ↦ rw e refl
          | inr e ↦ rw e refl
        ]

    kept-Renewed :
        (refresh_token token : String) (updated : StoredCredential) (s' : V.State)
        → stored.refresh_token ≡ some refresh_token
        → refresh_token ≢ ""
        → renew V resolver provider refresh_token stored ≡ ok updated
        → token_of V resolver (renewed V resolver principal provider stored s (ok updated))
          ≡ (ok token, s')
        → Renewed stored s s' token
    kept-Renewed refresh_token token updated s' had given answer h =
        let credential = with_scopes stored updated in
        let step = λ (r : Result V.State). token_of V resolver (kept V resolver credential s r) in
        elim (Result-cases (V.put principal provider credential s)) [
          | inr (e, q) ↦ let bad = sym (ap step q) ∙ h in cc
          | inl (after, q) ↦
              let done : step (ok after) ≡ (ok token, s') = sym (ap step q) ∙ h in
              let put = q ∙ ap (λ x. ok x) (ap (λ x. x.1) done) in
              let law = λ (q : Principal) (r : OAuthProvider).
                lawful.get-put principal q provider r credential s s' put in
              record {
                refresh_token = refresh_token;
                updated = updated;
                had = had;
                given = given;
                answer = answer;
                handed =
                    sym (ok-injective _ token (ap (λ x. x.0) done)) ∙ with_scopes-token updated;
                kept = law principal provider ∙ rw (same_slot_self principal provider) refl;
                apart = λ q r e. law q r ∙ rw e refl;
              }
        ]

    refresh-Renewed :
        (token : String) (s' : V.State)
        → token_of V resolver (refresh V resolver principal provider stored s) ≡ (ok token, s')
        → Renewed stored s s' token
    unfolding refresh
    refresh-Renewed token s' h =
        let step = λ (o : Option String).
          token_of V resolver (spent V resolver principal provider stored s o) in
        elim (Option-cases (present stored.refresh_token)) [
          | inl e ↦ let bad = sym (ap step e) ∙ h in cc
          | inr (rt, e) ↦
              let (had, given) = present-eq-some stored.refresh_token rt e in
              let next = λ (r : Result StoredCredential).
                token_of V resolver (renewed V resolver principal provider stored s r) in
              elim (Result-cases (renew V resolver provider rt stored)) [
                | inr (f, q) ↦ let bad = sym (ap next q) ∙ sym (ap step e) ∙ h in cc
                | inl (updated, q) ↦
                    kept-Renewed rt token updated s' had given q
                      (sym (ap next q) ∙ sym (ap step e) ∙ h)
              ]
        ]

    token_for-Renewed :
        (required : List String) (now : ℕ) (token : String) (s' : V.State)
        → token_for V resolver principal provider required now stored s ≡ (ok token, s')
        → Covers stored required
          × (((needs_refresh now stored ≡ false) × (token ≡ stored.access_token) × (s' ≡ s))
              ⊎ ((needs_refresh now stored ≡ true) × Renewed stored s s' token))
    unfolding token_for
    token_for-Renewed required now token s' h =
        elim (Bool-cases (has_scopes (missing required stored))) [
          | inl e ↦ let bad = rw e at h in cc
          | inr e ↦
              let covers = missing-Covers required stored e in
              elim (Bool-cases (needs_refresh now stored)) [
                | inl f ↦ (covers, inr (f, refresh-Renewed token s' (rw (e, f) at h)))
                | inr f ↦
                    let done = rw (e, f) at h in
                    (
                      covers,
                      inl (
                        f,
                        sym (ok-injective _ token (ap (λ x. x.0) done)),
                        sym (ap (λ x. x.1) done),
                      ),
                    )
              ]
        ]

-- An access token that is handed out comes from the credential that the vault keeps for the caller and
-- the provider, and that credential has all the scopes that were asked for. Unless it expires within the
-- next two minutes, the token is the stored one and the vault is unchanged; else it is the one that the
-- provider gave for the stored refresh token, which now stands in the caller's place, with the scopes it
-- had where the provider names none, and no other place of the vault has changed.
pub get_access_token-Renewed :
    (V : CredentialVault) (resolver : Refreshers) (principal : Principal) (provider : OAuthProvider)
    (required : List String) (now : ℕ) (s s' : V.State) (token : String)
    → IsIsolated V
    → get_access_token V resolver principal provider required now s ≡ (ok token, s')
    → (stored : StoredCredential) × (V.get principal provider s ≡ ok (some stored))
      × Covers stored required
      × (((needs_refresh now stored ≡ false) × (token ≡ stored.access_token) × (s' ≡ s))
          ⊎ ((needs_refresh now stored ≡ true)
              × Renewed V resolver principal provider stored s s' token))
unfolding get_access_token
get_access_token-Renewed V resolver principal provider required now s s' token lawful h =
    let step = λ (r : Result (Option StoredCredential)).
      token_from V resolver principal provider required now s r in
    elim (Result-cases (V.get principal provider s)) [
      | inr (e, q) ↦ let bad = sym (ap step q) ∙ h in cc
      | inl (found, q) ↦ elim (Option-cases found) [
        | inl f ↦ let bad = sym (ap step (q ∙ ap (λ o. ok o) f)) ∙ h in cc
        | inr (stored, f) ↦
            let has = q ∙ ap (λ o. ok o) f in
            let (covers, token_is) =
              token_for-Renewed V resolver principal provider lawful stored s required now token s'
                (sym (ap step has) ∙ h) in
            (stored, has, covers, token_is)
      ]
    ]
