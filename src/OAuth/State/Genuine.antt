-- ===== src/OAuth/State/Genuine.antt =====
-- A state that was issued is consumed until it expires, and a state that is consumed was signed with the
-- server's key.
use Prim.Native.Char.{Char}
use Prim.Native.String.{◌∷◌, []}
use mathlib.Core.Option.{some-injective}
use package.text.Mathlib.TextLemmas.{nil-append, cons-append}
use package.text.Mathlib.TextPositions.{eq_refl}
use atlas_alpha.Prelude.{
  ℕ, ◌+◌, ◌≤◌, ◌≡◌, refl, sym, ap, ◌∙◌, subst, Bool, true, false, not, ◌||◌, String, Option, none,
  some, append-char, ◌==◌, eq_iff, arith, append, inl, inr, Bool-cases, Option-cases,
}
use atlas_alpha.Prelude.Result.{ok, >>=-eq-ok, >>=-ok, ok-injective}
use atlas_alpha.Value.{Value, text, Fields, field, end, get, int}
use atlas_alpha.Policy.{Principal, is_anonymous}
use atlas_alpha.Credentials.{OAuthProvider, provider_value}
use atlas_alpha.OAuth.State.{
  Codec, StateSettings, oauth_state_key, add_front, rsplit_dot, is_ascii, compare_digest,
  state_payload, org_value, normalize_email, issue_oauth_state, int_of, expiry, two_parts, signed,
  decoded, unexpired, consume_oauth_state, value_is, principal_from_state, has_org,
  sign_pending_nonce, cookie_matches, verify_oauth_pending_cookie, nonce_of,
}

abbrev dot : Char
dot = "."

-- What follows the last dot has none.
rsplit_dot-append :
    (front back : String)
    → rsplit_dot back ≡ none
    → rsplit_dot (append front (append "." back)) ≡ some (front, back)
unfolding rsplit_dot
rsplit_dot-append [] back h =
    ap rsplit_dot (nil-append (append "." back) ∙ append-char "." dot back refl)
    ∙ ap (add_front dot back) h
rsplit_dot-append (c ∷ front) back h =
    ap rsplit_dot (cons-append c front (append "." back))
    ∙ ap (add_front c (append front (append "." back))) (rsplit_dot-append front back h)

abbrev Joined : String → String × String → Type 0
Joined s (front, back) = s ≡ append front (append "." back)

rsplit_dot-parts :
    (s : String) (parts : String × String) → rsplit_dot s ≡ some parts → Joined s parts
unfolding rsplit_dot
rsplit_dot-parts [] parts h = cc
rsplit_dot-parts (c ∷ s) parts h = elim (Option-cases (rsplit_dot s)) [
  | inl e ↦ elim (Bool-cases (c ∷ "" == ".")) [
    | inl d ↦
        let done : some ("", s) ≡ some parts = sym (ap (add_front c s) e ∙ rw d refl) ∙ h in
        subst (Joined (c ∷ s)) (some-injective _ _ done)
          (sym (nil-append (append "." s) ∙ append-char "." c s ((eq_iff (c ∷ "") ".").0 d)))
    | inr d ↦ let bad : none ≡ some parts = sym (ap (add_front c s) e ∙ rw d refl) ∙ h in cc
  ]
  | inr ((a, b), e) ↦
      let done : some (c ∷ a, b) ≡ some parts = sym (ap (add_front c s) e) ∙ h in
      subst (Joined (c ∷ s)) (some-injective _ _ done)
        (ap (λ t. c ∷ t) (rsplit_dot-parts s (a, b) e) ∙ sym (cons-append c a (append "." b)))
]

pub value_is-text : (v : Option Value) (s : String) → value_is v (some s) ≡ true → v ≡ some (text s)
unfolding value_is
value_is-text none s h = cc
value_is-text (some (Value.text t)) s h = ap (λ x. some (text x)) ((eq_iff t s).0 h)
value_is-text (some Value.null) s h = cc
value_is-text (some (Value.bool b)) s h = cc
value_is-text (some (Value.int n)) s h = cc
value_is-text (some (Value.number l z)) s h = cc
value_is-text (some (Value.obj d)) s h = cc
value_is-text (some (Value.arr xs)) s h = cc

pub principal_from_state-eq-ok :
    (payload : Fields) (caller bound : Principal)
    → principal_from_state payload caller ≡ ok bound
    → (caller ≡ bound) × (is_anonymous caller ≡ false)
unfolding principal_from_state
principal_from_state-eq-ok payload caller bound h = elim (Bool-cases (is_anonymous caller)) [
  | inl e ↦ let bad = rw e at h in cc
  | inr e ↦
      elim (Bool-cases (
        not (value_is (get "user_id" payload) (some caller.user_id))
        || not (value_is (get "org_id" payload) caller.org_id))) [
          | inl f ↦ let bad = rw (e, f) at h in cc
          | inr f ↦ elim (Bool-cases (not (has_org caller.org_id))) [
            | inl g ↦ let bad = rw (e, f, g) at h in cc
            | inr g ↦ (ok-injective caller bound (rw (e, f, g) at h), e)
          ]
        ]
]

-- The payload as it is read back: its keys are sorted.
abbrev pub sorted_payload : Codec → Principal → OAuthProvider → String → String → ℕ → Fields
sorted_payload codec principal provider binding_email nonce exp =
    field "binding_email" (text (normalize_email codec binding_email)) (
      field "exp" (int exp) (
        field "nonce" (text nonce) (
          field "org_id" (org_value principal.org_id) (
            field "provider" (text (provider_value provider))
              (field "user_id" (text principal.user_id) end)))))

-- What the documentation of the library calls says of them: JSON with sorted keys is read back with the
-- keys in this order, and a hexadecimal digest is an ASCII text without a dot.
pub record IsCodec (codec : Codec) : Type 0 where
  pub decode-encode :
      (principal : Principal) (provider : OAuthProvider) (email nonce : String) (exp : ℕ)
      → codec.decode (codec.encode (state_payload codec principal provider email nonce exp))
        ≡ some (sorted_payload codec principal provider email nonce exp)
  pub hmac_dot : (key s : String) → rsplit_dot (codec.hmac key s) ≡ none
  pub hmac_nonempty : (key s : String) → (codec.hmac key s == "") ≡ false
  pub hmac_ascii : (key s : String) → is_ascii (codec.hmac key s) ≡ true

module _ (codec : Codec) (settings : StateSettings) where
  -- The state is a body and its signature under the server's key, and the body is the payload.
  pub record Genuine (state : String) (now : ℕ) (payload : Fields) : Type 0 where
    pub body : String
    pub key : String
    pub exp : ℕ
    pub server_key : oauth_state_key settings ≡ ok key
    pub split : state ≡ append body (append "." (codec.hmac key body))
    pub read : codec.decode body ≡ some payload
    pub dated : int_of codec (expiry payload) ≡ ok exp
    pub fresh : now ≤ exp

  signed-eq-ok : (b b' : Bool) → signed b ≡ ok b' → b ≡ true
  signed-eq-ok true b' h = refl
  signed-eq-ok false b' h = cc

  decoded-eq-ok : (o : Option Fields) (payload : Fields) → decoded o ≡ ok payload → o ≡ some payload
  decoded-eq-ok none payload h = cc
  decoded-eq-ok (some p) payload h = ap (λ x. some x) (ok-injective p payload h)

  unexpired-eq-ok :
      (exp now : ℕ) (payload payload' : Fields)
      → unexpired exp now payload ≡ ok payload'
      → (now ≤ exp) × (payload ≡ payload')
  unexpired-eq-ok exp now payload payload' h = ground arith

  compare_digest-eq-ok :
      (a b : String) (equal : Bool) → compare_digest a b ≡ ok equal → equal ≡ true → a ≡ b
  unfolding compare_digest
  compare_digest-eq-ok a b equal h e = ground (arith, eq_iff a b)

  unexpired-fresh :
      (exp now : ℕ) (payload : Fields) → now ≤ exp → unexpired exp now payload ≡ ok payload
  unexpired-fresh exp now payload h = ground arith

  compare_digest_self : (a : String) → is_ascii a ≡ true → compare_digest a a ≡ ok true
  unfolding compare_digest
  compare_digest_self a h = rw (h, eq_refl a) refl

  two_parts-eq-ok :
      (o : Option (String × String)) (parts : String × String)
      → two_parts o ≡ ok parts
      → o ≡ some parts
  two_parts-eq-ok none parts h = cc
  two_parts-eq-ok (some p) parts h = ap (λ x. some x) (ok-injective p parts h)

  pub issue_oauth_state-split :
      (principal : Principal) (provider : OAuthProvider) (binding_email nonce state : String)
      (ttl now : ℕ)
      → IsCodec codec
      → issue_oauth_state codec settings principal provider binding_email ttl nonce now ≡ ok state
      → (body sig : String) × (rsplit_dot state ≡ some (body, sig))
        × (codec.decode body
            ≡ some (sorted_payload codec principal provider binding_email nonce (now + ttl)))
  unfolding issue_oauth_state
  issue_oauth_state-split principal provider binding_email nonce state ttl now good h =
      let (key, e, h1) = >>=-eq-ok (oauth_state_key settings) _ state h in
      let payload = state_payload codec principal provider binding_email nonce (now + ttl) in
      let body = codec.encode payload in
      let sig = codec.hmac key body in
      (
        body,
        sig,
        ap rsplit_dot (sym (ok-injective _ state h1))
            ∙ rsplit_dot-append body sig (good.hmac_dot key body),
        good.decode-encode principal provider binding_email nonce (now + ttl),
      )

  -- The cookie of a nonce is that of the payload with the nonce.
  pub verify_oauth_pending_cookie-sign_pending_nonce :
      (nonce cookie : String) (payload : Fields)
      → IsCodec codec
      → sign_pending_nonce codec settings nonce ≡ ok cookie
      → nonce_of (get "nonce" payload) ≡ some nonce
      → (verify_oauth_pending_cookie codec settings cookie payload ≡ ok true)
        × ((cookie == "") ≡ false)
  unfolding verify_oauth_pending_cookie sign_pending_nonce
  verify_oauth_pending_cookie-sign_pending_nonce nonce cookie payload good h n =
      let (key, e, h1) = >>=-eq-ok (oauth_state_key settings) _ cookie h in
      let same = ok-injective _ cookie h1 in
      let ascii = subst (λ c. is_ascii c ≡ true) same (good.hmac_ascii key nonce) in
      (
        ap (cookie_matches codec settings cookie) n
            ∙ >>=-ok (sign_pending_nonce codec settings nonce) _ cookie _ h
                (compare_digest_self cookie ascii),
        subst (λ c. (c == "") ≡ false) same (good.hmac_nonempty key nonce),
      )

  -- A state that is consumed is a body that was signed with the server's key and that reads as the
  -- payload, and its expiry has not passed.
  pub consume_oauth_state-Genuine :
      (state : String) (now : ℕ) (payload : Fields)
      → consume_oauth_state codec settings state now ≡ ok payload
      → Genuine state now payload
  unfolding consume_oauth_state
  consume_oauth_state-Genuine state now payload h =
      let (parts, e1, h1) = >>=-eq-ok (two_parts (rsplit_dot state)) _ payload h in
      let (key, e2, h2) = >>=-eq-ok (oauth_state_key settings) _ payload h1 in
      let (equal, e3, h3) =
        >>=-eq-ok (compare_digest (codec.hmac key parts.0) parts.1) _ payload h2 in
      let (valid, e4, h4) = >>=-eq-ok (signed equal) _ payload h3 in
      let (read, e5, h5) = >>=-eq-ok (decoded (codec.decode parts.0)) _ payload h4 in
      let (exp, e6, h6) = >>=-eq-ok (int_of codec (expiry read)) _ payload h5 in
      let (fresh, same) = unexpired-eq-ok exp now read payload h6 in
      let digest = compare_digest-eq-ok _ parts.1 equal e3 (signed-eq-ok equal valid e4) in
      record {
        body = parts.0;
        key = key;
        exp = exp;
        server_key = e2;
        split =
            rsplit_dot-parts state parts (two_parts-eq-ok _ parts e1)
            ∙ ap (λ sig. append parts.0 (append "." sig)) (sym digest);
        read = decoded-eq-ok _ read e5 ∙ ap (λ x. some x) same;
        dated = ap (λ p. int_of codec (expiry p)) (sym same) ∙ e6;
        fresh = fresh;
      }

  -- Where the library calls are as documented, a state that is issued is consumed, until it expires,
  -- as the user, the organization, the provider, the address and the nonce that it was issued for.
  pub consume_oauth_state-issue_oauth_state :
      (principal : Principal) (provider : OAuthProvider) (binding_email nonce state : String)
      (ttl now now' : ℕ)
      → IsCodec codec
      → issue_oauth_state codec settings principal provider binding_email ttl nonce now ≡ ok state
      → now' ≤ now + ttl
      → consume_oauth_state codec settings state now'
        ≡ ok (sorted_payload codec principal provider binding_email nonce (now + ttl))
  unfolding consume_oauth_state issue_oauth_state get
  consume_oauth_state-issue_oauth_state principal provider binding_email nonce state ttl now now'
        good h early =
      let (key, e, h1) = >>=-eq-ok (oauth_state_key settings) _ state h in
      let payload = state_payload codec principal provider binding_email nonce (now + ttl) in
      let body = codec.encode payload in
      let sig = codec.hmac key body in
      let read = sorted_payload codec principal provider binding_email nonce (now + ttl) in
      >>=-ok (two_parts (rsplit_dot state)) _ (body, sig) _
        (ap (λ s. two_parts (rsplit_dot s)) (sym (ok-injective _ state h1))
          ∙ ap two_parts (rsplit_dot-append body sig (good.hmac_dot key body)))
        (>>=-ok (oauth_state_key settings) _ key _ e (
          >>=-ok (compare_digest sig sig) _ true _
            (compare_digest_self sig (good.hmac_ascii key body))
            (>>=-ok (decoded (codec.decode body)) _ read _
              (ap decoded (good.decode-encode principal provider binding_email nonce (now + ttl)))
              (unexpired-fresh (now + ttl) now' read early))))
