-- ===== src/Credentials/Isolated.antt =====
-- The in-memory vault keeps one credential for each user of an organization and provider, apart from
-- all others.
use atlas_alpha.Prelude.{
  ◌≡◌, refl, sym, ap, ◌∙◌, subst, Bool, true, false, ◌&&◌, Option-cases, String, Option, none, some,
  List, [], ◌∷◌, ◌==◌, eq_iff, arith, ◌↔◌, inl, inr, In, Bool-cases, any, if◌then◌else◌, strip,
}
use atlas_alpha.Prelude.Result.{Error, ok, err, >>=-eq-ok, ok-injective, Result-cases}
use atlas_alpha.Policy.{Principal, is_anonymous}
use atlas_alpha.Credentials.{
  OAuthProvider, google, slack, provider_beq, StoredCredential, require_org_id, CredentialVault,
  org_beq, Key, Store, key_beq, find, assign, discard, key, connects, in_order, put_in, get_in,
  delete_in, list_connected_in, memory_vault,
}

-- What a request of a principal is about: the same user of the same organization, and the same provider.
abbrev pub same_slot : Principal → OAuthProvider → Principal → OAuthProvider → Bool
same_slot p r q r' = org_beq p.org_id q.org_id && (p.user_id == q.user_id && provider_beq r r')

-- A vault that keeps its slots apart.
pub record IsIsolated (V : CredentialVault) : Type 0 where
  pub get-put :
      (p q : Principal) (r r' : OAuthProvider) (c : StoredCredential) (s s' : V.State)
      → V.put p r c s ≡ ok s'
      → V.get q r' s' ≡ (if same_slot p r q r' then ok (some c) else V.get q r' s)
  pub get-delete :
      (p q : Principal) (r r' : OAuthProvider) (s s' : V.State)
      → V.delete p r s ≡ ok s'
      → V.get q r' s' ≡ (if same_slot p r q r' then ok none else V.get q r' s)
  pub list_connected_iff :
      (p : Principal) (r : OAuthProvider) (s : V.State) (rs : List OAuthProvider)
      → V.list_connected p s ≡ ok rs
      → In r rs ↔ ((c : StoredCredential) × (V.get p r s ≡ ok (some c)))

provider_beq_iff : (r r' : OAuthProvider) → (provider_beq r r' ≡ true) ↔ (r ≡ r')
provider_beq_iff google google = ground arith
provider_beq_iff google slack = ground arith
provider_beq_iff slack google = ground arith
provider_beq_iff slack slack = ground arith

key_beq_iff : (a b : Key) → (key_beq a b ≡ true) ↔ (a ≡ b)
key_beq_iff a b = ground (
  arith,
  eq_iff a.org_id b.org_id,
  eq_iff a.user_id b.user_id,
  provider_beq_iff a.provider b.provider,
)

find-assign :
    (k j : Key) (c : StoredCredential) (s : Store)
    → find j (assign k c s) ≡ (if key_beq k j then some c else find j s)
unfolding find assign
find-assign k j c [] = refl
find-assign k j c ((i, d) ∷ s) = elim (Bool-cases (key_beq i k)) [
  | inl e ↦ rw e (rw ((key_beq_iff i k).0 e) (ground arith))
  | inr e ↦
      rw e (
        rw (find-assign k j c s)
          (ground (arith, key_beq_iff k j, key_beq_iff i j, key_beq_iff i k)))
]

find-discard :
    (k j : Key) (s : Store) → find j (discard k s) ≡ (if key_beq k j then none else find j s)
unfolding find discard
find-discard k j [] = ground arith
find-discard k j ((i, d) ∷ s) = elim (Bool-cases (key_beq i k)) [
  | inl e ↦ rw e (rw ((key_beq_iff i k).0 e) (rw (find-discard k j s) (ground arith)))
  | inr e ↦
      rw e (
        rw (find-discard k j s) (ground (arith, key_beq_iff k j, key_beq_iff i j, key_beq_iff i k)))
]

-- The key of a principal that may have credentials.
abbrev slot : Principal → String → OAuthProvider → Key
slot p org_id r = record { org_id = org_id; user_id = p.user_id; provider = r }

require_org_id-eq-ok :
    (p : Principal) (org_id : String)
    → require_org_id p ≡ ok org_id
    → (p.org_id ≡ some org_id) × ((strip org_id == "") ≡ false)
unfolding require_org_id
require_org_id-eq-ok p org_id h = elim (Option-cases p.org_id) [
  | inl e ↦ let bad = rw e at h in cc
  | inr (o, e) ↦ ground (arith, e)
]

require_org_id-some :
    (p : Principal) (org_id : String)
    → p.org_id ≡ some org_id
    → (strip org_id == "") ≡ false
    → require_org_id p ≡ ok org_id
unfolding require_org_id is_anonymous
require_org_id-some p org_id e h = ground (arith, e, h)

same_slot-some :
    (p q : Principal) (a b : String) (r r' : OAuthProvider)
    → p.org_id ≡ some a
    → q.org_id ≡ some b
    → same_slot p r q r' ≡ key_beq (slot p a r) (slot q b r')
same_slot-some p q a b r r' e f =
    ap (λ o. org_beq o q.org_id && (p.user_id == q.user_id && provider_beq r r')) e
    ∙ ap (λ o. org_beq (some a) o && (p.user_id == q.user_id && provider_beq r r')) f

-- A principal that may not have credentials shares no slot with one that may.
same_slot-refused :
    (p q : Principal) (a : String) (r r' : OAuthProvider) (e : Error)
    → require_org_id p ≡ ok a
    → require_org_id q ≡ err e
    → same_slot p r q r' ≡ false
same_slot-refused p q a r r' e granted refused =
    let (org, named) = require_org_id-eq-ok p a granted in
    elim (Option-cases q.org_id) [
      | inl none_q ↦ rw (org, none_q) refl
      | inr (b, some_q) ↦ elim (Bool-cases (a == b)) [
        | inr differs ↦ rw (org, some_q, differs) refl
        | inl same ↦
            let allowed : require_org_id q ≡ ok a =
              require_org_id-some q a (some_q ∙ ap (λ x. some x) (sym ((eq_iff a b).0 same)))
                named in
            let bad : ok a ≡ err e = sym allowed ∙ refused in cc
      ]
    ]

key-eq-ok :
    (p : Principal) (r : OAuthProvider) (k : Key)
    → key p r ≡ ok k
    → (a : String) × (require_org_id p ≡ ok a) × (k ≡ slot p a r)
unfolding key
key-eq-ok p r k h =
    let (a, granted, same) = >>=-eq-ok (require_org_id p) _ k h in
    (a, granted, sym (ok-injective _ k same))

module _ (s : Store) where
  get_in-granted :
      (q : Principal) (r : OAuthProvider) (b : String)
      → require_org_id q ≡ ok b
      → get_in q r s ≡ ok (find (slot q b r) s)
  unfolding get_in
  get_in-granted q r b e = rw e refl

  get_in-refused :
      (q : Principal) (r : OAuthProvider) (e : Error)
      → require_org_id q ≡ err e
      → get_in q r s ≡ err e
  unfolding get_in
  get_in-refused q r e h = rw h refl

ok-if : {A : Type 0} (x y : A) (b : Bool) → ok (if b then x else y) ≡ (if b then ok x else ok y)
ok-if x y true = refl
ok-if x y false = refl

-- A write to one slot, seen through every principal's requests.
module _ (p : Principal) (r : OAuthProvider) (seen : Option StoredCredential) (a : String)
    (s s' : Store) (granted : require_org_id p ≡ ok a)
    (written : (j : Key) → find j s' ≡ (if key_beq (slot p a r) j then seen else find j s)) where
  get_in-written :
      (q : Principal) (r' : OAuthProvider)
      → get_in q r' s' ≡ (if same_slot p r q r' then ok seen else get_in q r' s)
  get_in-written q r' = elim (Result-cases (require_org_id q)) [
    | inl (b, e) ↦
        let org = (require_org_id-eq-ok p a granted).0 in
        let org' = (require_org_id-eq-ok q b e).0 in
        get_in-granted s' q r' b e
        ∙ ap (λ o. ok o) (written (slot q b r'))
        ∙ ok-if _ _ (key_beq (slot p a r) (slot q b r'))
        ∙ sym (
            ap (λ t. if t then ok seen else get_in q r' s) (same_slot-some p q a b r r' org org')
            ∙ ap (λ g. if key_beq (slot p a r) (slot q b r') then ok seen else g)
                (get_in-granted s q r' b e))
    | inr (e, h) ↦
        get_in-refused s' q r' e h
        ∙ sym (rw (same_slot-refused p q a r r' e granted h) (get_in-refused s q r' e h))
  ]

put_in-written :
    (p q : Principal) (r r' : OAuthProvider) (c : StoredCredential) (s s' : Store)
    → put_in p r c s ≡ ok s'
    → get_in q r' s' ≡ (if same_slot p r q r' then ok (some c) else get_in q r' s)
unfolding put_in
put_in-written p q r r' c s s' h =
    let (k, keyed, stored) = >>=-eq-ok (key p r) _ s' h in
    let (a, granted, same) = key-eq-ok p r k keyed in
    get_in-written p r (some c) a s s' granted
      (λ j.
        ap (find j) (sym (ok-injective _ s' stored))
        ∙ find-assign k j c s
        ∙ ap (λ i. if key_beq i j then some c else find j s) same)
      q r'

delete_in-written :
    (p q : Principal) (r r' : OAuthProvider) (s s' : Store)
    → delete_in p r s ≡ ok s'
    → get_in q r' s' ≡ (if same_slot p r q r' then ok none else get_in q r' s)
unfolding delete_in
delete_in-written p q r r' s s' h =
    let (k, keyed, dropped) = >>=-eq-ok (key p r) _ s' h in
    let (a, granted, same) = key-eq-ok p r k keyed in
    get_in-written p r none a s s' granted
      (λ j.
        ap (find j) (sym (ok-injective _ s' dropped))
        ∙ find-discard k j s
        ∙ ap (λ i. if key_beq i j then none else find j s) same)
      q r'

In-in_order :
    (b c : Bool) (r : OAuthProvider)
    → In r (in_order b c) ↔ ((elim r [ google ↦ b | slack ↦ c ]) ≡ true)
In-in_order true true google = (λ h. refl, λ h. inl refl)
In-in_order true true slack = (λ h. refl, λ h. inr (inl refl))
In-in_order true false google = (λ h. refl, λ h. inl refl)
In-in_order true false slack = ground arith
In-in_order false true google = ground arith
In-in_order false true slack = (λ h. refl, λ h. inl refl)
In-in_order false false google = ground arith
In-in_order false false slack = ground arith

In-connected :
    (a u : String) (r : OAuthProvider) (s : Store)
    → In r (in_order (connects a u google s) (connects a u slack s)) ↔ (connects a u r s ≡ true)
In-connected a u google s = In-in_order (connects a u google s) (connects a u slack s) google
In-connected a u slack s = In-in_order (connects a u google s) (connects a u slack s) slack

connects-found :
    (k : Key) (s : Store)
    → (any (λ e. key_beq e.0 k) s ≡ true) ↔ ((c : StoredCredential) × (find k s ≡ some c))
unfolding find
connects-found k [] = (λ h. cc, λ (c, e). cc)
connects-found k ((j, d) ∷ s) = elim (Bool-cases (key_beq j k)) [
  | inl e ↦ (λ h. (d, rw e refl), λ h. rw e refl)
  | inr e ↦ rw e (connects-found k s)
]

list_connected_in_iff :
    (p : Principal) (r : OAuthProvider) (s : Store) (rs : List OAuthProvider)
    → list_connected_in p s ≡ ok rs
    → In r rs ↔ ((c : StoredCredential) × (get_in p r s ≡ ok (some c)))
unfolding list_connected_in
list_connected_in_iff p r s rs h =
    let (a, granted, listed) = >>=-eq-ok (require_org_id p) _ rs h in
    let got = get_in-granted s p r a granted in
    let same = ok-injective _ rs listed in
    let found = connects-found (slot p a r) s in
    let ordered = In-connected a p.user_id r s in
    (
      λ i.
          let (c, e) = found.0 (ordered.0 (subst (In r) (sym same) i)) in
          (c, got ∙ ap (λ o. ok o) e),
      λ (c, e). subst (In r) same (ordered.1 (found.1 (c, ok-injective _ _ (sym got ∙ e)))),
    )

-- The in-memory vault refines a table with one place for each user of an organization and provider: a
-- write and a removal change what is read at its own place, whoever asks, and no other, and the
-- providers listed are those with a credential.
pub memory_vault-IsIsolated : IsIsolated memory_vault
memory_vault-IsIsolated = record {
  get-put = λ p q r r' c s s' h. put_in-written p q r r' c s s' h;
  get-delete = λ p q r r' s s' h. delete_in-written p q r r' s s' h;
  list_connected_iff = λ p r s rs h. list_connected_in_iff p r s rs h;
}
