-- ===== src/Interface/Identity.antt =====
-- src/atlas/interface/security.py: the caller of a request, and the owner of a thread. Request headers
-- and the token verification of src/atlas/interface/auth.py are arguments; an HTTPException is an
-- error whose kind is the status.

use atlas_alpha.Prelude.{
  ◌≡◌, ◌≢◌, refl, sym, ap, ◌∙◌, Bool, true, false, not, ◌||◌, String, Option, none, some, List, [],
  ◌∷◌, ◌==◌, eq_iff, arith, ◌↔◌, ◌⊎◌, inl, inr, All, Bool-cases, strip, if◌then◌else◌,
}
use Prim.Native.Char.{Char}
use mathlib.Core.Option.{some-injective}
use atlas_alpha.Prelude.Result.{Result, ok, raise}
use atlas_alpha.Policy.{Principal, anonymous, is_anonymous}

-- `s.split(",")`
split_commas : String → List String
split_commas String.[] = "" ∷ []
split_commas (String.◌∷◌ c s) = add c (split_commas s)
  where
    add : Char → List String → List String
    add c [] = []
    add c (part ∷ parts) =
        if String.◌∷◌ c "" == "," then "" ∷ (part ∷ parts) else String.◌∷◌ c part ∷ parts

-- `tuple(role.strip() for role in roles_raw.split(",") if role.strip())`
abbrev roles_of : List String → List String
roles_of [] = []
roles_of (part ∷ parts) =
    let rest = roles_of parts in if strip part == "" then rest else strip part ∷ rest

-- A header that is missing reads as the empty text.
abbrev header_text : Option String → String
header_text none = ""
header_text (some s) = strip s

abbrev or_empty : Option String → String
or_empty none = ""
or_empty (some s) = s

abbrev org_of : Option String → Option String
org_of header = let org = header_text header in if org == "" then none else some org

-- `_principal_from_headers`, given the user, roles and organization headers
unfoldable pub principal_from_headers : Option String → Option String → Option String → Principal
unfolding split_commas
principal_from_headers user_header roles_header org_header =
    let user_id = header_text user_header in
    if user_id == "" || user_id == "anonymous" then anonymous else record {
      user_id = user_id;
      roles = roles_of (split_commas (or_empty roles_header));
      org_id = org_of org_header;
    }

-- `s.partition(" ")`, without the separator
partition_space : String → String × String
partition_space String.[] = ("", "")
partition_space (String.◌∷◌ c s) =
    let (front, back) = partition_space s in
    if String.◌∷◌ c "" == " " then ("", s) else (String.◌∷◌ c front, back)

-- `_bearer_token`, given the Authorization header; `lower` is `str.lower`
unfoldable pub bearer_token : (String → String) → Option String → Option String
unfolding partition_space
bearer_token lower authorization =
    let (scheme, token) = partition_space (or_empty authorization) in
    if not (lower scheme == "bearer") || strip token == "" then none else some (strip token)

-- What the authenticator says of a token.
pub data Verified : Type 0 where
  accepted : Principal → Verified
  unavailable : Verified
  refused : Verified

abbrev pub answer : Verified → Result Principal
answer (accepted p) = ok p
answer unavailable = raise "503" "Authentication service temporarily unavailable."
answer refused = raise "401" "Invalid or expired token."

-- `get_request_principal`, given the authenticator if there is one, the bearer token if there is one,
-- and the headers
unfoldable pub get_request_principal :
    Option (String → Verified)
    → Option String
    → Option String
    → Option String
    → Option String
    → Result Principal
get_request_principal none token user roles org = ok (principal_from_headers user roles org)
get_request_principal (some verify) none user roles org = raise "401" "Missing bearer token."
get_request_principal (some verify) (some token) user roles org = answer (verify token)

-- What a function returns that returns nothing.
pub data Done : Type 0 where
  done : Done

abbrev same_org : Option String → Option String → Bool
same_org none none = true
same_org (some a) (some b) = a == b
same_org _ _ = false

abbrev owned : Principal → Principal → Result Done
owned owner caller =
    if not (owner.user_id == caller.user_id) || not (same_org owner.org_id caller.org_id)
    then raise "403" "You do not have access to this thread."
    else ok done

abbrev owned_known : Principal → Principal → Result Done
owned_known owner caller =
    if is_anonymous owner
    then raise "403" "Authentication required for thread access."
    else owned owner caller

unfoldable pub verify_thread_owner : Option Principal → Principal → Result Done
verify_thread_owner none caller =
    if is_anonymous caller
    then raise "403" "Authentication required for thread access."
    else raise "403" "You do not have access to this thread."
verify_thread_owner (some owner) caller =
    if is_anonymous caller
    then raise "403" "Authentication required for thread access."
    else owned_known owner caller

same_org_iff : (a b : Option String) → (same_org a b ≡ true) ↔ (a ≡ b)
same_org_iff none none = ground arith
same_org_iff (some a) (some b) = ground (arith, eq_iff a b)
same_org_iff none (some b) = ground arith
same_org_iff (some a) none = ground arith

-- The caller is the owner of the thread: the same user of the same organization, and neither of them
-- is the anonymous principal.
pub record Owns (owner : Option Principal) (caller : Principal) : Type 0 where
  pub known : Principal
  pub is_owner : owner ≡ some known
  pub same_user : known.user_id ≡ caller.user_id
  pub in_org : known.org_id ≡ caller.org_id
  pub caller_identified : is_anonymous caller ≡ false
  pub owner_identified : is_anonymous known ≡ false

owned_known_iff :
    (owner caller : Principal)
    → (owned_known owner caller ≡ ok done) ↔ (
        (is_anonymous owner ≡ false)
        × (owner.user_id ≡ caller.user_id)
        × (owner.org_id ≡ caller.org_id))
owned_known_iff owner caller =
    ground (arith, eq_iff owner.user_id caller.user_id, same_org_iff owner.org_id caller.org_id)

-- The check passes exactly for the owner: a missing owner, the anonymous principal on either side, and
-- any other user or organization are refused.
pub verify_thread_owner_iff :
    (owner : Option Principal) (caller : Principal)
    → (verify_thread_owner owner caller ≡ ok done) ↔ Owns owner caller
unfolding verify_thread_owner
verify_thread_owner_iff none caller = (λ h. ground arith, λ o. let e = o.is_owner in cc)
verify_thread_owner_iff (some owner) caller = (to, of)
  where
    to : verify_thread_owner (some owner) caller ≡ ok done → Owns (some owner) caller
    to h = elim (Bool-cases (is_anonymous caller)) [
      | inl e ↦ cc
      | inr e ↦
          let (identified, user, org) = (owned_known_iff owner caller).0 (rw e at h) in
          record {
            known = owner;
            is_owner = refl;
            same_user = user;
            in_org = org;
            caller_identified = e;
            owner_identified = identified;
          }
    ]

    of : Owns (some owner) caller → verify_thread_owner (some owner) caller ≡ ok done
    of o =
        let same : o.known ≡ owner = some-injective o.known owner (sym o.is_owner) in
        rw (verify_thread_owner, o.caller_identified)
          ((owned_known_iff owner caller).1 (
            ap is_anonymous (sym same) ∙ o.owner_identified,
            ap (λ p. p.user_id) (sym same) ∙ o.same_user,
            ap (λ p. p.org_id) (sym same) ∙ o.in_org,
          ))

roles_of_filled : (parts : List String) → All (λ role. role ≢ "") (roles_of parts)
roles_of_filled [] = tt
roles_of_filled (part ∷ parts) = elim (Bool-cases (strip part == "")) [
  | inl e ↦ rw e (roles_of_filled parts)
  | inr e ↦ rw e (λ same. let bad = (eq_iff (strip part) "").1 same in cc, roles_of_filled parts)
]

-- From headers, a caller is either the anonymous principal, who has no roles, or has a user id that is
-- neither empty nor that of the anonymous one; no role is empty.
pub principal_from_headers-IsIdentified :
    (user roles org : Option String)
    → let p = principal_from_headers user roles org in
      ((p ≡ anonymous) ⊎ ((p.user_id ≢ "") × (p.user_id ≢ "anonymous")))
      × All (λ role. role ≢ "") p.roles
unfolding principal_from_headers
principal_from_headers-IsIdentified user roles org =
    elim (Bool-cases (header_text user == "" || header_text user == "anonymous")) [
      | inl e ↦ rw e (inl refl, tt)
      | inr e ↦ rw e (
        inr (
          λ h. let bad = (eq_iff (header_text user) "").1 h in ground arith,
          λ h. let bad = (eq_iff (header_text user) "anonymous").1 h in ground arith,
        ),
        roles_of_filled _,
      )
    ]
