-- ===== src/Policy/Roles.antt =====
-- Role expansion and the authorization check, role by role.
use atlas_alpha.Prelude.{
  ◌≡◌, refl, sym, subst, true, false, String, none, some, List, [], ◌∷◌, ◌++◌, ◌↔◌, ◌⊎◌, inl, inr,
  Bool-cases, Option-cases, Some, Some-map, Some-append, contains, contains_iff, Dict, lookup,
}
use atlas_alpha.Policy.{Principal, wildcard, expand_from, in_memory, effective_permissions, can}
use atlas_alpha.Policy.Matching.{Covers, everything, permission_satisfied_iff}

-- The role is known to the mapping and one of its permissions covers the one that is asked for.
abbrev pub RoleGrants : Dict (List String) → String → String → Type 0
RoleGrants mapping permission role =
    (granted : List String) × (lookup role mapping ≡ some granted)
    × Some (λ g. Covers g permission) granted

-- What the roles left and the permissions so far grant together.
abbrev Grants : Dict (List String) → String → List String → List String → Type 0
Grants mapping permission roles permissions =
    Some (λ g. Covers g permission) permissions ⊎ Some (RoleGrants mapping permission) roles

abbrev Covered : String → List String → Type 0
Covered permission = Some (λ g. Covers g permission)

module _ (mapping : Dict (List String)) (role : String) (roles permissions : List String) where
  expand_from-unknown :
      lookup role mapping ≡ none
      → expand_from (role ∷ roles) mapping permissions ≡ expand_from roles mapping permissions
  unfolding expand_from
  expand_from-unknown e = rw (e, expand_from)

  expand_from-wildcard :
      (granted : List String)
      → lookup role mapping ≡ some granted
      → contains granted wildcard ≡ true
      → expand_from (role ∷ roles) mapping permissions ≡ wildcard ∷ []
  unfolding expand_from
  expand_from-wildcard granted e w = rw (e, expand_from) (rw w)

  expand_from-known :
      (granted : List String)
      → lookup role mapping ≡ some granted
      → contains granted wildcard ≡ false
      → expand_from (role ∷ roles) mapping permissions
        ≡ expand_from roles mapping (permissions ++ granted)
  unfolding expand_from
  expand_from-known granted e w = rw (e, expand_from) (rw w)

module _ (mapping : Dict (List String)) (permission : String) where
  wildcard_covers :
      (granted : List String) → contains granted wildcard ≡ true → Covered permission granted
  wildcard_covers granted w =
      Some-map (λ g. g ≡ wildcard) (λ g. Covers g permission) granted (λ g. everything)
        ((contains_iff granted wildcard).0 w)

  expand_from_sound :
      (roles permissions : List String)
      → Covered permission (expand_from roles mapping permissions)
      → Grants mapping permission roles permissions
  unfolding expand_from
  expand_from_sound [] permissions h = inl h
  expand_from_sound (role ∷ roles) permissions h = elim (Option-cases (lookup role mapping)) [
    | inl e ↦ widen (
        expand_from_sound roles permissions
          (subst (Covered permission) (expand_from-unknown mapping role roles permissions e) h))
    | inr (granted, e) ↦ elim (Bool-cases (contains granted wildcard)) [
      | inl w ↦ inr (inl (granted, e, wildcard_covers granted w))
      | inr w ↦ regroup granted e (
          expand_from_sound roles (permissions ++ granted) (
            subst (Covered permission)
              (expand_from-known mapping role roles permissions granted e w) h))
    ]
  ]
    where
      widen :
          Grants mapping permission roles permissions
          → Grants mapping permission (role ∷ roles) permissions
      widen (inl p) = inl p
      widen (inr r) = inr (inr r)

      regroup :
          (granted : List String)
          → lookup role mapping ≡ some granted
          → Grants mapping permission roles (permissions ++ granted)
          → Grants mapping permission (role ∷ roles) permissions
      regroup granted e (inl p) =
          elim ((Some-append (λ g. Covers g permission) permissions granted).0 p) [
            | inl q ↦ inl q
            | inr q ↦ inr (inl (granted, e, q))
          ]
      regroup granted e (inr r) = inr (inr r)

  expand_from_complete :
      (roles permissions : List String)
      → Grants mapping permission roles permissions
      → Covered permission (expand_from roles mapping permissions)
  unfolding expand_from
  expand_from_complete [] permissions (inl h) = h
  expand_from_complete [] permissions (inr h) = elim h [ ]
  expand_from_complete (role ∷ roles) permissions h = elim (Option-cases (lookup role mapping)) [
    | inl e ↦
        subst (Covered permission) (sym (expand_from-unknown mapping role roles permissions e))
          (expand_from_complete roles permissions (skip e h))
    | inr (granted, e) ↦ elim (Bool-cases (contains granted wildcard)) [
      | inl w ↦
          subst (Covered permission)
            (sym (expand_from-wildcard mapping role roles permissions granted e w))
            (inl (everything refl))
      | inr w ↦
          subst (Covered permission)
            (sym (expand_from-known mapping role roles permissions granted e w))
            (expand_from_complete roles (permissions ++ granted) (absorb granted e h))
    ]
  ]
    where
      skip :
          lookup role mapping ≡ none
          → Grants mapping permission (role ∷ roles) permissions
          → Grants mapping permission roles permissions
      skip e (inl p) = inl p
      skip e (inr (inl (granted, f, q))) = cc
      skip e (inr (inr r)) = inr r

      absorb :
          (granted : List String)
          → lookup role mapping ≡ some granted
          → Grants mapping permission (role ∷ roles) permissions
          → Grants mapping permission roles (permissions ++ granted)
      absorb granted e (inl p) =
          inl ((Some-append (λ g. Covers g permission) permissions granted).1 (inl p))
      absorb granted e (inr (inl (granted', f, q))) = inl (
          (Some-append (λ g. Covers g permission) permissions granted).1
            (inr (let same : granted' ≡ granted = cc in subst (Covered permission) same q)))
      absorb granted e (inr (inr r)) = inr r

-- The store authorizes a permission exactly when one of the principal's roles grants it: an unknown
-- role and a role with no covering permission add nothing.
pub can_iff :
    (mapping : Dict (List String)) (p : Principal) (permission : String)
    → (can (in_memory mapping) (some p) (some permission) ≡ true)
      ↔ Some (RoleGrants mapping permission) p.roles
unfolding can effective_permissions
can_iff mapping p permission = (
  λ h.
      elim (expand_from_sound mapping permission p.roles []
        ((permission_satisfied_iff _ permission).0 h)) [ inl e ↦ absurd e | inr r ↦ r ],
  λ h.
      (permission_satisfied_iff _ permission).1
        (expand_from_complete mapping permission p.roles [] (inr h)),
)

-- More roles, in any order, never take a permission away.
pub can_mono :
    (mapping : Dict (List String)) (p q : Principal) (permission : String)
    → ((role : String) → Some (λ r. r ≡ role) p.roles → Some (λ r. r ≡ role) q.roles)
    → can (in_memory mapping) (some p) (some permission) ≡ true
    → can (in_memory mapping) (some q) (some permission) ≡ true
can_mono mapping p q permission more h =
    (can_iff mapping q permission).1
      (carry p.roles (λ role. more role) ((can_iff mapping p permission).0 h))
  where
    place :
        (role : String) (roles : List String)
        → RoleGrants mapping permission role
        → Some (λ r. r ≡ role) roles
        → Some (RoleGrants mapping permission) roles
    place role roles g m =
        Some-map (λ r. r ≡ role) (RoleGrants mapping permission) roles
          (λ r e. subst (RoleGrants mapping permission) (sym e) g) m

    carry :
        (roles : List String)
        → ((role : String) → Some (λ r. r ≡ role) roles → Some (λ r. r ≡ role) q.roles)
        → Some (RoleGrants mapping permission) roles
        → Some (RoleGrants mapping permission) q.roles
    carry [] f s = elim s [ ]
    carry (role ∷ roles) f (inl g) = place role q.roles g (f role (inl refl))
    carry (role ∷ roles) f (inr s) = carry roles (λ r m. f r (inr m)) s
