-- ===== src/Policy/Durable/Refined.antt =====
-- The store in Postgres decides like the in-memory store over the mapping that it lists.
use atlas_alpha.Prelude.{
  ◌≡◌, refl, sym, ap, ◌∙◌, subst, Bool, true, false, String, Option, none, some, List, [], ◌∷◌,
  ◌==◌, eq_iff, ◌↔◌, ◌⊎◌, inl, inr, Bool-cases, Option-cases, Some, Some-map, contains,
  contains_iff, Dict, lookup, insert, lookup-insert,
}
use mathlib.Core.Option.{some-injective}
use atlas_alpha.Policy.{Principal, wildcard, effective_permissions, in_memory, can}
use atlas_alpha.Policy.Matching.{Covers, everything, permission_satisfied_iff}
use atlas_alpha.Policy.Roles.{RoleGrants, can_iff}
use atlas_alpha.Policy.Durable.{
  Rows, select_for_roles, collapsed, permissions_of, durable, or_nothing, grouped, list_policies,
}

module _ (P : String → Type 0) where
  -- The row is of one of the roles, and its permission is such a one.
  abbrev Fits : List String → String × String → Type 0
  Fits roles (role, permission) = (contains roles role ≡ true) × P permission

  select_sound :
      (roles : List String) (rows : Rows)
      → Some P (select_for_roles roles rows)
      → Some (Fits roles) rows
  unfolding select_for_roles
  select_sound roles [] h = elim h [ ]
  select_sound roles ((role, permission) ∷ rows) h = elim (Bool-cases (contains roles role)) [
    | inr e ↦ inr (select_sound roles rows (rw e at h))
    | inl e ↦ elim (rw e at h) [
      | inl p ↦ inl (e, p)
      | inr later ↦ inr (select_sound roles rows later)
    ]
  ]

  select_complete :
      (roles : List String) (rows : Rows)
      → Some (Fits roles) rows
      → Some P (select_for_roles roles rows)
  unfolding select_for_roles
  select_complete roles [] h = elim h [ ]
  select_complete roles ((role, permission) ∷ rows) (inl (e, p)) = rw e (inl p)
  select_complete roles ((role, permission) ∷ rows) (inr later) =
      elim (Bool-cases (contains roles role)) [
        | inr e ↦ rw e (select_complete roles rows later)
        | inl e ↦ rw e (inr (select_complete roles rows later))
      ]

  -- The row is of the role.
  abbrev Of : String → String × String → Type 0
  Of role (r, permission) = (r ≡ role) × P permission

  abbrev Listed : String → Dict (List String) → Type 0
  Listed role groups =
      (granted : List String) × (lookup role groups ≡ some granted) × Some P granted

  grouped_sound :
      (role : String) (rows : Rows) (groups : Dict (List String))
      → Listed role (grouped rows groups)
      → Listed role groups ⊎ Some (Of role) rows
  unfolding grouped
  grouped_sound role [] groups h = inl h
  grouped_sound role ((r, permission) ∷ rows) groups h =
      elim (grouped_sound role rows (insert r (permission ∷ or_nothing (lookup r groups)) groups)
        h) [
          | inr later ↦ inr (inr later)
          | inl (granted, found, some_p) ↦
              let now = sym (lookup-insert r role _ groups) ∙ found in
              elim (Bool-cases (r == role)) [
                | inr e ↦ inl (granted, rw e at now, some_p)
                | inl e ↦
                    let same = some-injective _ granted (rw e at now) in
                    let named = (eq_iff r role).0 e in
                    elim (subst (Some P) (sym same) some_p) [
                      | inl p ↦ inr (inl (named, p))
                      | inr old ↦ elim (Option-cases (lookup r groups)) [
                        | inl n ↦ elim (subst (Some P) (ap or_nothing n) old) [ ]
                        | inr (before, n) ↦ inl (
                          before,
                          ap (λ x. lookup x groups) (sym named) ∙ n,
                          subst (Some P) (ap or_nothing n) old,
                        )
                      ]
                    ]
              ]
        ]

  grouped_keeps :
      (role r permission : String) (groups : Dict (List String))
      → Listed role groups
      → Listed role (insert r (permission ∷ or_nothing (lookup r groups)) groups)
  grouped_keeps role r permission groups (granted, found, some_p) =
      let now = lookup-insert r role (permission ∷ or_nothing (lookup r groups)) groups in
      elim (Bool-cases (r == role)) [
        | inr e ↦ (granted, now ∙ rw e found, some_p)
        | inl e ↦
            let named = (eq_iff r role).0 e in
            let old = ap or_nothing (ap (λ x. lookup x groups) named ∙ found) in
            (
              permission ∷ or_nothing (lookup r groups),
              now ∙ rw e refl,
              inr (subst (Some P) (sym old) some_p),
            )
      ]

  grouped_complete :
      (role : String) (rows : Rows) (groups : Dict (List String))
      → Listed role groups ⊎ Some (Of role) rows
      → Listed role (grouped rows groups)
  unfolding grouped
  grouped_complete role [] groups (inl h) = h
  grouped_complete role [] groups (inr h) = elim h [ ]
  grouped_complete role ((r, permission) ∷ rows) groups (inl h) =
      grouped_complete role rows _ (inl (grouped_keeps role r permission groups h))
  grouped_complete role ((r, permission) ∷ rows) groups (inr (inr later)) =
      grouped_complete role rows _ (inr later)
  grouped_complete role ((r, permission) ∷ rows) groups (inr (inl (named, p))) =
      grouped_complete role rows _ (
        inl (
          permission ∷ or_nothing (lookup r groups),
          lookup-insert r role _ groups ∙ rw ((eq_iff r role).1 named) refl,
          inl p,
        ))

  roles_to_rows :
      (roles : List String) (rows : Rows)
      → Some (λ role. Some (Of role) rows) roles
      → Some (Fits roles) rows
  roles_to_rows [] rows h = elim h [ ]
  roles_to_rows (r ∷ rs) rows (inl s) =
      Some-map (Of r) (Fits (r ∷ rs)) rows
        (λ row of. ((contains_iff (r ∷ rs) row.0).1 (inl (sym of.0)), of.1)) s
  roles_to_rows (r ∷ rs) rows (inr later) =
      Some-map (Fits rs) (Fits (r ∷ rs)) rows
        (λ row fits.
          ((contains_iff (r ∷ rs) row.0).1 (inr ((contains_iff rs row.0).0 fits.0)), fits.1))
        (roles_to_rows rs rows later)

  rows_to_roles :
      (roles : List String) (rows : Rows)
      → Some (Fits roles) rows
      → Some (λ role. Some (Of role) rows) roles
  rows_to_roles roles [] h = elim h [ ]
  rows_to_roles roles ((role, permission) ∷ rows) (inl (e, p)) =
      Some-map (λ y. y ≡ role) (λ y. Some (Of y) ((role, permission) ∷ rows)) roles
        (λ y same. inl (sym same, p)) ((contains_iff roles role).0 e)
  rows_to_roles roles (row ∷ rows) (inr later) =
      Some-map (λ y. Some (Of y) rows) (λ y. Some (Of y) (row ∷ rows)) roles (λ y s. inr s)
        (rows_to_roles roles rows later)

  no_roles : (rows : Rows) → Some (Fits []) rows → Some P []
  no_roles [] h = elim h [ ]
  no_roles ((role, permission) ∷ rows) (inl (e, p)) = elim ((contains_iff [] role).0 e) [ ]
  no_roles ((role, permission) ∷ rows) (inr later) = no_roles rows later

module _ (rows : Rows) (permission : String) where
  abbrev Allows : String → Type 0
  Allows g = Covers g permission

  wildcard-Allows : (granted : List String) → contains granted wildcard ≡ true → Some Allows granted
  wildcard-Allows granted w =
      Some-map (λ g. g ≡ wildcard) Allows granted (λ g. everything)
        ((contains_iff granted wildcard).0 w)

  collapsed-Some : (granted : List String) → Some Allows (collapsed granted) ↔ Some Allows granted
  collapsed-Some granted = elim (Bool-cases (contains granted wildcard)) [
    | inl w ↦ (λ h. wildcard-Allows granted w, λ h. rw w (inl (everything refl)))
    | inr n ↦ (λ h. rw n at h, λ h. rw n h)
  ]

  permissions_of_iff :
      (roles : List String)
      → Some Allows (permissions_of rows roles) ↔ Some (Fits Allows roles) rows
  permissions_of_iff [] = (λ h. elim h [ ], no_roles Allows rows)
  permissions_of_iff (r ∷ rs) =
      let (of, to) = collapsed-Some (select_for_roles (r ∷ rs) rows) in
      (
        λ h. select_sound Allows (r ∷ rs) rows (of h),
        λ h. to (select_complete Allows (r ∷ rs) rows h),
      )

  -- What the mapping that is listed grants to the roles is what their rows do.
  listed_iff :
      (roles : List String)
      → Some (RoleGrants (list_policies rows) permission) roles ↔ Some (Fits Allows roles) rows
  unfolding lookup
  listed_iff roles = (
    λ h. roles_to_rows Allows roles rows (
        Some-map (RoleGrants (list_policies rows) permission) (λ r. Some (Of Allows r) rows) roles
          (λ r granted. elim (grouped_sound Allows r rows [] granted) [
            | inl (g, bad, _) ↦ cc
            | inr found ↦ found
          ])
          h),
    λ h.
        Some-map (λ r. Some (Of Allows r) rows) (RoleGrants (list_policies rows) permission) roles
          (λ r found. grouped_complete Allows r rows [] (inr found))
          (rows_to_roles Allows roles rows h),
  )

same_truth : (a b : Bool) → (a ≡ true → b ≡ true) → (b ≡ true → a ≡ true) → a ≡ b
same_truth true b f g = sym (f refl)
same_truth false true f g = g refl
same_truth false false f g = refl

-- The store in Postgres decides every request like the in-memory store over the mapping that it lists,
-- whatever rows its table holds.
pub can-durable :
    (rows : Rows) (principal : Option Principal) (permission : Option String)
    → can (durable rows) principal permission
      ≡ can (in_memory (list_policies rows)) principal permission
unfolding can effective_permissions
can-durable rows principal none = refl
can-durable rows none (some permission) = refl
can-durable rows (some p) (some permission) =
    let (satisfied, satisfies) =
      permission_satisfied_iff (permissions_of rows p.roles) permission in
    let (granted, grants) = can_iff (list_policies rows) p permission in
    let (of, to) = permissions_of_iff rows permission p.roles in
    let (listed, lists) = listed_iff rows permission p.roles in
    same_truth _ _ (λ h. grants (lists (of (satisfied h))))
      (λ h. satisfies (to (listed (granted h))))
