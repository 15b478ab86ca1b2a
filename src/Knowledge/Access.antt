-- ===== src/Knowledge/Access.antt =====
-- Who may read an entity.
use atlas_alpha.Prelude.{
  ◌≡◌, refl, sym, ap, ◌∙◌, ◌≢◌, subst, true, String, Option, none, some, List, [], ◌∷◌, eq_iff,
  eq_refl, arith, append, starts_with, after, starts_with-append, starts_with_split, after-append,
  ◌↔◌, ◌⊎◌, inl, inr, Some, Bool-cases,
}
use atlas_alpha.Policy.{Principal, PolicyStore, can}
use atlas_alpha.Knowledge.{
  Entity, identity_acl, identity_acl_prefix, is_user, satisfies_entry, reads_by, or_default,
  reads_acl, can_read,
}

-- An entry of an acl lets the principal read: by being the user that it names, or by a permission of
-- a role where it names no user.
pub data Opens (store : PolicyStore) (principal : Option Principal) (entry : String) : Type 0 where
  owner :
      (p : Principal)
      → principal ≡ some p
      → entry ≡ identity_acl p.user_id
      → Opens store principal entry
  role :
      ((user_id : String) → entry ≢ identity_acl user_id)
      → can store principal (some entry) ≡ true
      → Opens store principal entry

satisfies_entry_sound :
    (store : PolicyStore) (principal : Option Principal) (entry : String)
    → satisfies_entry store principal entry ≡ true
    → Opens store principal entry
unfolding satisfies_entry identity_acl
satisfies_entry_sound store principal entry h =
    elim (Bool-cases (starts_with entry identity_acl_prefix)) [
      | inl e ↦ user principal e (rw e at h)
      | inr e ↦
          role (λ user_id f. cc (e, f, starts_with-append identity_acl_prefix user_id)) (rw e at h)
    ]
  where
    user :
        (q : Option Principal)
        → starts_with entry identity_acl_prefix ≡ true
        → is_user q (after entry identity_acl_prefix) ≡ true
        → Opens store q entry
    user none e k = cc
    user (some p) e k = owner p refl (
        starts_with_split entry identity_acl_prefix e
        ∙ ap (append identity_acl_prefix) (sym ((eq_iff p.user_id _).0 k)))

satisfies_entry_complete :
    (store : PolicyStore) (principal : Option Principal) (entry : String)
    → Opens store principal entry
    → satisfies_entry store principal entry ≡ true
unfolding satisfies_entry identity_acl
satisfies_entry_complete store principal entry (owner p e f) =
    rw
      (
        e,
        f,
        starts_with-append identity_acl_prefix p.user_id,
        after-append identity_acl_prefix p.user_id,
      )
      (eq_refl p.user_id)
satisfies_entry_complete store principal entry (role differs h) =
    elim (Bool-cases (starts_with entry identity_acl_prefix)) [
      | inl e ↦ absurd (
          differs (after entry identity_acl_prefix) (starts_with_split entry identity_acl_prefix e))
      | inr e ↦ rw e h
    ]

reads_by_sound :
    (store : PolicyStore) (principal : Option Principal) (acl : List String)
    → reads_by store principal acl ≡ true
    → Some (Opens store principal) acl
unfolding reads_by
reads_by_sound store principal [] h = cc
reads_by_sound store principal (entry ∷ acl) h =
    elim (Bool-cases (satisfies_entry store principal entry)) [
      | inl e ↦ inl (satisfies_entry_sound store principal entry e)
      | inr e ↦ inr (reads_by_sound store principal acl (rw e at h))
    ]

reads_by_complete :
    (store : PolicyStore) (principal : Option Principal) (acl : List String)
    → Some (Opens store principal) acl
    → reads_by store principal acl ≡ true
unfolding reads_by
reads_by_complete store principal [] h = elim h [ ]
reads_by_complete store principal (entry ∷ acl) (inl opens) =
    rw (satisfies_entry_complete store principal entry opens)
reads_by_complete store principal (entry ∷ acl) (inr h) =
    ground (arith, reads_by_complete store principal acl h)

-- An entity can be read exactly when its acl is empty or one of the entries opens it.
pub can_read_iff :
    (principal : Option Principal) (entity : Entity) (policy : Option PolicyStore)
    → (can_read principal entity policy ≡ true)
      ↔ ((entity.acl ≡ []) ⊎ Some (Opens (or_default policy) principal) entity.acl)
unfolding can_read
can_read_iff principal entity policy = (sound entity.acl, complete entity.acl)
  where
    sound :
        (acl : List String)
        → reads_acl (or_default policy) principal acl ≡ true
        → (acl ≡ []) ⊎ Some (Opens (or_default policy) principal) acl
    sound [] h = inl refl
    sound (entry ∷ acl) h = inr (reads_by_sound (or_default policy) principal (entry ∷ acl) h)

    complete :
        (acl : List String)
        → (acl ≡ []) ⊎ Some (Opens (or_default policy) principal) acl
        → reads_acl (or_default policy) principal acl ≡ true
    complete [] h = refl
    complete (entry ∷ acl) (inl e) = cc
    complete (entry ∷ acl) (inr h) = reads_by_complete (or_default policy) principal (entry ∷ acl) h

identity_acl-injective : (a b : String) → identity_acl a ≡ identity_acl b → a ≡ b
unfolding identity_acl
identity_acl-injective a b h =
    sym (after-append identity_acl_prefix a)
    ∙ ap (λ s. after s identity_acl_prefix) h
    ∙ after-append identity_acl_prefix b

-- Personal knowledge stays personal: an entity whose acl is one identity entry is read by exactly
-- that user, whatever the roles and whatever the policy store grants, the wildcard included.
pub can_read-identity_acl :
    (principal : Option Principal) (entity : Entity) (policy : Option PolicyStore)
    (user_id : String)
    → entity.acl ≡ identity_acl user_id ∷ []
    → (can_read principal entity policy ≡ true)
      ↔ ((p : Principal) × (principal ≡ some p) × (p.user_id ≡ user_id))
can_read-identity_acl principal entity policy user_id acl = (
  λ h. elim ((can_read_iff principal entity policy).0 h) [
    | inl e ↦ cc
    | inr opens ↦ only (subst (Some (Opens (or_default policy) principal)) acl opens)
  ],
  λ (p, e, f). (can_read_iff principal entity policy).1 (
      inr (
        subst (Some (Opens (or_default policy) principal)) (sym acl)
          (inl (owner p e (ap identity_acl (sym f)))))),
)
  where
    only :
        Some (Opens (or_default policy) principal) (identity_acl user_id ∷ [])
        → (p : Principal) × (principal ≡ some p) × (p.user_id ≡ user_id)
    only (inl (owner p e f)) = (p, e, sym (identity_acl-injective user_id p.user_id f))
    only (inl (role differs h)) = absurd (differs user_id refl)
    only (inr h) = elim h [ ]
