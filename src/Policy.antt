-- ===== src/Policy.antt =====
-- src/atlas/governance/rbac.py and src/atlas/governance/policy.py: principals, role expansion, the
-- matching of permissions, and the in-memory policy store. A `frozenset` of strings is a list of
-- which only membership is read.
pub mod Matching
pub mod Roles
pub mod Durable
use atlas_alpha.Prelude.{
  Bool, true, false, ◌&&◌, ◌||◌, String, Option, none, some, List, [], ◌∷◌, ◌++◌, ◌==◌,
  if◌then◌else◌, any, contains, starts_with, ends_with, drop_last, Dict, lookup,
}

abbrev pub wildcard : String
wildcard = "*"

pub record Principal : Type 0 where
  pub user_id : String
  pub roles : List String
  pub org_id : Option String

-- `Principal.anonymous()`
abbrev pub anonymous : Principal
anonymous = record { user_id = "anonymous"; roles = []; org_id = none }

abbrev is_empty : List String → Bool
is_empty [] = true
is_empty (_ ∷ _) = false

abbrev is_none : Option String → Bool
is_none none = true
is_none (some _) = false

-- `principal == Principal.anonymous()`: the models are compared field by field.
unfoldable pub is_anonymous : Principal → Bool
is_anonymous p = p.user_id == "anonymous" && is_empty p.roles && is_none p.org_id

-- `ROLE_PERMISSIONS`
abbrev pub role_permissions : Dict (List String)
role_permissions =
    ("admin", "*" ∷ [])
    ∷ (
      "member",
      "tool:send:*" ∷ "tool:slack:post:*" ∷ "tool:gmail:send:*" ∷ "tool:calendar:write"
          ∷ "tool:slack:post_as_user" ∷ "tool:slack:delete_message:*" ∷ "kg:read:org"
          ∷ "kg:read:personal" ∷ [],
    )
    ∷ ("guest", "kg:read:personal" ∷ [])
    ∷ []

-- The loop of `expand_roles`, over the roles left and the permissions so far.
expand_from : List String → Dict (List String) → List String → List String
expand_from [] mapping permissions = permissions
expand_from (role ∷ roles) mapping permissions = elim (lookup role mapping) [
  | none ↦ expand_from roles mapping permissions
  | some granted ↦
      let rest = expand_from roles mapping (permissions ++ granted) in
      if contains granted wildcard then wildcard ∷ [] else rest
]

unfoldable pub expand_roles : List String → Dict (List String) → List String
unfolding expand_from
expand_roles roles mapping = expand_from roles mapping []

unfoldable pub permission_satisfied : List String → String → Bool
permission_satisfied granted required =
    contains granted wildcard
    || contains granted required
    || any (λ g. ends_with g ":*" && starts_with required (drop_last g)) granted

-- `PolicyStore`: what a backend answers.
pub record PolicyStore : Type 0 where
  pub effective_permissions : Option Principal → List String

-- `InMemoryPolicyStore.effective_permissions`, and `get_effective_permissions` over the built-in
-- mapping
unfoldable pub effective_permissions : Dict (List String) → Option Principal → List String
unfolding expand_roles
effective_permissions mapping none = []
effective_permissions mapping (some p) = expand_roles p.roles mapping

abbrev pub in_memory : Dict (List String) → PolicyStore
in_memory mapping = record { effective_permissions = effective_permissions mapping }

-- `DEFAULT_POLICY`
abbrev pub default_policy : PolicyStore
default_policy = in_memory role_permissions

-- `PolicyStore.can`, shared by every backend
unfoldable pub can : PolicyStore → Option Principal → Option String → Bool
unfolding permission_satisfied
can store principal none = true
can store principal (some permission) =
    permission_satisfied (store.effective_permissions principal) permission
