-- ===== src/Knowledge.antt =====
-- src/atlas/knowledge/interfaces.py: entities, relations and who may read them.
pub mod Access
pub mod Memory
pub mod Ingestion
use atlas_alpha.Prelude.{
  Bool, true, false, String, Option, none, some, List, [], ◌∷◌, ◌==◌, append, starts_with, after,
  if◌then◌else◌,
}
use atlas_alpha.Policy.{Principal, PolicyStore, default_policy, can}

pub data Scope : Type 0 where
  personal org : Scope

pub record Entity : Type 0 where
  pub id : String
  pub type : String
  pub name : String
  pub content : String
  pub acl : List String
  pub scope : Scope

pub record Relation : Type 0 where
  pub src_id : String
  pub dst_id : String
  pub type : String

abbrev pub identity_acl_prefix : String
identity_acl_prefix = "kg:read:user:"

unfoldable pub identity_acl : String → String
identity_acl user_id = append identity_acl_prefix user_id

unfoldable pub extraction_entity_prefix : String → String → String
extraction_entity_prefix owner_segment source_id =
    append (append (append owner_segment ":") source_id) ":entity:"

-- `principal is not None and principal.user_id == owner`
abbrev is_user : Option Principal → String → Bool
is_user none owner = false
is_user (some p) owner = p.user_id == owner

-- One entry of an acl, in the loop of `can_read`.
satisfies_entry : PolicyStore → Option Principal → String → Bool
satisfies_entry store principal permission =
    if starts_with permission identity_acl_prefix
    then is_user principal (after permission identity_acl_prefix)
    else can store principal (some permission)

-- The loop of `can_read`.
reads_by : PolicyStore → Option Principal → List String → Bool
unfolding satisfies_entry
reads_by store principal [] = false
reads_by store principal (permission ∷ acl) =
    let rest = reads_by store principal acl in
    if satisfies_entry store principal permission then true else rest

abbrev or_default : Option PolicyStore → PolicyStore
or_default none = default_policy
or_default (some store) = store

abbrev reads_acl : PolicyStore → Option Principal → List String → Bool
unfolding reads_by
reads_acl store principal [] = true
reads_acl store principal (permission ∷ acl) = reads_by store principal (permission ∷ acl)

unfoldable pub can_read : Option Principal → Entity → Option PolicyStore → Bool
unfolding reads_by
can_read principal entity policy = reads_acl (or_default policy) principal entity.acl
