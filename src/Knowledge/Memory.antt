-- ===== src/Knowledge/Memory.antt =====
-- src/atlas/knowledge/memory_store.py: the in-memory knowledge graph. None of its operations raises,
-- so the rollback of `persist_extraction` has nothing to undo. Unicode's case table is an argument.
pub mod Reads
pub mod Writes
pub mod Members
use atlas_alpha.Prelude.{
  ℕ, Bool, true, false, not, ◌&&◌, ◌||◌, String, Option, none, some, List, [], ◌∷◌, ◌++◌, ◌==◌,
  append, starts_with, has_substring, split_words, any, keep, take, Dict, insert, if◌then◌else◌,
}
use atlas_alpha.Policy.{Principal, PolicyStore}
use atlas_alpha.Knowledge.{
  Scope, personal, org, Entity, Relation, extraction_entity_prefix, can_read,
}

pub record Graph : Type 0 where
  pub entities : Dict Entity
  pub relations : List Relation
  pub policy : Option PolicyStore

unfoldable pub upsert_entity : Entity → Graph → Graph
upsert_entity entity g = record g { entities = insert entity.id entity g.entities }

abbrev pub same_relation : Relation → Relation → Bool
same_relation r s = r.src_id == s.src_id && r.dst_id == s.dst_id && r.type == s.type

unfoldable pub add_relation : Relation → Graph → Graph
add_relation relation g =
    if any (λ r. same_relation r relation) g.relations
    then g
    else record g { relations = g.relations ++ relation ∷ [] }

upsert_all : List Entity → Graph → Graph
upsert_all [] g = g
upsert_all (e ∷ es) g = upsert_all es (upsert_entity e g)

pub add_all : List Relation → Graph → Graph
add_all [] g = g
add_all (r ∷ rs) g = add_all rs (add_relation r g)

abbrev drop_entities : String → Dict Entity → Dict Entity
drop_entities prefix = keep (λ (entity_id, _). not (starts_with entity_id prefix))

abbrev drop_relations : String → List Relation → List Relation
drop_relations prefix =
    keep (λ r. not (starts_with r.src_id prefix) && not (starts_with r.dst_id prefix))

unfoldable pub persist_extraction : String → String → List Entity → List Relation → Graph → Graph
unfolding upsert_all add_all
persist_extraction owner_segment source_id entities relations g =
    let prefix = extraction_entity_prefix owner_segment source_id in
    add_all relations (
      upsert_all entities (record g {
        entities = drop_entities prefix g.entities;
        relations = drop_relations prefix g.relations;
      }))

unfoldable pub bind_policy : PolicyStore → Graph → Graph
bind_policy policy g = record g { policy = some policy }

abbrev pub values : Dict Entity → List Entity
values [] = []
values ((_, e) ∷ d) = e ∷ values d

module _ (lower : String → String) where
  -- `not terms or any(term in haystack for term in terms)`
  abbrev pub matches_terms : List String → Entity → Bool
  matches_terms [] e = true
  matches_terms (t ∷ terms) e =
      any (λ term. has_substring (lower (append (append e.name "\n") e.content)) term) (t ∷ terms)

  -- The loop of `query`.
  abbrev pub hits : Option Principal → List String → Option PolicyStore → List Entity → List Entity
  hits principal terms policy = keep (λ e. can_read principal e policy && matches_terms terms e)

  unfoldable pub query : Option Principal → String → ℕ → Graph → List Entity
  query principal text limit g =
      take limit (hits principal (split_words (lower text)) g.policy (values g.entities))
