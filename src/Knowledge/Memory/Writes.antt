-- ===== src/Knowledge/Memory/Writes.antt =====
-- Writes to the in-memory graph.
use atlas_alpha.Prelude.{
  ◌≡◌, refl, ap, ◌∙◌, Bool, false, String, Option, none, some, List, [], ◌∷◌, ◌++◌, ◌==◌, eq_iff,
  arith, any, keep, any-append, starts_with, Bool-cases, inl, inr, Dict, lookup, lookup-insert,
  if◌then◌else◌,
}
use atlas_alpha.Knowledge.{Entity, Relation, extraction_entity_prefix}
use atlas_alpha.Knowledge.Memory.{
  Graph, same_relation, add_relation, upsert_entity, upsert_all, add_all, drop_entities,
  persist_extraction,
}

-- No edge stands twice.
abbrev pub Distinct : List Relation → Type 0
Distinct [] = Unit
Distinct (r ∷ rs) = (any (λ s. same_relation s r) rs ≡ false) × Distinct rs

same_relation-sym : (r s : Relation) → same_relation r s ≡ false → same_relation s r ≡ false
same_relation-sym r s h = ground (
  arith,
  eq_iff r.src_id s.src_id,
  eq_iff r.dst_id s.dst_id,
  eq_iff r.type s.type,
  eq_iff s.src_id r.src_id,
  eq_iff s.dst_id r.dst_id,
  eq_iff s.type r.type,
)

pub Distinct-concat :
    (rs : List Relation) (r : Relation)
    → Distinct rs
    → any (λ s. same_relation s r) rs ≡ false
    → Distinct (rs ++ r ∷ [])
Distinct-concat [] r d h = (refl, tt)
Distinct-concat (s ∷ rs) r d h = (
  ground (arith, any-append (λ x. same_relation x s) rs (r ∷ []), d.0, same_relation-sym s r),
  Distinct-concat rs r d.1 (ground arith),
)

pub add_relation-Distinct :
    (r : Relation) (g : Graph) → Distinct g.relations → Distinct (add_relation r g).relations
unfolding add_relation
add_relation-Distinct r g d = elim (Bool-cases (any (λ s. same_relation s r) g.relations)) [
  | inl e ↦ rw e d
  | inr e ↦ rw e (Distinct-concat g.relations r d e)
]

lookup-drop_entities :
    (prefix k : String) (d : Dict Entity)
    → lookup k (drop_entities prefix d) ≡ (if starts_with k prefix then none else lookup k d)
unfolding lookup
lookup-drop_entities prefix k [] = ground arith
lookup-drop_entities prefix k ((j, e) ∷ d) =
    ground (arith, eq_iff j k, lookup-drop_entities prefix k d)

-- The last of the entities with an id.
abbrev pub last_with : String → List Entity → Option Entity
last_with k [] = none
last_with k (e ∷ es) = elim (last_with k es) [
  | some later ↦ some later
  | none ↦ if e.id == k then some e else none
]

abbrev pub or_else {ℓ} : {A : Type ℓ} → Option A → Option A → Option A
or_else (some a) _ = some a
or_else none b = b

lookup-upsert_all :
    (k : String) (es : List Entity) (g : Graph)
    → lookup k (upsert_all es g).entities ≡ or_else (last_with k es) (lookup k g.entities)
unfolding upsert_all upsert_entity
lookup-upsert_all k [] g = refl
lookup-upsert_all k (e ∷ es) g =
    ground (arith, lookup-upsert_all k es (upsert_entity e g), lookup-insert e.id k e g.entities)

pub add_all-entities : (rs : List Relation) (g : Graph) → (add_all rs g).entities ≡ g.entities
unfolding add_all add_relation
add_all-entities [] g = refl
add_all-entities (r ∷ rs) g = add_all-entities rs (add_relation r g) ∙ ground arith

-- Persisting an extraction replaces the source's entities by the new ones and leaves the others
-- alone: a new entity is found under its id, an older one only outside the source's prefix.
pub persist_extraction-lookup :
    (owner source k : String) (es : List Entity) (rs : List Relation) (g : Graph)
    → lookup k (persist_extraction owner source es rs g).entities
      ≡ or_else (last_with k es) (
          if starts_with k (extraction_entity_prefix owner source)
          then none
          else lookup k g.entities)
unfolding persist_extraction
persist_extraction-lookup owner source k es rs g =
    rw (add_all-entities rs, lookup-upsert_all k es)
      (ap (or_else (last_with k es))
        (lookup-drop_entities (extraction_entity_prefix owner source) k g.entities))

-- Persisting the same extraction again finds the same entities.
persist_extraction_idem :
    (owner source k : String) (es : List Entity) (rs : List Relation) (g : Graph)
    → lookup k
        (persist_extraction owner source es rs (persist_extraction owner source es rs g)).entities
      ≡ lookup k (persist_extraction owner source es rs g).entities
persist_extraction_idem owner source k es rs g = ground (
  arith,
  persist_extraction-lookup owner source k es rs g,
  persist_extraction-lookup owner source k es rs (persist_extraction owner source es rs g),
)

any-keep :
    (p q : Relation → Bool) (rs : List Relation) → any p rs ≡ false → any p (keep q rs) ≡ false
any-keep p q [] h = refl
any-keep p q (r ∷ rs) h = ground (arith, any-keep p q rs)

Distinct-keep : (q : Relation → Bool) (rs : List Relation) → Distinct rs → Distinct (keep q rs)
Distinct-keep q [] d = tt
Distinct-keep q (r ∷ rs) d = elim (Bool-cases (q r)) [
  | inl e ↦ rw e (any-keep (λ s. same_relation s r) q rs d.0, Distinct-keep q rs d.1)
  | inr e ↦ rw e (Distinct-keep q rs d.1)
]

add_all-Distinct :
    (rs : List Relation) (g : Graph) → Distinct g.relations → Distinct (add_all rs g).relations
unfolding add_all
add_all-Distinct [] g d = d
add_all-Distinct (r ∷ rs) g d = add_all-Distinct rs (add_relation r g) (add_relation-Distinct r g d)

upsert_all-relations : (es : List Entity) (g : Graph) → (upsert_all es g).relations ≡ g.relations
unfolding upsert_all upsert_entity
upsert_all-relations [] g = refl
upsert_all-relations (e ∷ es) g = upsert_all-relations es (upsert_entity e g)

-- No write makes an edge stand twice: neither a new relation nor a persisted extraction.
pub persist_extraction-Distinct :
    (owner source : String) (es : List Entity) (rs : List Relation) (r : Relation) (g : Graph)
    → Distinct g.relations
    → Distinct (add_relation r g).relations
      × Distinct (persist_extraction owner source es rs g).relations
unfolding persist_extraction
persist_extraction-Distinct owner source es rs r g d = (
  add_relation-Distinct r g d,
  add_all-Distinct rs _ (rw (upsert_all-relations es) (Distinct-keep _ g.relations d)),
)
