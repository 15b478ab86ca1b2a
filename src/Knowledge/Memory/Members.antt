-- ===== src/Knowledge/Memory/Members.antt =====
-- The entities that stand in the graph after a write.
use atlas_alpha.Prelude.{
  ◌≡◌, subst, String, List, [], ◌∷◌, ◌==◌, starts_with, In, ◌⊎◌, inl, inr, Bool-cases, Dict, insert,
}
use atlas_alpha.Knowledge.{Entity, Relation, extraction_entity_prefix}
use atlas_alpha.Knowledge.Memory.{
  Graph, values, upsert_entity, upsert_all, drop_entities, persist_extraction,
}
use atlas_alpha.Knowledge.Memory.Writes.{add_all-entities}

In-values-insert :
    (x : Entity) (k : String) (v : Entity) (d : Dict Entity)
    → In x (values (insert k v d))
    → (v ≡ x) ⊎ In x (values d)
unfolding insert
In-values-insert x k v [] (inl e) = inl e
In-values-insert x k v [] (inr h) = elim h [ ]
In-values-insert x k v ((j, y) ∷ d) h = elim (Bool-cases (j == k)) [
  | inl e ↦ elim (rw e at h) [ inl q ↦ inl q | inr q ↦ inr (inr q) ]
  | inr e ↦ elim (rw e at h) [
    | inl q ↦ inr (inl q)
    | inr q ↦ elim (In-values-insert x k v d q) [ inl r ↦ inl r | inr r ↦ inr (inr r) ]
  ]
]

pub In-upsert_entity :
    (x e : Entity) (g : Graph)
    → In x (values (upsert_entity e g).entities)
    → (e ≡ x) ⊎ In x (values g.entities)
unfolding upsert_entity
In-upsert_entity x e g h = In-values-insert x e.id e g.entities h

In-upsert_all :
    (x : Entity) (es : List Entity) (g : Graph)
    → In x (values (upsert_all es g).entities)
    → In x es ⊎ In x (values g.entities)
unfolding upsert_all
In-upsert_all x [] g h = inr h
In-upsert_all x (e ∷ es) g h = elim (In-upsert_all x es (upsert_entity e g) h) [
  | inl i ↦ inl (inr i)
  | inr i ↦ elim (In-upsert_entity x e g i) [ inl q ↦ inl (inl q) | inr q ↦ inr q ]
]

In-drop_entities :
    (x : Entity) (prefix : String) (d : Dict Entity)
    → In x (values (drop_entities prefix d))
    → In x (values d)
In-drop_entities x prefix [] h = h
In-drop_entities x prefix ((k, e) ∷ d) h = elim (Bool-cases (starts_with k prefix)) [
  | inl q ↦ inr (In-drop_entities x prefix d (rw q at h))
  | inr q ↦ elim (rw q at h) [ inl r ↦ inl r | inr r ↦ inr (In-drop_entities x prefix d r) ]
]

-- What stands in the graph after an extraction is persisted was given or stood there before.
pub In-persist_extraction :
    (x : Entity) (owner source : String) (es : List Entity) (rs : List Relation) (g : Graph)
    → In x (values (persist_extraction owner source es rs g).entities)
    → In x es ⊎ In x (values g.entities)
unfolding persist_extraction
In-persist_extraction x owner source es rs g h =
    elim (In-upsert_all x es _ (subst (λ d. In x (values d)) (add_all-entities rs _) h)) [
      | inl i ↦ inl i
      | inr i ↦ inr (In-drop_entities x (extraction_entity_prefix owner source) g.entities i)
    ]
