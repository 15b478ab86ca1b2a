-- ===== src/Knowledge/Ingestion/Extraction.antt =====
-- What is kept of an extractor's answer: `_persist_extraction` and `_collect_relations` of
-- src/atlas/knowledge/ingestion.py, and the answer's types of src/atlas/knowledge/extraction.py.
pub mod Anchored
use atlas_alpha.Prelude.{
  ℕ, suc, ltb, leb, Bool, true, false, not, ◌&&◌, ◌||◌, String, Option, none, some, List, [], ◌∷◌,
  ◌++◌, ◌==◌, append, split_words, any, length, map, if◌then◌else◌,
}
use atlas_alpha.Knowledge.{Scope, Entity, Relation}
use atlas_alpha.Knowledge.Memory.{same_relation}
use atlas_alpha.Knowledge.Ingestion.Chunks.{text_take}

pub record ExtractedEntity : Type 0 where
  pub name : String
  pub type : String

pub record ExtractedRelation : Type 0 where
  pub src_name : String
  pub src_type : String
  pub dst_name : String
  pub dst_type : String
  pub type : String

pub record ExtractionResult : Type 0 where
  pub entities : List ExtractedEntity
  pub relations : List ExtractedRelation

-- The id that was given to a kind and a normalized name.
pub record Known : Type 0 where
  pub kind : String
  pub name : String
  pub id : String

-- `entity_id_by_key.get(key)`
find_id : String → String → List Known → Option String
find_id kind name [] = none
find_id kind name (k ∷ known) =
    let later = find_id kind name known in
    if k.kind == kind && k.name == name then some k.id else later

join_words : List String → String
join_words [] = ""
join_words (w ∷ []) = w
join_words (w ∷ (v ∷ ws)) = append w (append " " (join_words (v ∷ ws)))

-- `_normalize_name`
normalize_name : (String → String) → String → String
unfolding join_words
normalize_name casefold name = casefold (join_words (split_words name))

module _ (sha256 casefold : String → String) (owner_segment source_id : String) where
  -- `_extracted_entity_id`, of a kind and a normalized name
  extracted_entity_id : String → String → String
  extracted_entity_id kind name =
      append
        (append (append (append (append (append owner_segment ":") source_id) ":entity:") kind) ":")
        (text_take 12 (sha256 (append (append kind "\0") name)))

  abbrev known_as : ExtractedEntity → Known
  unfolding normalize_name extracted_entity_id
  known_as e =
      let name = normalize_name casefold e.name in
      record { kind = e.type; name = name; id = extracted_entity_id e.type name }

  -- The loop over the proposed entities: what is known so far, and those that are new, in their order.
  collect_entities : ℕ → List ExtractedEntity → List Known → List (ExtractedEntity × Known)
  unfolding find_id known_as
  collect_entities limit [] known = []
  collect_entities limit (e ∷ es) known =
      let skipped = collect_entities limit es known in
      let taken = collect_entities limit es (known ++ known_as e ∷ []) in
      if leb limit (length known)
      then []
      else elim (find_id e.type (normalize_name casefold e.name) known) [
        | some _ ↦ skipped
        | none ↦ (e, known_as e) ∷ taken
      ]

abbrev pub entity_of : Scope → List String → ExtractedEntity × Known → Entity
entity_of scope acl (e, k) = record {
  id = k.id;
  type = e.type;
  name = e.name;
  content = "";
  acl = acl;
  scope = scope;
}

abbrev pub known_of : ExtractedEntity × Known → Known
known_of (e, k) = k

-- An edge is seen exactly if it has been collected.
abbrev add_edge : Relation → List Relation → List Relation
add_edge r collected =
    if any (λ s. same_relation s r) collected then collected else collected ++ r ∷ []

abbrev resolved_edge : String → Option String → Option String → List Relation → List Relation
resolved_edge type (some src) (some dst) collected =
    add_edge (record { src_id = src; dst_id = dst; type = type }) collected
resolved_edge type _ _ collected = collected

-- The loop that anchors the extracted entities to the document.
collect_mentions : ℕ → String → List String → List Relation → List Relation
collect_mentions limit doc_anchor [] collected = collected
collect_mentions limit doc_anchor (id ∷ ids) collected =
    let rest =
      collect_mentions limit doc_anchor ids
        (add_edge (record { src_id = doc_anchor; dst_id = id; type = "mentions" }) collected) in
    if leb limit (length collected) then collected else rest

module _ (casefold : String → String) (limit : ℕ) where
  -- The loop over the proposed relations.
  collect_edges : List Known → List ExtractedRelation → List Relation → List Relation
  unfolding find_id normalize_name
  collect_edges known [] collected = collected
  collect_edges known (r ∷ rs) collected =
      let next =
        resolved_edge r.type (find_id r.src_type (normalize_name casefold r.src_name) known)
          (find_id r.dst_type (normalize_name casefold r.dst_name) known) collected in
      let rest = collect_edges known rs next in
      if leb limit (length collected) then collected else rest

  -- `_collect_relations`
  unfoldable pub collect_relations : List ExtractedRelation → List Known → String → List Relation
  unfolding collect_edges collect_mentions
  collect_relations relations known doc_anchor =
      collect_mentions limit doc_anchor (map (λ k. k.id) known) (collect_edges known relations [])

-- The loop of `_persist_extraction`
unfoldable pub extracted :
    (String → String)
    → (String → String)
    → String
    → String
    → ℕ
    → List ExtractedEntity
    → List (ExtractedEntity × Known)
unfolding collect_entities
extracted sha256 casefold owner_segment source_id limit entities =
    collect_entities sha256 casefold owner_segment source_id limit entities []
