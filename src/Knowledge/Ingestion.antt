-- ===== src/Knowledge/Ingestion.antt =====
-- src/atlas/knowledge/ingestion.py: documents become entities and relations of the graph. SHA-256, the
-- case folding of Unicode and the extractor of src/atlas/knowledge/extraction.py are arguments of the
-- service.
pub mod Chunks
pub mod Extraction
pub mod Written
use Prim.Native.Nat.{◌%◌}
use atlas_alpha.Prelude.{
  ℕ, zero, suc, ◌+◌, ◌/◌, ltb, leb, Bool, true, false, not, ◌&&◌, ◌||◌, String, Option, none, some,
  List, [], ◌∷◌, ◌++◌, ◌==◌, append, length, map, if◌then◌else◌,
}
use atlas_alpha.Prelude.Result.{Result, ok, err, raise, ◌>>=◌}
use atlas_alpha.Policy.{Principal, PolicyStore, is_anonymous, can}
use atlas_alpha.Audit.{Env, Log}
use atlas_alpha.Audit.Recorders.{log_ingested}
use atlas_alpha.Knowledge.{Scope, personal, org, Entity, identity_acl}
use atlas_alpha.Knowledge.Memory.{Graph, upsert_entity, persist_extraction}
use atlas_alpha.Knowledge.Ingestion.Chunks.{chunk_text, text_length, text_take}
use atlas_alpha.Knowledge.Ingestion.Extraction.{
  ExtractionResult, extracted, collect_relations, entity_of, known_of,
}

pub record IngestDocument : Type 0 where
  pub text : String
  pub title : String
  pub type : String
  pub scope : Scope
  pub source_id : Option String
  pub org_acl : Option (List String)

pub record IngestionResult : Type 0 where
  pub entity_ids : List String
  pub chunk_count : ℕ
  pub scope : Scope
  pub source_id : String
  pub extracted_entity_count : Option ℕ
  pub relation_count : Option ℕ

-- `IngestionService`, without the graph, which is state.
pub record Service : Type 0 where
  pub policy : PolicyStore
  pub audit : Option Env
  pub chunk_size : ℕ
  pub chunk_overlap : ℕ
  pub extractor : Option (String → Result ExtractionResult)
  pub max_extracted_entities : ℕ
  pub max_extracted_relations : ℕ
  pub sha256 : String → String
  pub casefold : String → String

-- What the scope of a document is resolved to.
pub record Owned : Type 0 where
  pub scope : Scope
  pub acl : List String
  pub owner_segment : String

-- `document.org_acl or DEFAULT_ORG_ACL`
abbrev or_default_acl : Option (List String) → List String
or_default_acl none = "kg:read:org" ∷ []
or_default_acl (some []) = "kg:read:org" ∷ []
or_default_acl (some (entry ∷ acl)) = entry ∷ acl

abbrev personal_owned : Principal → Option (List String) → Result Owned
personal_owned principal (some _) =
    raise "IngestionDenied" "org_acl is not valid for personal scope"
personal_owned principal none = ok (record {
  scope = personal;
  acl = identity_acl principal.user_id ∷ [];
  owner_segment = append "personal:" principal.user_id;
})

-- `_resolve_scope_acl`
resolve_scope_acl : PolicyStore → Principal → Scope → Option (List String) → Result Owned
resolve_scope_acl policy principal personal org_acl = personal_owned principal org_acl
resolve_scope_acl policy principal org org_acl =
    if not (can policy (some principal) (some "kg:write:org"))
    then raise "IngestionDenied" "principal is not permitted to write organization knowledge"
    else ok (record { scope = org; acl = or_default_acl org_acl; owner_segment = "org" })

-- `_source_id_for`
source_id_for : (String → String) → IngestDocument → String
source_id_for sha256 document = elim document.source_id [
  | some source_id ↦ if source_id == "" then text_take 16 (sha256 document.title) else source_id
  | none ↦ text_take 16 (sha256 document.title)
]

-- A number in decimal: what Python's `format` writes, with `fuel` digits at most.
abbrev digit : ℕ → String
digit n =
    if leb n 0
    then "0"
    else if leb n 1
    then "1"
    else if leb n 2
    then "2"
    else if leb n 3
    then "3"
    else if leb n 4
    then "4"
    else if leb n 5
    then "5"
    else if leb n 6
    then "6"
    else if leb n 7
    then "7"
    else if leb n 8
    then "8"
    else "9"

-- A number needs no more digits than one more than its value.
decimal_from : ℕ → ℕ → String
decimal_from zero n = ""
decimal_from (suc fuel) n =
    let front = decimal_from fuel (n / 10) in
    if ltb n 10 then digit n else append front (digit (n % 10))

abbrev decimal : ℕ → String
unfolding decimal_from
decimal n = decimal_from (suc n) n

abbrev pad : String → String
pad s =
    if ltb (text_length s) 2
    then append "000" s
    else if ltb (text_length s) 3
    then append "00" s
    else if ltb (text_length s) 4
    then append "0" s
    else s

-- The entity of a chunk.
chunk_entity : IngestDocument → Owned → String → ℕ → String → Entity
unfolding decimal_from
chunk_entity document owned source_id index chunk = record {
  id =
      append (append (append (append owned.owner_segment ":") source_id) ":") (pad (decimal index));
  type = document.type;
  name = append (append (append document.title " [") (decimal index)) "]";
  content = chunk;
  acl = owned.acl;
  scope = owned.scope;
}

-- The loop over the chunks, from an index on.
chunk_entities : IngestDocument → Owned → String → ℕ → List String → List Entity
unfolding chunk_entity
chunk_entities document owned source_id index [] = []
chunk_entities document owned source_id index (chunk ∷ chunks) =
    chunk_entity document owned source_id index chunk
    ∷ chunk_entities document owned source_id (suc index) chunks

write_all : List Entity → Graph → Graph
write_all [] g = g
write_all (e ∷ es) g = write_all es (upsert_entity e g)

abbrev first_id : List Entity → String
first_id [] = ""
first_id (e ∷ es) = e.id

abbrev scope_value : Scope → String
scope_value personal = "personal"
scope_value org = "org"

-- A document without a chunk is refused.
abbrev filled : Principal → Owned → List String → Result (Principal × Owned × List String)
filled principal owned [] = raise "IngestionDenied" "document text is empty"
filled principal owned (chunk ∷ chunks) = ok (principal, owned, chunk ∷ chunks)

module _ (service : Service) where
  -- `_persist_extraction`: the number of entities, that of relations, and the graph
  persist : ExtractionResult → Owned → String → String → Graph → ℕ × ℕ × Graph
  persist result owned source_id doc_anchor g =
      let found =
        extracted service.sha256 service.casefold owned.owner_segment source_id
          service.max_extracted_entities result.entities in
      let relations =
        collect_relations service.casefold service.max_extracted_relations result.relations
          (map known_of found) doc_anchor in
      (
        length found,
        length relations,
        persist_extraction owned.owner_segment source_id
            (map (entity_of owned.scope owned.acl) found) relations g,
      )

  abbrev persisted : Result ExtractionResult → Owned → String → String → Graph → ℕ × ℕ × Graph
  unfolding persist
  persisted (ok result) owned source_id doc_anchor g = persist result owned source_id doc_anchor g
  persisted (err _) owned source_id doc_anchor g = (0, 0, g)

  -- `_enrich_with_extraction`, given the extractor, with the counts as `ingest` reports them
  enrich :
      Option (String → Result ExtractionResult)
      → String
      → Owned
      → String
      → String
      → Graph
      → Option ℕ × Option ℕ × Graph
  unfolding persist
  enrich none text owned source_id doc_anchor g = (none, none, g)
  enrich (some extract) text owned source_id doc_anchor g =
      let (entities, relations, g') = persisted (extract text) owned source_id doc_anchor g in
      (some entities, some relations, g')

  abbrev audited : String → String → ℕ → String → Option ℕ → Option ℕ → Log → Log
  audited source_id scope count actor entities relations log = elim service.audit [
    | some env ↦ log_ingested env source_id scope count actor entities relations log
    | none ↦ log
  ]

  -- What `ingest` does once the scope and the chunks are known.
  write :
      Principal
      → IngestDocument
      → Owned
      → List String
      → Graph × Log
      → IngestionResult × (Graph × Log)
  unfolding chunk_entities write_all enrich source_id_for
  write principal document owned chunks (g, log) =
      let source_id = source_id_for service.sha256 document in
      let entities = chunk_entities document owned source_id 0 chunks in
      let (extracted_count, relation_count, g') =
        enrich service.extractor document.text owned source_id (first_id entities)
          (write_all entities g) in
      (
        record {
          entity_ids = map (λ e. e.id) entities;
          chunk_count = length entities;
          scope = owned.scope;
          source_id = source_id;
          extracted_entity_count = extracted_count;
          relation_count = relation_count;
        },
        (
          g',
          audited source_id (scope_value owned.scope) (length entities) principal.user_id
              extracted_count relation_count log,
        ),
      )

  -- The checks of `ingest`, in their order: what is to be written, or the refusal.
  prepare : Option Principal → IngestDocument → Result (Principal × Owned × List String)
  unfolding resolve_scope_acl
  prepare none document = raise "IngestionDenied" "authentication required to ingest knowledge"
  prepare (some principal) document =
      if is_anonymous principal
      then raise "IngestionDenied" "authentication required to ingest knowledge"
      else do
        owned ← resolve_scope_acl service.policy principal document.scope document.org_acl
        chunks ← chunk_text document.text service.chunk_size service.chunk_overlap
        filled principal owned chunks

  abbrev finish :
      Result (Principal × Owned × List String)
      → IngestDocument
      → Graph × Log
      → Result IngestionResult × (Graph × Log)
  unfolding write
  finish (err e) document s = (err e, s)
  finish (ok (principal, owned, chunks)) document s =
      let (result, s') = write principal document owned chunks s in (ok result, s')

  unfoldable pub ingest :
      Option Principal → IngestDocument → Graph × Log → Result IngestionResult × (Graph × Log)
  unfolding prepare write
  ingest principal document s = finish (prepare principal document) document s
