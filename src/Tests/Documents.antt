-- ===== src/Tests/Documents.antt =====
-- The theorems on ingestion at concrete inputs.
use atlas_alpha.Prelude.{◌≤◌, ◌≡◌, String, none, some, List, [], ◌∷◌, All, arith, length, strip}
use atlas_alpha.Prelude.Result.{ok, raise}
use atlas_alpha.Policy.{default_policy}
use atlas_alpha.Knowledge.{personal}
use atlas_alpha.Knowledge.Memory.{Graph}
use atlas_alpha.Knowledge.Memory.Writes.{Distinct}
use atlas_alpha.Knowledge.Ingestion.Chunks.{chunk_text, text_length}
use atlas_alpha.Knowledge.Ingestion.Chunks.Rejoin.{rejoin, chunk_text-rejoin}
use atlas_alpha.Knowledge.Ingestion.Extraction.{ExtractedRelation, Known, collect_relations}
use atlas_alpha.Knowledge.Ingestion.Extraction.Anchored.{IsAnchored, collect_relations-IsAnchored}
use atlas_alpha.Knowledge.Ingestion.{IngestDocument, IngestionResult, Service}
use atlas_alpha.Tests.Fixtures.{env}

chunk_text-rejoin_example :
    (chunks : List String) × (chunk_text " abcdefgh " 4 1 ≡ ok chunks)
    × (rejoin 1 chunks ≡ strip " abcdefgh ")
    × All (λ c. text_length c ≤ 4) chunks
chunk_text-rejoin_example = chunk_text-rejoin " abcdefgh " 4 1 (omega arith)

abbrev ada : Known
ada = record { kind = "person"; name = "ada"; id = "org:doc:entity:person:1" }

-- One edge between extracted entities, and one to an entity that was not extracted.
abbrev proposed : List ExtractedRelation
proposed =
    record {
      src_name = "ada";
      src_type = "person";
      dst_name = "ada";
      dst_type = "person";
      type = "knows";
    }
    ∷ record {
      src_name = "ada";
      src_type = "person";
      dst_name = "eve";
      dst_type = "person";
      type = "knows";
    }
    ∷ []

collect_relations-IsAnchored_example :
    let kept = collect_relations (λ s. s) 2 proposed (ada ∷ []) "org:doc:0000" in
    (length kept ≤ 2) × Distinct kept × All (IsAnchored (ada ∷ []) "org:doc:0000") kept
collect_relations-IsAnchored_example =
    collect_relations-IsAnchored (λ s. s) 2 proposed (ada ∷ []) "org:doc:0000"

abbrev service : Service
service = record {
  policy = default_policy;
  audit = some env;
  chunk_size = 4;
  chunk_overlap = 1;
  extractor = some (λ text. raise "RuntimeError" "down");
  max_extracted_entities = 64;
  max_extracted_relations = 128;
  sha256 = λ s. s;
  casefold = λ s. s;
}

abbrev note : IngestDocument
note = record {
  text = "abc";
  title = "note";
  type = "doc";
  scope = personal;
  source_id = none;
  org_acl = none;
}

abbrev empty_graph : Graph
empty_graph = record { entities = []; relations = []; policy = none }

abbrev written : IngestionResult
written = record {
  entity_ids = "personal:alice:note:0000" ∷ [];
  chunk_count = 1;
  scope = personal;
  source_id = "note";
  extracted_entity_count = some 0;
  relation_count = some 0;
}
