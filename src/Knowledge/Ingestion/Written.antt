-- ===== src/Knowledge/Ingestion/Written.antt =====
-- What an ingestion writes, and who may read it.
use atlas_alpha.Prelude.{◌≡◌, refl, true, String, Option, some, List, [], ◌∷◌}
use atlas_alpha.Prelude.Result.{Error, Result, ok, err}
use atlas_alpha.Policy.{Principal, can}
use atlas_alpha.Audit.{Log}
use atlas_alpha.Knowledge.{personal, org, Entity, identity_acl}
use atlas_alpha.Knowledge.Memory.{Graph}
use atlas_alpha.Knowledge.Ingestion.{IngestDocument, Service, Owned, prepare, finish, ingest}

-- An entity with the scope and the acl that were resolved for its document.
pub IsStamped : Owned → Entity → Type 0
IsStamped owned e = (e.acl ≡ owned.acl) × (e.scope ≡ owned.scope)

-- Who may write a document, and the scope and the acl that it gets: a personal one is its author's
-- alone, and an organization's one needs the permission for it.
pub data IsAuthorized (service : Service) (principal : Principal) (document : IngestDocument)
    (owned : Owned) : Type 0 where
  own :
      document.scope ≡ personal
      → owned.scope ≡ personal
      → owned.acl ≡ identity_acl principal.user_id ∷ []
      → IsAuthorized service principal document owned
  shared :
      document.scope ≡ org
      → owned.scope ≡ org
      → can service.policy (some principal) (some "kg:write:org") ≡ true
      → IsAuthorized service principal document owned

-- A refused ingestion writes nothing, neither to the graph nor to the log.
pub ingest-refused :
    (service : Service) (principal : Option Principal) (document : IngestDocument) (s : Graph × Log)
    (e : Error)
    → (ingest service principal document s).0 ≡ err e
    → (ingest service principal document s).1 ≡ s
unfolding ingest
ingest-refused service principal document s e h = by_check (prepare service principal document) h
  where
    by_check :
        (r : Result (Principal × Owned × List String))
        → (finish service r document s).0 ≡ err e
        → (finish service r document s).1 ≡ s
    by_check (err _) h = refl
    by_check (ok (p, owned, chunks)) h = cc
