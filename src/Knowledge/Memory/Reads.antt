-- ===== src/Knowledge/Memory/Reads.antt =====
-- Reads of the in-memory graph are scoped by access.
use atlas_alpha.Prelude.{
  ℕ, ◌≤◌, ◌≡◌, true, String, Option, List, and_iff, In, In-keep_to, In-keep_of, In-take, take_all,
  length-take-le, length, split_words,
}
use atlas_alpha.Policy.{Principal}
use atlas_alpha.Knowledge.{Entity, can_read}
use atlas_alpha.Knowledge.Memory.{Graph, values, matches_terms, hits, query}

module _ (lower : String → String) (principal : Option Principal) (text : String) (limit : ℕ)
    (g : Graph) where
  abbrev terms : List String
  terms = split_words (lower text)

  -- A query returns at most `limit` entities, each of them stored, readable by the principal under
  -- the graph's policy and matching the terms.
  pub query-IsScoped :
      (length (query lower principal text limit g) ≤ limit)
      × ((e : Entity)
          → In e (query lower principal text limit g)
          → In e (values g.entities)
            × (can_read principal e g.policy ≡ true)
            × (matches_terms lower terms e ≡ true))
  unfolding query
  query-IsScoped = (
    length-take-le limit (hits lower principal terms g.policy (values g.entities)),
    λ e h.
        let (q, stored) = In-keep_to _ e (values g.entities) (In-take limit e _ h) in
        let (r, m) = (and_iff _ _).0 q in (stored, r, m),
  )

  -- A stored entity that the principal may read and that matches is returned, where the limit leaves
  -- room for all of them.
  pub query-IsComplete :
      (e : Entity)
      → length (hits lower principal terms g.policy (values g.entities)) ≤ limit
      → In e (values g.entities)
      → can_read principal e g.policy ≡ true
      → matches_terms lower terms e ≡ true
      → In e (query lower principal text limit g)
  unfolding query
  query-IsComplete e room stored readable matching =
      rw (take_all limit (hits lower principal terms g.policy (values g.entities)) room)
        (In-keep_of _ e (values g.entities) ((and_iff _ _).1 (readable, matching)) stored)
