-- ===== src/Tests/Memory.antt =====
-- The theorems on knowledge, provenance and confidence at concrete inputs.
use atlas_alpha.Prelude.{
  after, ◌≡◌, refl, ◌≤◌, true, String, none, some, [], ◌∷◌, ◌↔◌, ◌⊎◌, inl, Some, In, length, lookup,
  starts_with, contains, split_words, arith,
}
use atlas_alpha.Value.{Value, text, obj, field, end}
use atlas_alpha.Actions.{ActionResult}
use atlas_alpha.Policy.{default_policy, can, effective_permissions}
use atlas_alpha.Knowledge.{Entity, Relation, identity_acl, can_read}
use atlas_alpha.Knowledge.Access.{Opens, can_read_iff}
use atlas_alpha.Knowledge.Memory.{Graph, query, values, matches_terms}
use atlas_alpha.Knowledge.Memory.Reads.{query-IsScoped, query-IsComplete}
use atlas_alpha.Tests.Fixtures.{bob, carol}

abbrev note : Entity
note = record carol { id = "ext:alice:doc:1"; acl = identity_acl "alice" ∷ [] }

abbrev graph : Graph
graph = record {
  entities = ("e1", carol) ∷ ("ext:alice:doc:1", note) ∷ [];
  relations = [];
  policy = some default_policy;
}

abbrev edge : Relation
edge = record { src_id = "e1"; dst_id = "ext:alice:doc:1"; type = "mentions" }

can_read_iff_example :
    (can_read (some bob) carol (some default_policy) ≡ true)
    ↔ ((carol.acl ≡ []) ⊎ Some (Opens default_policy (some bob)) carol.acl)
can_read_iff_example = can_read_iff (some bob) carol (some default_policy)

query-IsScoped_example :
    (length (query (λ s. s) (some bob) "Carol" 1 graph) ≤ 1)
    × ((e : Entity)
        → In e (query (λ s. s) (some bob) "Carol" 1 graph)
        → In e (values graph.entities)
          × (can_read (some bob) e (some default_policy) ≡ true)
          × (matches_terms (λ s. s) (split_words "Carol") e ≡ true))
query-IsScoped_example = query-IsScoped (λ s. s) (some bob) "Carol" 1 graph

query-IsComplete_example : In carol (query (λ s. s) (some bob) "" 5 graph)
unfolding split_words can_read can effective_permissions lookup contains starts_with identity_acl
    after
query-IsComplete_example =
    query-IsComplete (λ s. s) (some bob) "" 5 graph carol (omega arith) (inl refl) refl refl

abbrev found : ActionResult
found = record {
  action_id = "act_2";
  tool = "search";
  ok = true;
  output = obj (field "source" (text "web") end);
  error = none;
}

abbrev shown : Value → String
shown v = ""
