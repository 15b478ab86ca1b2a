-- ===== src/Knowledge/Ingestion/Extraction/Anchored.antt =====
-- The relations that are kept of an extractor's answer.
use atlas_alpha.Prelude.{
  ℕ, suc, ◌≤◌, leb, ◌≡◌, refl, ap, false, ◌&&◌, String, Option, none, some, List, [], ◌∷◌, ◌++◌,
  ◌==◌, arith, any, length, map, In, All, ◌⊎◌, inl, inr, Bool-cases,
}
use mathlib.Core.Option.{some-injective}
use atlas_alpha.Knowledge.{Relation}
use atlas_alpha.Knowledge.Memory.{same_relation}
use atlas_alpha.Knowledge.Memory.Writes.{Distinct, Distinct-concat}
use atlas_alpha.Knowledge.Ingestion.Extraction.{
  ExtractedRelation, Known, find_id, normalize_name, add_edge, resolved_edge, collect_edges,
  collect_mentions, collect_relations,
}

abbrev ids : List Known → List String
ids known = map (λ k. k.id) known

find_id-In :
    (kind name id : String) (known : List Known)
    → find_id kind name known ≡ some id
    → In id (ids known)
unfolding find_id
find_id-In kind name id [] h = cc
find_id-In kind name id (k ∷ known) h = elim (Bool-cases (k.kind == kind && k.name == name)) [
  | inl e ↦ let here : some k.id ≡ some id = rw e at h in inl (some-injective k.id id here)
  | inr e ↦ inr (find_id-In kind name id known (rw e at h))
]

-- An edge that ends at an extracted entity, and starts at one or at the document.
pub record IsAnchored (known : List Known) (doc_anchor : String) (r : Relation) : Type 0 where
  pub source : In r.src_id (ids known) ⊎ (r.src_id ≡ doc_anchor)
  pub target : In r.dst_id (ids known)

-- No edge stands twice, all are anchored, and there are no more than the limit.
record IsKept (known : List Known) (doc_anchor : String) (limit : ℕ) (rs : List Relation)
    : Type 0 where
  distinct : Distinct rs
  anchored : All (IsAnchored known doc_anchor) rs
  bounded : length rs ≤ limit

All-concat :
    (P : Relation → Type 0) (rs : List Relation) (r : Relation)
    → All P rs
    → P r
    → All P (rs ++ r ∷ [])
All-concat P [] r h p = (p, tt)
All-concat P (x ∷ rs) r h p = (h.0, All-concat P rs r h.1 p)

length-concat : (rs : List Relation) (r : Relation) → length (rs ++ r ∷ []) ≡ suc (length rs)
length-concat [] r = refl
length-concat (x ∷ rs) r = ap (λ n. suc n) (length-concat rs r)

module _ (known : List Known) (doc_anchor : String) (limit : ℕ) where
  add_edge-IsKept :
      (r : Relation) (rs : List Relation)
      → IsAnchored known doc_anchor r
      → leb limit (length rs) ≡ false
      → IsKept known doc_anchor limit rs
      → IsKept known doc_anchor limit (add_edge r rs)
  add_edge-IsKept r rs anchor room kept = elim (Bool-cases (any (λ s. same_relation s r) rs)) [
    | inl e ↦ rw e kept
    | inr e ↦ rw e (record {
      distinct = Distinct-concat rs r kept.distinct e;
      anchored = All-concat (IsAnchored known doc_anchor) rs r kept.anchored anchor;
      bounded = let q = length-concat rs r in ground arith;
    })
  ]

  resolved_edge-IsKept :
      (type : String) (src dst : Option String) (rs : List Relation)
      → ((id : String) → src ≡ some id → In id (ids known))
      → ((id : String) → dst ≡ some id → In id (ids known))
      → leb limit (length rs) ≡ false
      → IsKept known doc_anchor limit rs
      → IsKept known doc_anchor limit (resolved_edge type src dst rs)
  resolved_edge-IsKept type (some src) (some dst) rs s d room kept =
      add_edge-IsKept (record { src_id = src; dst_id = dst; type = type }) rs
        (record { source = inl (s src refl); target = d dst refl }) room kept
  resolved_edge-IsKept type none dst rs s d room kept = kept
  resolved_edge-IsKept type (some src) none rs s d room kept = kept

  collect_edges-IsKept :
      (casefold : String → String) (relations : List ExtractedRelation) (rs : List Relation)
      → IsKept known doc_anchor limit rs
      → IsKept known doc_anchor limit (collect_edges casefold limit known relations rs)
  unfolding collect_edges
  collect_edges-IsKept casefold [] rs kept = kept
  collect_edges-IsKept casefold (r ∷ relations) rs kept =
      elim (Bool-cases (leb limit (length rs))) [
        | inl e ↦ rw e kept
        | inr e ↦ rw e (
            collect_edges-IsKept casefold relations _ (
              resolved_edge-IsKept r.type
                (find_id r.src_type (normalize_name casefold r.src_name) known)
                (find_id r.dst_type (normalize_name casefold r.dst_name) known) rs
                (λ id f. find_id-In r.src_type (normalize_name casefold r.src_name) id known f)
                (λ id f. find_id-In r.dst_type (normalize_name casefold r.dst_name) id known f) e
                kept))
      ]

  collect_mentions-IsKept :
      (some_ids : List String) (rs : List Relation)
      → ((id : String) → In id some_ids → In id (ids known))
      → IsKept known doc_anchor limit rs
      → IsKept known doc_anchor limit (collect_mentions limit doc_anchor some_ids rs)
  unfolding collect_mentions
  collect_mentions-IsKept [] rs f kept = kept
  collect_mentions-IsKept (id ∷ some_ids) rs f kept = elim (Bool-cases (leb limit (length rs))) [
    | inl e ↦ rw e kept
    | inr e ↦ rw e (
        collect_mentions-IsKept some_ids _ (λ x i. f x (inr i))
          (add_edge-IsKept (record { src_id = doc_anchor; dst_id = id; type = "mentions" }) rs
            (record { source = inr refl; target = f id (inl refl) }) e kept))
  ]

-- The relations that are kept are no more than the limit and no edge stands twice; each ends at an
-- extracted entity and starts at one or at the document's first chunk, so that no edge dangles.
pub collect_relations-IsAnchored :
    (casefold : String → String) (limit : ℕ) (relations : List ExtractedRelation)
    (known : List Known) (doc_anchor : String)
    → let kept = collect_relations casefold limit relations known doc_anchor in
      (length kept ≤ limit) × Distinct kept × All (IsAnchored known doc_anchor) kept
unfolding collect_relations
collect_relations-IsAnchored casefold limit relations known doc_anchor =
    let empty : IsKept known doc_anchor limit [] = record {
      distinct = tt;
      anchored = tt;
      bounded = omega arith;
    } in
    let kept =
      collect_mentions-IsKept known doc_anchor limit (ids known) _ (λ id i. i)
        (collect_edges-IsKept known doc_anchor limit casefold relations [] empty) in
    (kept.bounded, kept.distinct, kept.anchored)
