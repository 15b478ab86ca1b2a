-- ===== src/Confidence/Provenance.antt =====
-- Provenance without duplicates, and only from what passed the gates.
use atlas_alpha.Prelude.{
  ◌≡◌, refl, sym, subst, Bool, true, false, String, Option, none, some, List, [], ◌∷◌, ◌++◌, eq_iff,
  eq_refl, arith, any, any-append, ◌⊎◌, inl, inr, Bool-cases, Option-cases, Some, Some-append, In,
}
use atlas_alpha.Value.{Value}
use atlas_alpha.Actions.{ActionResult}
use atlas_alpha.Knowledge.{Entity}
use atlas_alpha.Confidence.{
  Source, same_key, add_source, tool_source, label_of, entity_source, from_results, from_entities,
  collect_sources,
}

-- No key stands twice.
abbrev pub HasDistinctKeys : List Source → Type 0
HasDistinctKeys [] = Unit
HasDistinctKeys (s ∷ ss) = (any (λ t. same_key t s) ss ≡ false) × HasDistinctKeys ss

same_key-sym : (a b : Source) → same_key a b ≡ false → same_key b a ≡ false
same_key-sym a b h = ground (arith, eq_iff a.ref b.ref, eq_iff b.ref a.ref)

HasDistinctKeys-concat :
    (ss : List Source) (t : Source)
    → HasDistinctKeys ss
    → any (λ s. same_key s t) ss ≡ false
    → HasDistinctKeys (ss ++ t ∷ [])
HasDistinctKeys-concat [] t d h = (refl, tt)
HasDistinctKeys-concat (s ∷ ss) t d h = (
  ground (arith, any-append (λ x. same_key x s) ss (t ∷ []), d.0, same_key-sym s t),
  HasDistinctKeys-concat ss t d.1 (ground arith),
)

add_source-HasDistinctKeys :
    (t : Source) (ss : List Source) → HasDistinctKeys ss → HasDistinctKeys (add_source t ss)
unfolding add_source
add_source-HasDistinctKeys t ss d = elim (Bool-cases (any (λ s. same_key s t) ss)) [
  | inl e ↦ rw e d
  | inr e ↦ rw e (HasDistinctKeys-concat ss t d e)
]

-- Whatever is in the list after an addition was there or is the addition.
In-add_source : (x t : Source) (ss : List Source) → In x (add_source t ss) → In x ss ⊎ (t ≡ x)
unfolding add_source
In-add_source x t ss h = elim (Bool-cases (any (λ s. same_key s t) ss)) [
  | inl e ↦ inl (rw e at h)
  | inr e ↦ elim ((Some-append (λ y. y ≡ x) ss (t ∷ [])).0 (rw e at h)) [
    | inl old ↦ inl old
    | inr (inl new) ↦ inr new
    | inr (inr nothing) ↦ absurd nothing
  ]
]

-- After an addition its key is in the list.
any-add_source : (t : Source) (ss : List Source) → any (λ s. same_key s t) (add_source t ss) ≡ true
unfolding add_source
any-add_source t ss = ground (arith, any-append (λ s. same_key s t) ss (t ∷ []), eq_refl t.ref)

any-add_source_mono :
    (p : Source → Bool) (t : Source) (ss : List Source)
    → any p ss ≡ true
    → any p (add_source t ss) ≡ true
unfolding add_source
any-add_source_mono p t ss h = ground (arith, any-append p ss (t ∷ []))

module _ (render : Value → String) where
  -- The source of a result whose output names one.
  abbrev pub CitesResult : Source → ActionResult → Type 0
  CitesResult x r =
      (label : Value) × (label_of render r ≡ some label) × (tool_source render r label ≡ x)

  abbrev pub CitesEntity : Source → Entity → Type 0
  CitesEntity x e = entity_source render e ≡ x

  abbrev add_label : ActionResult → Option Value → List Source → List Source
  add_label r none ss = ss
  add_label r (some label) ss = add_source (tool_source render r label) ss

  from_results-cons :
      (r : ActionResult) (rs : List ActionResult) (ss : List Source)
      → from_results render (r ∷ rs) ss
        ≡ from_results render rs (add_label r (label_of render r) ss)
  unfolding from_results
  from_results-cons r rs ss = elim (Option-cases (label_of render r)) [
    | inl e ↦ rw e refl
    | inr (label, e) ↦ rw e refl
  ]

  from_results-cited :
      (x : Source) (rs : List ActionResult) (ss : List Source)
      → In x (from_results render rs ss)
      → In x ss ⊎ Some (CitesResult x) rs
  unfolding from_results
  from_results-cited x [] ss h = inl h
  from_results-cited x (r ∷ rs) ss h =
      elim (from_results-cited x rs (add_label r (label_of render r) ss)
        (subst (In x) (from_results-cons r rs ss) h)) [
          | inr s ↦ inr (inr s)
          | inl i ↦ added (label_of render r) refl i
        ]
    where
      added :
          (o : Option Value)
          → label_of render r ≡ o
          → In x (add_label r o ss)
          → In x ss ⊎ Some (CitesResult x) (r ∷ rs)
      added none e i = inl i
      added (some label) e i = elim (In-add_source x (tool_source render r label) ss i) [
        | inl old ↦ inl old
        | inr new ↦ inr (inl (label, e, new))
      ]

  from_results-HasDistinctKeys :
      (rs : List ActionResult) (ss : List Source)
      → HasDistinctKeys ss
      → HasDistinctKeys (from_results render rs ss)
  unfolding from_results
  from_results-HasDistinctKeys [] ss d = d
  from_results-HasDistinctKeys (r ∷ rs) ss d =
      subst HasDistinctKeys (sym (from_results-cons r rs ss))
        (from_results-HasDistinctKeys rs _ (added (label_of render r)))
    where
      added : (o : Option Value) → HasDistinctKeys (add_label r o ss)
      added none = d
      added (some label) = add_source-HasDistinctKeys (tool_source render r label) ss d

  from_entities-cited :
      (x : Source) (es : List Entity) (ss : List Source)
      → In x (from_entities render es ss)
      → In x ss ⊎ Some (CitesEntity x) es
  unfolding from_entities
  from_entities-cited x [] ss h = inl h
  from_entities-cited x (e ∷ es) ss h =
      elim (from_entities-cited x es (add_source (entity_source render e) ss) h) [
        | inr s ↦ inr (inr s)
        | inl i ↦ elim (In-add_source x (entity_source render e) ss i) [
          | inl old ↦ inl old
          | inr new ↦ inr (inl new)
        ]
      ]

  from_entities-HasDistinctKeys :
      (es : List Entity) (ss : List Source)
      → HasDistinctKeys ss
      → HasDistinctKeys (from_entities render es ss)
  unfolding from_entities
  from_entities-HasDistinctKeys [] ss d = d
  from_entities-HasDistinctKeys (e ∷ es) ss d =
      from_entities-HasDistinctKeys es _ (add_source-HasDistinctKeys (entity_source render e) ss d)

  from_entities_mono :
      (p : Source → Bool) (es : List Entity) (ss : List Source)
      → any p ss ≡ true
      → any p (from_entities render es ss) ≡ true
  unfolding from_entities
  from_entities_mono p [] ss h = h
  from_entities_mono p (e ∷ es) ss h =
      from_entities_mono p es _ (any-add_source_mono p (entity_source render e) ss h)

  from_entities_complete :
      (x : Entity) (es : List Entity) (ss : List Source)
      → In x es
      → any (λ s. same_key s (entity_source render x)) (from_entities render es ss) ≡ true
  unfolding from_entities
  from_entities_complete x [] ss h = elim h [ ]
  from_entities_complete x (e ∷ es) ss (inl same) =
      from_entities_mono (λ s. same_key s (entity_source render x)) es _
        (subst
          (λ y.
            any (λ s. same_key s (entity_source render y)) (add_source (entity_source render e) ss)
            ≡ true)
          same (any-add_source (entity_source render e) ss))
  from_entities_complete x (e ∷ es) ss (inr h) =
      from_entities_complete x es (add_source (entity_source render e) ss) h

  -- The sources hold no key twice, each stems from the output of a successful result or from a
  -- retrieved entity, and every retrieved entity is cited.
  pub collect_sources-IsProvenance :
      (rs : List ActionResult) (es : List Entity)
      → HasDistinctKeys (collect_sources render rs es)
        × ((x : Source)
            → In x (collect_sources render rs es)
            → Some (CitesResult x) rs ⊎ Some (CitesEntity x) es)
        × ((e : Entity)
            → In e es
            → any (λ s. same_key s (entity_source render e)) (collect_sources render rs es) ≡ true)
  unfolding collect_sources
  collect_sources-IsProvenance rs es = (
    from_entities-HasDistinctKeys es _ (from_results-HasDistinctKeys rs [] tt),
    λ x h. elim (from_entities-cited x es _ h) [
      | inr s ↦ inr s
      | inl i ↦ elim (from_results-cited x rs [] i) [ inl nothing ↦ absurd nothing | inr s ↦ inl s ]
    ],
    λ e h. from_entities_complete e es _ h,
  )
