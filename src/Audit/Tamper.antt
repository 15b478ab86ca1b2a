-- ===== src/Audit/Tamper.antt =====
-- Tamper evidence: the last digest of an intact chain fixes every record of it.
use native.Mathlib.Decide.{ℕ_discrete}
use text.Mathlib.TextEquality.{Char-path}
use text.Mathlib.TextLemmas.{cons-eq-cons}
use atlas_alpha.Prelude.{
  ℕ, suc, ◌≡◌, refl, sym, ◌∙◌, ◌≢◌, subst, true, String, List, [], ◌∷◌, ◌++◌, ◌⊎◌, inl, inr, arith,
  length,
}
use atlas_alpha.Audit.{
  Env, Log, AuditEvent, ChainedAuditRecord, genesis_hash, codes, compute_event_hash, verify_chain,
}
use atlas_alpha.Audit.Chain.{Linked, verify_chain-ok_iff}

codes-injective : (s t : String) → codes s ≡ codes t → s ≡ t
codes-injective String.[] String.[] h = refl
codes-injective String.[] (String.◌∷◌ d t) h = cc
codes-injective (String.◌∷◌ c s) String.[] h = cc
codes-injective (String.◌∷◌ c s) (String.◌∷◌ d t) h =
    cons-eq-cons.1 (Char-path c d (cc), codes-injective s t (cc))

-- Two texts of one length, each followed by more, are told apart.
split_equal : (a b c d : List ℕ) → length a ≡ length b → a ++ c ≡ b ++ d → (a ≡ b) × (c ≡ d)
split_equal [] [] c d h e = (refl, e)
split_equal [] (y ∷ b) c d h e = absurd (omega arith)
split_equal (x ∷ a) [] c d h e = absurd (omega arith)
split_equal (x ∷ a) (y ∷ b) c d h e = let (p, q) = split_equal a b c d (omega arith) (cc) in (cc, q)

bytes_discrete : Discrete (List ℕ)
bytes_discrete = hlevel ℕ_discrete

-- The digest that a chain ends with.
abbrev pub end_hash : String → Log → String
end_hash prev [] = prev
end_hash prev (r ∷ records) = end_hash r.event_hash records

module _ (env : Env) where
  -- Two different byte strings with one digest.
  abbrev pub Collision : Type 0
  Collision = (a b : List ℕ) × (a ≢ b) × (env.sha256 a ≡ env.sha256 b)

  -- Record by record the same position, links and event bytes.
  abbrev pub SameChain : Log → Log → Type 0
  SameChain [] [] = Unit
  SameChain (r ∷ records) (s ∷ others) =
      (r.seq ≡ s.seq)
      × (r.prev_hash ≡ s.prev_hash)
      × (r.event_hash ≡ s.event_hash)
      × (env.canonical_event_bytes r.event ≡ env.canonical_event_bytes s.event)
      × SameChain records others
  SameChain _ _ = ⊥

  abbrev pub IsWide : String → Type 0
  IsWide digest = length (codes digest) ≡ 64

  hash-inj :
      (p q : String) (e f : AuditEvent)
      → IsWide p
      → IsWide q
      → compute_event_hash env p e ≡ compute_event_hash env q f
      → ((p ≡ q) × (env.canonical_event_bytes e ≡ env.canonical_event_bytes f)) ⊎ Collision
  unfolding compute_event_hash
  hash-inj p q e f wp wq h =
      elim (bytes_discrete (codes p ++ env.canonical_event_bytes e)
        (codes q ++ env.canonical_event_bytes f)) [
          | yes same ↦
              let (a, b) =
                split_equal (codes p) (codes q) (env.canonical_event_bytes e)
                  (env.canonical_event_bytes f) (wp ∙ sym wq) same in
              inl (codes-injective p q a, b)
          | no differ ↦ inr (
            codes p ++ env.canonical_event_bytes e,
            codes q ++ env.canonical_event_bytes f,
            differ,
            h,
          )
        ]

  module _ (wide : (bytes : List ℕ) → IsWide (env.sha256 bytes)) where
    hash-IsWide :
        (r : ChainedAuditRecord)
        → compute_event_hash env r.prev_hash r.event ≡ r.event_hash
        → IsWide r.event_hash
    unfolding compute_event_hash
    hash-IsWide r h = subst IsWide h (wide _)

    chain_fixed :
        (records others : Log) (p q : String) (index : ℕ)
        → IsWide p
        → IsWide q
        → Linked env p index records
        → Linked env q index others
        → length records ≡ length others
        → end_hash p records ≡ end_hash q others
        → ((p ≡ q) × SameChain records others) ⊎ Collision
    chain_fixed [] [] p q index wp wq lr ls len same = inl (same, tt)
    chain_fixed [] (s ∷ others) p q index wp wq lr ls len same = absurd (omega arith)
    chain_fixed (r ∷ records) [] p q index wp wq lr ls len same = absurd (omega arith)
    chain_fixed (r ∷ records) (s ∷ others) p q index wp wq lr ls len same =
        elim (chain_fixed records others r.event_hash s.event_hash (suc index) (hash-IsWide r lr.2)
          (hash-IsWide s ls.2) lr.3 ls.3 (omega arith) same) [
            | inr c ↦ inr c
            | inl (h, rest) ↦
                elim (hash-inj r.prev_hash s.prev_hash r.event s.event (subst IsWide (sym lr.1) wp)
                  (subst IsWide (sym ls.1) wq) (lr.2 ∙ h ∙ sym ls.2)) [
                    | inr c ↦ inr c
                    | inl (e, b) ↦ inl (sym lr.1 ∙ e ∙ ls.1, (lr.0 ∙ sym ls.0, e, h, b, rest))
                  ]
          ]

    -- Two logs that verify, of one length and with one last digest, hold the same positions, links
    -- and event bytes throughout, or else exhibit a collision of the digest function.
    pub verify_chain-tamper_evident :
        (records others : Log)
        → (verify_chain env records).ok ≡ true
        → (verify_chain env others).ok ≡ true
        → length records ≡ length others
        → end_hash genesis_hash records ≡ end_hash genesis_hash others
        → SameChain records others ⊎ Collision
    verify_chain-tamper_evident records others vr vs len same =
        elim (chain_fixed records others genesis_hash genesis_hash 0 refl refl
          ((verify_chain-ok_iff env records).0 vr) ((verify_chain-ok_iff env others).0 vs) len
          same) [ inl (_, chain) ↦ inl chain | inr c ↦ inr c ]
