-- ===== src/Audit/Chain.antt =====
-- The hash chain: what `verify_chain` accepts, and that appending keeps it intact.
use atlas_alpha.Prelude.{
  ℕ, suc, ◌≡◌, refl, true, String, Option, none, some, [], ◌∷◌, ◌++◌, ◌↔◌, arith, eq_iff, get_last?,
  get_last?-cons,
}
use atlas_alpha.Audit.{
  Env, Log, AuditEvent, ChainedAuditRecord, genesis_hash, compute_event_hash, verify_from,
  verify_chain, link, append_event,
}

module _ (env : Env) where
  -- Every record stands at its position, names the digest before it and carries its own digest.
  abbrev pub Linked : String → ℕ → Log → Type 0
  Linked prev index [] = Unit
  Linked prev index (r ∷ records) =
      (r.seq ≡ index)
      × (r.prev_hash ≡ prev)
      × (compute_event_hash env r.prev_hash r.event ≡ r.event_hash)
      × Linked r.event_hash (suc index) records

  verify_from_sound :
      (records : Log) (prev : String) (index : ℕ)
      → (verify_from env prev index records).ok ≡ true
      → Linked prev index records
  unfolding verify_from
  verify_from_sound [] prev index h = tt
  verify_from_sound (r ∷ records) prev index h = ground (
    arith,
    eq_iff r.prev_hash prev,
    eq_iff (compute_event_hash env r.prev_hash r.event) r.event_hash,
    verify_from_sound records r.event_hash (suc index),
  )

  verify_from_complete :
      (records : Log) (prev : String) (index : ℕ)
      → Linked prev index records
      → (verify_from env prev index records).ok ≡ true
  unfolding verify_from
  verify_from_complete [] prev index h = refl
  verify_from_complete (r ∷ records) prev index h = ground (
    arith,
    eq_iff r.prev_hash prev,
    eq_iff (compute_event_hash env r.prev_hash r.event) r.event_hash,
    verify_from_complete records r.event_hash (suc index) h.3,
  )

  -- The verification of a log succeeds exactly when the log is a linked chain from the genesis digest.
  pub verify_chain-ok_iff :
      (records : Log) → ((verify_chain env records).ok ≡ true) ↔ Linked genesis_hash 0 records
  unfolding verify_chain
  verify_chain-ok_iff records =
      (verify_from_sound records genesis_hash 0, verify_from_complete records genesis_hash 0)

  -- `link`, for a chain that starts at any index and digest.
  abbrev link_from : String → ℕ → Option ChainedAuditRecord → AuditEvent → ChainedAuditRecord
  link_from prev index none event = record {
    seq = index;
    event = event;
    prev_hash = prev;
    event_hash = compute_event_hash env prev event;
  }
  link_from prev index (some tail) event = record {
    seq = suc tail.seq;
    event = event;
    prev_hash = tail.event_hash;
    event_hash = compute_event_hash env tail.event_hash event;
  }

  link-eq-link_from :
      (tail : Option ChainedAuditRecord) (event : AuditEvent)
      → link env tail event ≡ link_from genesis_hash 0 tail event
  unfolding link
  link-eq-link_from none event = refl
  link-eq-link_from (some tail) event = refl

  link_from-cons :
      (prev : String) (index : ℕ) (r : ChainedAuditRecord) (records : Log) (event : AuditEvent)
      → r.seq ≡ index
      → link_from prev index (get_last? (r ∷ records)) event
        ≡ link_from r.event_hash (suc index) (get_last? records) event
  link_from-cons prev index r [] event h = rw h
  link_from-cons prev index r (s ∷ records) event h = let (t, e) = get_last?-cons s records in rw e

  Linked-snoc :
      (records : Log) (prev : String) (index : ℕ) (event : AuditEvent)
      → Linked prev index records
      → Linked prev index (records ++ link_from prev index (get_last? records) event ∷ [])
  Linked-snoc [] prev index event h = (refl, refl, refl, tt)
  Linked-snoc (r ∷ records) prev index event h = (
    h.0,
    h.1,
    h.2,
    rw (link_from-cons prev index r records event h.0)
        (Linked-snoc records r.event_hash (suc index) event h.3),
  )

  pub Linked-append_event :
      (event : AuditEvent) (log : Log)
      → Linked genesis_hash 0 log
      → Linked genesis_hash 0 (append_event env event log)
  unfolding append_event
  Linked-append_event event log h =
      rw (link-eq-link_from (get_last? log) event) (Linked-snoc log genesis_hash 0 event h)
