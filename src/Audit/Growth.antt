-- ===== src/Audit/Growth.antt =====
-- The log only grows: recording keeps the chain intact and every earlier record, and an executed
-- action stays executed.
use atlas_alpha.Prelude.{
  ◌≡◌, refl, ap, subst, true, ◌&&◌, String, Option, none, some, [], ◌∷◌, ◌++◌, ◌==◌, eq_refl, arith,
  any-append, any-concat, Extends, Extends-refl, Extends-trans, get_last?, Bool-cases, inl, inr,
}
use atlas_alpha.Prelude.Result.{ok}
use atlas_alpha.Value.{Value, bool, Fields, get}
use atlas_alpha.Value.Merge.{HasUniqueKeys, get-merge_left, get-merge_right}
use atlas_alpha.Actions.{ActionResult}
use atlas_alpha.Audit.{
  Env, Log, AuditEvent, AuditEventType, executed, AuditToolContext, ChainedAuditRecord,
  verify_chain, link, append_event, record_event,
}
use atlas_alpha.Audit.Chain.{verify_chain-ok_iff, Linked-append_event}
use atlas_alpha.Audit.Recorders.{
  events, counts_as_executed, has_executed, merge_detail, dump_context, outcome_detail,
  log_executed,
}

-- A base key keeps its value whatever the extra context holds, and every other key is read from the
-- context.
pub merge_detail-get :
    (base : Fields) (extra : AuditToolContext) (k : String)
    → HasUniqueKeys base
    → ((v : Value) → get k base ≡ some v → get k (merge_detail base (some extra)) ≡ some v)
      × (get k base ≡ none → get k (merge_detail base (some extra)) ≡ get k (dump_context extra))
unfolding merge_detail
merge_detail-get base extra k unique = (
  λ v h. get-merge_right k v (dump_context extra) base unique h,
  λ h. get-merge_left k (dump_context extra) base h,
)

get-merge_detail :
    (base : Fields) (extra : Option AuditToolContext) (k : String) (v : Value)
    → HasUniqueKeys base
    → get k base ≡ some v
    → get k (merge_detail base extra) ≡ some v
unfolding merge_detail
get-merge_detail base none k v unique h = h
get-merge_detail base (some extra) k v unique h =
    get-merge_right k v (dump_context extra) base unique h

events-append : (a b : Log) → events (a ++ b) ≡ events a ++ events b
unfolding events
events-append [] b = refl
events-append (r ∷ a) b = ap (λ l. r.event ∷ l) (events-append a b)

-- What was executed stays executed as the log grows.
pub has_executed-Extends :
    (id : String) (a b : Log) → Extends a b → has_executed id a ≡ true → has_executed id b ≡ true
unfolding has_executed
has_executed-Extends id a b (more, e) h =
    rw
      (
        e,
        events-append a more,
        any-append (λ event. counts_as_executed event && event.action_id == id) (events a)
            (events more),
        h,
      )
      refl

module _ (env : Env) where
  -- The log verifies.
  abbrev pub IsIntact : Log → Type 0
  IsIntact log = (verify_chain env log).ok ≡ true

  -- An intact log stays intact under every event that is appended to it.
  pub append_event-IsIntact :
      (event : AuditEvent) (log : Log) → IsIntact log → IsIntact (append_event env event log)
  append_event-IsIntact event log h =
      (verify_chain-ok_iff env _).1
        (Linked-append_event env event log ((verify_chain-ok_iff env log).0 h))

  module _ (event_type : AuditEventType) (id : String) (tool : Option String) (actor : String)
      (detail : Fields) (log : Log) where
    pub record_event-Extends : Extends log (record_event env event_type id tool actor detail log)
    unfolding record_event
    record_event-Extends = (_, refl)

    pub record_event-IsIntact :
        IsIntact log → IsIntact (record_event env event_type id tool actor detail log)
    unfolding record_event
    record_event-IsIntact h = append_event-IsIntact _ log h

  link-event :
      (tail : Option ChainedAuditRecord) (event : AuditEvent) → (link env tail event).event ≡ event
  unfolding link
  link-event none event = refl
  link-event (some tail) event = refl

  record_event-executes :
      (id : String) (tool : Option String) (actor : String) (detail : Fields) (log : Log)
      → get "ok" detail ≡ some (bool true)
      → has_executed id (record_event env executed id tool actor detail log) ≡ true
  unfolding record_event has_executed
  record_event-executes id tool actor detail log h = rw (events-append log) (
      any-concat (λ event. counts_as_executed event && event.action_id == id) (events log) _
        (rw (link-event (get_last? log)) (rw h (eq_refl id))))

  -- After a successful result is recorded, its action counts as executed, whatever the context.
  pub log_executed-has_executed :
      (result : ActionResult) (extra : Option AuditToolContext) (log log' : Log)
      → log_executed env result extra log ≡ ok log'
      → has_executed result.action_id log' ≡ true
  unfolding log_executed
  log_executed-has_executed result extra log log' h = elim (Bool-cases result.ok) [
    | inl e ↦
        let q : record_event env executed result.action_id (some result.tool) "system"
              (merge_detail (outcome_detail env result) extra) log
            ≡ log' =
          cc in
        subst (λ l. has_executed result.action_id l ≡ true) q
          (record_event-executes result.action_id (some result.tool) "system" _ log (
            get-merge_detail (outcome_detail env result) extra "ok" (bool true)
              (unfold get in (refl, (refl, tt))) (unfold get in (ap (λ b. some (bool b)) e))))
    | inr e ↦ cc
  ]

  -- The second log is the first with more events, and is intact if the first one is.
  pub record Grows (log log' : Log) : Type 0 where
    pub extends : Extends log log'
    pub intact : IsIntact log → IsIntact log'

  pub Grows-refl : (log : Log) → Grows log log
  Grows-refl log = record { extends = Extends-refl log; intact = λ h. h }

  pub Grows-trans : (a b c : Log) → Grows a b → Grows b c → Grows a c
  Grows-trans a b c f g = record {
    extends = Extends-trans a b c f.extends g.extends;
    intact = λ h. g.intact (f.intact h);
  }

  pub record_event-Grows :
      (event_type : AuditEventType) (id : String) (tool : Option String) (actor : String)
      (detail : Fields) (log : Log)
      → Grows log (record_event env event_type id tool actor detail log)
  record_event-Grows event_type id tool actor detail log = record {
    extends = record_event-Extends event_type id tool actor detail log;
    intact = record_event-IsIntact event_type id tool actor detail log;
  }

  log_executed-eq :
      (result : ActionResult) (extra : Option AuditToolContext) (log : Log)
      → result.ok ≡ true
      → log_executed env result extra log
        ≡ ok (
            record_event env executed result.action_id
              (some result.tool)
              "system"
              (merge_detail (outcome_detail env result) extra)
              log)
  unfolding log_executed
  log_executed-eq result extra log h = ground arith

  -- A successful result is recorded without an error.
  pub log_executed-total :
      (result : ActionResult) (extra : Option AuditToolContext) (log : Log)
      → result.ok ≡ true
      → (log' : Log) × (log_executed env result extra log ≡ ok log') × Grows log log'
  log_executed-total result extra log h = (
    record_event env executed result.action_id (some result.tool) "system"
        (merge_detail (outcome_detail env result) extra) log,
    log_executed-eq result extra log h,
    record_event-Grows executed result.action_id (some result.tool) "system"
        (merge_detail (outcome_detail env result) extra) log,
  )
