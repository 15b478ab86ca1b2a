-- ===== src/Execution/Idempotency.antt =====
-- Guarded execution never raises, runs a gated action at most once, and only adds to the log.
use atlas_alpha.Prelude.{
  ◌≡◌, refl, sym, ap, ◌∙◌, subst, Bool, true, false, ◌&&◌, Option, some, arith, Dict, Bool-cases,
  and_iff, ◌⊎◌, inl, inr,
}
use atlas_alpha.Prelude.Result.{Result, ok, err}
use atlas_alpha.Actions.{tier, requires_approval, ProposedAction, ActionResult}
use atlas_alpha.Policy.{Principal}
use atlas_alpha.Audit.{Env, Log, AuditToolContext, failed, replay_skipped}
use atlas_alpha.Audit.Recorders.{
  has_executed, log_executed, log_failed, log_replay_skipped, merge_detail, outcome_detail,
  reason_detail,
}
use atlas_alpha.Audit.Growth.{
  Grows, record_event-Grows, log_executed-total, log_executed-has_executed, has_executed-Extends,
}
use atlas_alpha.Registry.{Tool, execute}
use atlas_alpha.Execution.{State, replay_result, record_result, execute_guarded}

abbrev is_ok_result : Result ActionResult → Bool
is_ok_result (ok r) = r.ok
is_ok_result (err _) = false

module _ (env : Env) {W : Type 0} (tools : Dict (Tool W)) (action : ProposedAction)
    (principal : Principal) where
  -- A gated action that has executed runs no tool: the world is left alone, and the answer is a
  -- success for the same action.
  pub execute_guarded-replay :
      (extra : Option AuditToolContext) (s : State W)
      → requires_approval (tier action.risk_tier) ≡ true
      → has_executed action.action_id s.log ≡ true
      → (result : ActionResult) × ((execute_guarded env tools action principal extra s).0
          ≡ ok result)
        × (result.ok ≡ true)
        × (result.action_id ≡ action.action_id)
        × ((execute_guarded env tools action principal extra s).1.world ≡ s.world)
  unfolding execute_guarded replay_result
  execute_guarded-replay extra s gated done = (
    replay_result action (log_replay_skipped env action "already executed" extra s.log),
    rw (gated, done),
    refl,
    refl,
    rw (gated, done),
  )

  -- The audit of a result never raises.
  record_result-total :
      (result : ActionResult) (extra : Option AuditToolContext) (s : State W)
      → (record_result env result extra s).0 ≡ ok result
  unfolding record_result log_executed
  record_result-total result extra s = ground arith

  record_result-world :
      (result : ActionResult) (extra : Option AuditToolContext) (s : State W)
      → (record_result env result extra s).1.world ≡ s.world
  unfolding record_result log_executed
  record_result-world result extra s = ground arith

  record_result-ok :
      (result : ActionResult) (extra : Option AuditToolContext) (s : State W) (log : Log)
      → result.ok ≡ true
      → log_executed env result extra s.log ≡ ok log
      → record_result env result extra s ≡ (ok result, record s { log = log })
  unfolding record_result
  record_result-ok result extra s log h e = ground arith

  record_result-failed :
      (result : ActionResult) (extra : Option AuditToolContext) (s : State W)
      → result.ok ≡ false
      → record_result env result extra s
        ≡ (ok result, record s { log = log_failed env result extra s.log })
  unfolding record_result
  record_result-failed result extra s h = ground arith

  record_result-executes :
      (result : ActionResult) (extra : Option AuditToolContext) (s : State W)
      → result.ok ≡ true
      → has_executed result.action_id (record_result env result extra s).1.log ≡ true
  record_result-executes result extra s h =
      let (log, e, _) = log_executed-total env result extra s.log h in
      rw (record_result-ok result extra s log h e)
        (log_executed-has_executed env result extra s.log log e)

  record_result-Grows :
      (result : ActionResult) (extra : Option AuditToolContext) (s : State W)
      → Grows env s.log (record_result env result extra s).1.log
  unfolding log_failed
  record_result-Grows result extra s = elim (Bool-cases result.ok) [
    | inl h ↦
        let (log, e, g) = log_executed-total env result extra s.log h in
        rw (record_result-ok result extra s log h e) g
    | inr h ↦ rw (record_result-failed result extra s h) (
        record_event-Grows env failed result.action_id (some result.tool) "system"
          (merge_detail (outcome_detail env result) extra) s.log)
  ]

  execute-action_id :
      (world : W) → (execute action principal tools world).0.action_id ≡ action.action_id
  unfolding execute
  execute-action_id world = ground arith

  abbrev pub is_replay : State W → Bool
  is_replay s = requires_approval (tier action.risk_tier) && has_executed action.action_id s.log

  -- The state with the fresh result's effects on the world, and that result.
  abbrev after_run : State W → State W
  after_run s = record s { world = (execute action principal tools s.world).1 }

  abbrev fresh_result : State W → ActionResult
  fresh_result s = (execute action principal tools s.world).0

  execute_guarded-skip :
      (extra : Option AuditToolContext) (s : State W)
      → is_replay s ≡ true
      → execute_guarded env tools action principal extra s ≡ (
        ok (replay_result action (log_replay_skipped env action "already executed" extra s.log)),
        record s { log = log_replay_skipped env action "already executed" extra s.log },
      )
  unfolding execute_guarded
  execute_guarded-skip extra s h = rw h

  execute_guarded-run :
      (extra : Option AuditToolContext) (s : State W)
      → is_replay s ≡ false
      → execute_guarded env tools action principal extra s
        ≡ record_result env (fresh_result s) extra (after_run s)
  unfolding execute_guarded
  execute_guarded-run extra s h = rw h

  -- A call that is not a replay runs the tool once, and one that is runs nothing.
  pub execute_guarded-world :
      (extra : Option AuditToolContext) (s : State W)
      → let world = (execute_guarded env tools action principal extra s).1.world in
        ((is_replay s ≡ true) × (world ≡ s.world))
        ⊎ ((is_replay s ≡ false) × (world ≡ (execute action principal tools s.world).1))
  execute_guarded-world extra s = elim (Bool-cases (is_replay s)) [
    | inl e ↦ inl (e, rw (execute_guarded-skip extra s e) refl)
    | inr e ↦ inr (
      e,
      rw (execute_guarded-run extra s e) (record_result-world (fresh_result s) extra (after_run s)),
    )
  ]

  -- Every call returns a result for its action, and the log grows by events only.
  pub execute_guarded-total :
      (extra : Option AuditToolContext) (s : State W)
      → (result : ActionResult) × ((execute_guarded env tools action principal extra s).0
          ≡ ok result)
        × (result.action_id ≡ action.action_id)
        × Grows env s.log (execute_guarded env tools action principal extra s).1.log
  unfolding replay_result log_replay_skipped
  execute_guarded-total extra s = elim (Bool-cases (is_replay s)) [
    | inl e ↦ (
      replay_result action (log_replay_skipped env action "already executed" extra s.log),
      rw (execute_guarded-skip extra s e),
      refl,
      rw (execute_guarded-skip extra s e) (
          record_event-Grows env replay_skipped action.action_id (some action.tool) "system"
            (merge_detail (reason_detail env "already executed") extra) s.log),
    )
    | inr e ↦ (
      fresh_result s,
      rw (execute_guarded-run extra s e) (record_result-total (fresh_result s) extra (after_run s)),
      execute-action_id s.world,
      rw (execute_guarded-run extra s e) (record_result-Grows (fresh_result s) extra (after_run s)),
    )
  ]

  -- Once a call for a gated action has succeeded, its action counts as executed.
  execute_guarded-executes :
      (extra : Option AuditToolContext) (s : State W) (result : ActionResult)
      → requires_approval (tier action.risk_tier) ≡ true
      → (execute_guarded env tools action principal extra s).0 ≡ ok result
      → result.ok ≡ true
      → has_executed action.action_id (execute_guarded env tools action principal extra s).1.log
        ≡ true
  execute_guarded-executes extra s result gated h success = elim (Bool-cases (is_replay s)) [
    | inl e ↦
        has_executed-Extends action.action_id s.log _ (execute_guarded-total extra s).3.extends
          (((and_iff _ _).0 e).1)
    | inr e ↦
        let run : execute_guarded env tools action principal extra s
            ≡ record_result env (fresh_result s) extra (after_run s) =
          execute_guarded-run extra s e in
        let same : ok (fresh_result s) ≡ ok result =
          sym (record_result-total (fresh_result s) extra (after_run s))
          ∙ ap (λ x. x.0) (sym run)
          ∙ h in
        let good : (fresh_result s).ok ≡ true = ap is_ok_result same ∙ success in
        rw run (
          subst
            (λ id.
              has_executed id (record_result env (fresh_result s) extra (after_run s)).1.log ≡ true)
            (execute-action_id s.world)
            (record_result-executes (fresh_result s) extra (after_run s) good))
  ]

  -- A gated action that has succeeded once is not run again: the next call, for whichever context,
  -- leaves the world as the first one left it.
  pub execute_guarded-once :
      (extra extra' : Option AuditToolContext) (s : State W) (result : ActionResult)
      → requires_approval (tier action.risk_tier) ≡ true
      → (execute_guarded env tools action principal extra s).0 ≡ ok result
      → result.ok ≡ true
      → let (_, s') = execute_guarded env tools action principal extra s in
        (execute_guarded env tools action principal extra' s').1.world ≡ s'.world
  execute_guarded-once extra extra' s result gated h success =
      (execute_guarded-replay extra' _ gated
        (execute_guarded-executes extra s result gated h success)).4
