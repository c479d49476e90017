-- ===== src/Application/ControlDeck/Accepted.antt =====
-- A legal command of `submit_control` of backend/app/application/control_deck.py is recorded, and
-- `read_trace` of backend/app/application/temporary_history.py shows it.
use organization_ai.Base.{
  ℕ, String, Option, none, some, List, [], ◌∷◌, ◌++◌, ◌≡◌, refl, ap, sym, ◌∙◌, subst,
}
use organization_ai.Base.Result.{Result, ok}
use organization_ai.Domain.Control.Vocabulary.{PlannedControlEvent}
use organization_ai.Persistence.Rows.{DecisionRow, EventRow, Database, StoredTrace}
use organization_ai.Persistence.Repository.{find_trace, insert_rows, add_control_event}
use organization_ai.Persistence.Appended.{find_trace-add_control_event}
use organization_ai.Persistence.Engine.{Engine}
use organization_ai.Persistence.Engine.Keys.{IsConsistent}
use organization_ai.Application.Views.{TraceReadModel, ServiceError, to_trace_model, lift}
use organization_ai.Application.Sound.{IsReplayable, IsSound, Shows, to_trace_model-Shows}
use organization_ai.Application.History.{Effects, read_trace}
use organization_ai.Application.ControlDeck.{
  ControlRequest, plan_on, control_event, after_control_flush, append_control, receipt_of,
  control_locked, submit_control,
}
use organization_ai.Application.ControlDeck.Appended.{
  with_event, control_event_above, IsReplayable-with_event,
}
use organization_ai.Application.ControlDeck.Atomic.{fingerprint_of, Appends}
use organization_ai.Application.ControlDeck.Sound.{
  submit_control-locked, assert_present-some, decision_same,
}

control_event-trace_id :
    (fx : Effects) (rq : ControlRequest) (fingerprint : String) (stored : StoredTrace)
    (planned : PlannedControlEvent)
    → (control_event fx rq fingerprint stored planned).trace_id ≡ rq.trace_id
unfolding control_event
control_event-trace_id fx rq fingerprint stored planned = refl

pub to_trace_model-with_event :
    (stored : StoredTrace) (e : EventRow) (es : List EventRow)
    → to_trace_model stored es ≡ to_trace_model (with_event stored e) es
unfolding to_trace_model
to_trace_model-with_event stored e es = refl

read_trace-found :
    (db : Database) (rq : ControlRequest) {stored : StoredTrace} {view : TraceReadModel}
    → find_trace db rq.trace_id ≡ some stored
    → to_trace_model stored stored.events ≡ ok view
    → read_trace rq.trace_id db ≡ ok view
unfolding read_trace
read_trace-found db rq found shown = rw (found, read_trace, shown) refl

module _ (engine : Engine) (sha256 : List ℕ → String) (fx : Effects) (others : Database → Database)
    (rq : ControlRequest) (db : Database) (stored : StoredTrace) (decision : DecisionRow)
    (planned : PlannedControlEvent) (found : find_trace db rq.trace_id ≡ some stored)
    (fresh : receipt_of engine sha256 fx others rq db ≡ none)
    (has_decision : stored.decision ≡ some decision)
    (plans : plan_on rq stored decision ≡ ok planned) where
  abbrev event : EventRow
  event = control_event fx rq (fingerprint_of sha256 rq) stored planned

  control_locked-planned :
      control_locked engine sha256 fx others rq (fingerprint_of sha256 rq) (some stored) db
      ≡ append_control engine sha256 fx others rq (fingerprint_of sha256 rq) stored decision db
  unfolding control_locked
  control_locked-planned = rw (assert_present-some has_decision, control_locked, fresh) refl

  append_control-planned :
      append_control engine sha256 fx others rq (fingerprint_of sha256 rq) stored decision db
      ≡ after_control_flush rq
          (fingerprint_of sha256 rq)
          stored
          event
          (others db)
          (engine.flush (others db) (add_control_event event))
  unfolding append_control
  append_control-planned = rw (plans, append_control) refl

  submit_control-planned :
      (view : TraceReadModel)
      → IsConsistent (insert_rows (others db) (add_control_event event))
      → to_trace_model stored (stored.events ++ event ∷ []) ≡ ok view
      → submit_control engine sha256 fx others rq db
        ≡ (ok view, insert_rows (others db) (add_control_event event))
  unfolding after_control_flush
  submit_control-planned view kept shown =
      submit_control-locked engine sha256 fx others rq db
      ∙ ap
          (λ (locked : Option StoredTrace).
            control_locked engine sha256 fx others rq (fingerprint_of sha256 rq) locked db)
          found
      ∙ control_locked-planned
      ∙ append_control-planned
      ∙ rw
          (
            engine.flush_accepts (others db) (add_control_event event) kept,
            after_control_flush,
            shown,
          )
          refl

  -- With a trace that can be replayed, the call shows it with the event.
  pub shown-planned :
      IsReplayable stored
      → (view : TraceReadModel) × (to_trace_model
            (with_event stored event)
            (stored.events ++ event ∷ [])
          ≡ ok view)
        × Shows (with_event stored event) view
  shown-planned r = to_trace_model-Shows (with_event stored event) (
      IsReplayable-with_event rq stored r fx (fingerprint_of sha256 rq) planned (
        subst (λ (d : DecisionRow). plan_on rq stored d ≡ ok planned) (decision_same r has_decision)
          plans))

  pub Appends-planned :
      IsReplayable stored
      → IsConsistent (insert_rows (others db) (add_control_event event))
      → Appends fx
          (fingerprint_of sha256 rq)
          rq
          db
          (others db)
          (submit_control engine sha256 fx others rq db)
  Appends-planned r kept =
      let (view, shown, shows) = shown-planned r in
      let shown' = to_trace_model-with_event stored event (stored.events ++ event ∷ []) ∙ shown in
      let done = submit_control-planned view kept shown' in
      record {
        stored = stored;
        decision = decision;
        planned = planned;
        found = found;
        has_decision = has_decision;
        plans = plans;
        inserted = ap (λ (r : Result ServiceError TraceReadModel × Database). r.1) done;
        kept = kept;
        shown =
            ap (λ (r : Result ServiceError TraceReadModel × Database). r.0) done
            ∙ sym (ap lift shown');
      }

-- The request's trace is stored and can be replayed, its key has no receipt, the guard plans an
-- event, other transactions leave the locked trace as it is, and the event violates no constraint.
-- Then the call appends that one event and returns; the view shows the trace with the event at the end
-- of its events and the state that they replay to; and `read_trace` then gives the same view.
pub submit_control-read_trace :
    (engine : Engine) (sha256 : List ℕ → String) (fx : Effects) (others : Database → Database)
    (rq : ControlRequest) (db : Database) (stored : StoredTrace) (decision : DecisionRow)
    (planned : PlannedControlEvent)
    → IsSound db
    → find_trace (others db) rq.trace_id ≡ find_trace db rq.trace_id
    → find_trace db rq.trace_id ≡ some stored
    → receipt_of engine sha256 fx others rq db ≡ none
    → stored.decision ≡ some decision
    → plan_on rq stored decision ≡ ok planned
    → IsConsistent (
        insert_rows
          (others db)
          (add_control_event (control_event fx rq (fingerprint_of sha256 rq) stored planned)))
    → (view : TraceReadModel) × (submit_control engine sha256 fx others rq db ≡ (
      ok view,
      insert_rows
          (others db)
          (add_control_event (control_event fx rq (fingerprint_of sha256 rq) stored planned)),
    ))
      × Shows
          (with_event stored (control_event fx rq (fingerprint_of sha256 rq) stored planned))
          view
      × (read_trace rq.trace_id (submit_control engine sha256 fx others rq db).1 ≡ ok view)
submit_control-read_trace engine sha256 fx others rq db stored decision planned sound locked found
      fresh has_decision plans kept =
    let e = control_event fx rq (fingerprint_of sha256 rq) stored planned in
    let r = sound rq.trace_id stored found in
    let (view, shown, shows) =
      shown-planned engine sha256 fx others rq db stored decision planned found fresh has_decision
        plans r in
    let done =
      submit_control-planned engine sha256 fx others rq db stored decision planned found fresh
        has_decision plans view kept
        (to_trace_model-with_event stored e (stored.events ++ e ∷ []) ∙ shown) in
    (
      view,
      done,
      shows,
      rw (done) (
          read_trace-found (insert_rows (others db) (add_control_event e)) rq
            (find_trace-add_control_event (others db) rq.trace_id stored e (locked ∙ found)
              (control_event-trace_id fx rq (fingerprint_of sha256 rq) stored planned)
              (control_event_above rq stored r fx (fingerprint_of sha256 rq) planned))
            shown),
    )
