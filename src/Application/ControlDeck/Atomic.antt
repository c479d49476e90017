-- ===== src/Application/ControlDeck/Atomic.antt =====
-- `submit_control` of backend/app/application/control_deck.py appends one event or writes nothing.
use organization_ai.Base.{
  ℕ, String, Option, none, some, List, [], ◌∷◌, ◌++◌, ◌≡◌, ◌⊎◌, inl, inr, refl, sym, Option-cases,
}
use organization_ai.Base.Result.{Result, ok, err, Result-cases}
use organization_ai.Domain.Control.Vocabulary.{PlannedControlEvent}
use organization_ai.Policy.Evaluator.{assert_present}
use organization_ai.Persistence.Rows.{DecisionRow, Database, StoredTrace}
use organization_ai.Persistence.Repository.{
  find_trace, find_trace_for_update, insert_rows, add_control_event,
}
use organization_ai.Persistence.Engine.{IntegrityError, Engine}
use organization_ai.Persistence.Engine.Keys.{IsConsistent}
use organization_ai.Application.Views.{TraceReadModel, ServiceError, to_trace_model, lift}
use organization_ai.Application.History.{Effects}
use organization_ai.Application.Fingerprint.{command_fingerprint}
use organization_ai.Application.ControlDeck.{
  ControlRequest, plan_on, control_event, after_control_flush, append_control, receipt_of,
  control_locked, submit_control,
}

abbrev pub fingerprint_of : (List ℕ → String) → ControlRequest → String
fingerprint_of sha256 rq =
    command_fingerprint sha256 rq.trace_id rq.command rq.reason rq.disposition

-- An event was planned on the stored trace of the request, and is the one row more than others left;
-- no constraint is violated, and the call shows the trace with the event.
pub record Appends (fx : Effects) (fingerprint : String) (rq : ControlRequest)
    (db others : Database) (r : Result ServiceError TraceReadModel × Database) : Type 0 where
  pub stored : StoredTrace
  pub decision : DecisionRow
  pub planned : PlannedControlEvent
  pub found : find_trace db rq.trace_id ≡ some stored
  pub has_decision : stored.decision ≡ some decision
  pub plans : plan_on rq stored decision ≡ ok planned
  pub inserted :
      r.1 ≡ insert_rows others (add_control_event (control_event fx rq fingerprint stored planned))
  pub kept :
      IsConsistent
        (insert_rows others (add_control_event (control_event fx rq fingerprint stored planned)))
  pub shown :
      r.0
      ≡ lift (
          to_trace_model stored
            (stored.events ++ control_event fx rq fingerprint stored planned ∷ []))

-- One event is appended, or the tables are as they were before the call or as others left them.
abbrev pub WritesOneEvent :
    Effects
    → String
    → ControlRequest
    → Database
    → Database
    → Result ServiceError TraceReadModel × Database
    → Type 0
WritesOneEvent fx fingerprint rq db others r =
    Appends fx fingerprint rq db others r ⊎ ((r.1 ≡ db) ⊎ (r.1 ≡ others))

assert_present-ok :
    (o : Option DecisionRow) {d : DecisionRow} → lift (assert_present o) ≡ ok d → o ≡ some d
unfolding assert_present
assert_present-ok none h = absurd (cc)
assert_present-ok (some d) h = cc

module _ (engine : Engine) (sha256 : List ℕ → String) (fx : Effects) (others : Database → Database)
    (rq : ControlRequest) (db : Database) where
  module _ (fingerprint : String) (stored : StoredTrace) (decision : DecisionRow)
      (found : find_trace db rq.trace_id ≡ some stored)
      (has_decision : stored.decision ≡ some decision) where
    after_control_flush-WritesOneEvent :
        (planned : PlannedControlEvent) (r : Result IntegrityError Database)
        → plan_on rq stored decision ≡ ok planned
        → engine.flush
            (others db)
            (add_control_event (control_event fx rq fingerprint stored planned))
          ≡ r
        → WritesOneEvent fx fingerprint rq db (others db) (
            after_control_flush rq fingerprint stored
              (control_event fx rq fingerprint stored planned)
              (others db)
              r)
    unfolding after_control_flush
    after_control_flush-WritesOneEvent planned (ok flushed) plans flushes =
        let event = control_event fx rq fingerprint stored planned in
        let (inserted, kept) = engine.flush_inserts (others db) (add_control_event event) flushes in
        elim (Result-cases (lift (to_trace_model stored (stored.events ++ event ∷ [])))) [
          | inl (view, shown) ↦ rw (shown) (
              inl (record {
                stored = stored;
                decision = decision;
                planned = planned;
                found = found;
                has_decision = has_decision;
                plans = plans;
                inserted = inserted;
                kept = kept;
                shown = sym shown;
              }))
          | inr (e, fails) ↦ rw (fails) (inr (inr refl))
        ]
    after_control_flush-WritesOneEvent planned (err e) plans flushes = inr (inr refl)

    append_control-WritesOneEvent :
        WritesOneEvent fx fingerprint rq db
          (others db)
          (append_control engine sha256 fx others rq fingerprint stored decision db)
    unfolding append_control
    append_control-WritesOneEvent = elim (Result-cases (plan_on rq stored decision)) [
      | inl (planned, plans) ↦
          rw (plans, append_control) (after_control_flush-WritesOneEvent planned _ plans refl)
      | inr (e, fails) ↦ rw (fails, append_control) (inr (inl refl))
    ]

  control_locked-WritesOneEvent :
      (fingerprint : String) (locked : Option StoredTrace)
      → find_trace db rq.trace_id ≡ locked
      → WritesOneEvent fx fingerprint rq db
          (others db)
          (control_locked engine sha256 fx others rq fingerprint locked db)
  unfolding control_locked
  control_locked-WritesOneEvent fingerprint none found = inr (inl refl)
  control_locked-WritesOneEvent fingerprint (some stored) found =
      elim (Result-cases (lift (assert_present stored.decision))) [
        | inr (e, fails) ↦ rw (fails, control_locked) (inr (inl refl))
        | inl (decision, present) ↦ elim (Option-cases (receipt_of engine sha256 fx others rq db)) [
          | inr (receipt, there) ↦ rw (present, control_locked, there) (inr (inl refl))
          | inl fresh ↦
              rw (present, control_locked, fresh)
                (append_control-WritesOneEvent fingerprint stored decision found
                  (assert_present-ok stored.decision present))
        ]
      ]

  -- Whatever the request and the tables, and whatever other transactions commit meanwhile: the call
  -- plans one event on the stored trace of the request, appends it without violating a constraint,
  -- and returns the trace with it; or it changes nothing.
  pub submit_control-WritesOneEvent :
      WritesOneEvent fx
        (fingerprint_of sha256 rq)
        rq
        db
        (others db)
        (submit_control engine sha256 fx others rq db)
  unfolding submit_control find_trace_for_update
  submit_control-WritesOneEvent =
      control_locked-WritesOneEvent (fingerprint_of sha256 rq) (find_trace db rq.trace_id) refl
