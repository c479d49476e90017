-- ===== src/Application/ControlDeck.antt =====
-- backend/app/application/control_deck.py: `submit_control`.
pub mod Answers
pub mod Atomic
pub mod Accepted
pub mod Appended
pub mod Expected
pub mod Receipt
pub mod Sound
use organization_ai.Base.{
  ℕ, ◌+◌, Bool, false, String, Option, none, some, List, [], ◌∷◌, ◌++◌, map, get_last?, leb, str_eq,
  if◌then◌else◌,
}
use organization_ai.Base.Json.{Uuid}
use organization_ai.Base.Query.{select, max_by}
use organization_ai.Base.Sort.{sort_by}
use organization_ai.Base.Result.{PyError, value_error, Result, ok, err, ◌>>=◌}
use organization_ai.Domain.Enums.{outcome_of}
use organization_ai.Domain.Control.Vocabulary.{
  ControlCommand, DemoDisposition, ControlProjection, PlannedControlEvent, state_value,
  command_value, action_value, actor_value,
}
use organization_ai.Domain.Control.Reduce.{reduce_control_state}
use organization_ai.Domain.Control.Plan.{
  PlanError, illegal_control_transition, plan_control_command,
}
use organization_ai.Policy.Evaluator.{assert_present}
use organization_ai.Persistence.Rows.{DecisionRow, EventRow, Database, StoredTrace}
use organization_ai.Persistence.Repository.{
  find_trace, find_trace_for_update, find_control_receipt, add_control_event,
}
use organization_ai.Persistence.Engine.{IntegrityError, names_constraint, Engine}
use organization_ai.Application.Views.{
  TraceReadModel, ServiceError, trace_not_found, illegal_control_action,
  control_idempotency_conflict, python_error, integrity_error, row_sequence, stored_event,
  to_trace_model, lift,
}
use organization_ai.Application.History.{Effects, commit_or_roll_back}
use organization_ai.Application.Fingerprint.{command_fingerprint}

-- The arguments of a call.
pub record ControlRequest : Type 0 where
  pub trace_id : Uuid
  pub command : ControlCommand
  pub reason : String
  pub disposition : Option DemoDisposition
  pub idempotency_key : Option String

-- `_is_idempotency_conflict`
unfoldable pub is_idempotency_conflict : IntegrityError → Bool
unfolding names_constraint
is_idempotency_conflict = names_constraint "uq_temporary_audit_events_trace_idempotency"

-- `_to_idempotency_result`: the view as it was when the receipt was written
unfoldable pub to_idempotency_result : StoredTrace → EventRow → Result PyError TraceReadModel
unfolding select
to_idempotency_result stored receipt =
    to_trace_model stored
      (select (λ (row : EventRow). leb row.sequence_number receipt.sequence_number) stored.events)

-- `receipt.command_fingerprint == fingerprint`
unfoldable pub same_fingerprint : Option String → String → Bool
same_fingerprint none fingerprint = false
same_fingerprint (some f) fingerprint = str_eq f fingerprint

-- A receipt found under the lock: replayed for the same intent, refused for another.
unfoldable pub answer_receipt :
    ControlRequest → String → String → StoredTrace → EventRow → Result ServiceError TraceReadModel
unfolding to_idempotency_result same_fingerprint
answer_receipt rq key fingerprint stored receipt =
    if same_fingerprint receipt.command_fingerprint fingerprint
    then lift (to_idempotency_result stored receipt)
    else err (control_idempotency_conflict rq.trace_id key)

unfoldable pub lift_plan :
    Uuid
    → ControlProjection
    → ControlCommand
    → Result PlanError PlannedControlEvent
    → Result ServiceError PlannedControlEvent
lift_plan trace_id projection command (ok planned) = ok planned
lift_plan trace_id projection command (err (illegal_control_transition _ _ detail)) =
    err (
      illegal_control_action trace_id (state_value projection.state) (command_value command) detail)
lift_plan trace_id projection command (err (PlanError.value_error message)) =
    err (python_error (value_error message))

-- Replay the chain and plan the event.
unfoldable pub plan_on :
    ControlRequest → StoredTrace → DecisionRow → Result ServiceError PlannedControlEvent
unfolding lift_plan
plan_on rq stored decision = do
  outcome ← lift (outcome_of decision.outcome)
  projection ← lift (reduce_control_state outcome (map stored_event stored.events))
  lift_plan rq.trace_id projection rq.command
      (plan_control_command projection rq.command rq.reason rq.disposition)

-- `fingerprint if idempotency_key is not None else None`
abbrev pub if_key : Option String → String → Option String
if_key none fingerprint = none
if_key (some _) fingerprint = some fingerprint

-- `ordered_events[-1].event_id if ordered_events else None`
abbrev pub last_id : Option EventRow → Option Uuid
last_id none = none
last_id (some row) = some row.event_id

unfoldable pub control_event :
    Effects → ControlRequest → String → StoredTrace → PlannedControlEvent → EventRow
control_event fx rq fingerprint stored planned =
    let ordered = sort_by row_sequence stored.events in
    record {
      event_id = fx.new_id 0;
      trace_id = rq.trace_id;
      sequence_number = max_by row_sequence ordered + 1;
      previous_event_id = last_id (get_last? ordered);
      actor_type = actor_value planned.actor;
      action = action_value planned.action;
      payload = planned.payload;
      recorded_at = fx.clock 0;
      idempotency_key = rq.idempotency_key;
      command_fingerprint = if_key rq.idempotency_key fingerprint;
    }

-- `_resolve_idempotency_conflict`, in a transaction of its own: it only reads.
unfoldable pub resolve_idempotency_conflict :
    ControlRequest → String → String → Database → Result ServiceError TraceReadModel
unfolding same_fingerprint to_idempotency_result find_trace find_control_receipt
resolve_idempotency_conflict rq key fingerprint db =
    elim (find_control_receipt db rq.trace_id key) [
      | none ↦ err (control_idempotency_conflict rq.trace_id key)
      | some receipt ↦
          if same_fingerprint receipt.command_fingerprint fingerprint
          then elim (find_trace db rq.trace_id) [
            | none ↦ err (trace_not_found rq.trace_id)
            | some stored ↦ lift (to_idempotency_result stored receipt)
          ]
          else err (control_idempotency_conflict rq.trace_id key)
    ]

-- The `except IntegrityError` handler. A conflict needs a key, and is told by the index's name.
unfoldable pub handle_integrity_error :
    ControlRequest
    → Option String
    → String
    → IntegrityError
    → Database
    → Result ServiceError TraceReadModel
unfolding is_idempotency_conflict resolve_idempotency_conflict
handle_integrity_error rq none fingerprint e db = err (integrity_error e)
handle_integrity_error rq (some key) fingerprint e db =
    if is_idempotency_conflict e
    then resolve_idempotency_conflict rq key fingerprint db
    else err (integrity_error e)

-- What follows the flush. `control_event.case = stored` has put the event at the end of the loaded
-- trace's events, and the view is made of that.
unfoldable pub after_control_flush :
    ControlRequest
    → String
    → StoredTrace
    → EventRow
    → Database
    → Result IntegrityError Database
    → Result ServiceError TraceReadModel × Database
unfolding handle_integrity_error
after_control_flush rq fingerprint stored event before (ok flushed) =
    commit_or_roll_back (lift (to_trace_model stored (stored.events ++ event ∷ []))) flushed before
after_control_flush rq fingerprint stored event before (err e) =
    (handle_integrity_error rq rq.idempotency_key fingerprint e before, before)

module _ (engine : Engine) (sha256 : List ℕ → String) (fx : Effects)
    (others : Database → Database) where
  -- One control event: chosen by the guard, appended, flushed.
  unfoldable pub append_control :
      ControlRequest
      → String
      → StoredTrace
      → DecisionRow
      → Database
      → Result ServiceError TraceReadModel × Database
  unfolding plan_on control_event add_control_event after_control_flush
  append_control rq fingerprint stored decision db = elim (plan_on rq stored decision) [
    | err e ↦ (err e, db)
    | ok planned ↦
        let event = control_event fx rq fingerprint stored planned in
        after_control_flush rq fingerprint stored event (others db)
          (engine.flush (others db) (add_control_event event))
  ]

  -- The receipt that the key already has, if a key is given and has one.
  unfoldable pub receipt_of : ControlRequest → Database → Option (String × EventRow)
  receipt_of rq db = elim rq.idempotency_key [
    | none ↦ none
    | some key ↦ elim (find_control_receipt db rq.trace_id key) [
      | none ↦ none
      | some receipt ↦ some (key, receipt)
    ]
  ]

  -- The transaction, on the locked trace.
  unfoldable pub control_locked :
      ControlRequest
      → String
      → Option StoredTrace
      → Database
      → Result ServiceError TraceReadModel × Database
  unfolding answer_receipt append_control receipt_of find_control_receipt assert_present
  control_locked rq fingerprint none db = (err (trace_not_found rq.trace_id), db)
  control_locked rq fingerprint (some stored) db = elim (lift (assert_present stored.decision)) [
    | err e ↦ (err e, db)
    | ok decision ↦ elim (receipt_of rq db) [
      | some (key, receipt) ↦ (answer_receipt rq key fingerprint stored receipt, db)
      | none ↦ append_control rq fingerprint stored decision db
    ]
  ]

  unfoldable pub submit_control :
      ControlRequest → Database → Result ServiceError TraceReadModel × Database
  unfolding control_locked find_trace_for_update command_fingerprint
  submit_control rq db =
      let fingerprint =
        command_fingerprint sha256 rq.trace_id rq.command rq.reason rq.disposition in
      control_locked rq fingerprint (find_trace_for_update db rq.trace_id) db
