-- ===== src/Examples/Controls.antt =====
-- The theorems on `submit_control` at a pause of a stored case, recorded and asked for again.
use organization_ai.Base.{ℕ, String, none, some, List, [], ◌∷◌, if◌then◌else◌, str_eq, ◌≡◌, refl}
use organization_ai.Base.Query.{find, max_by}
use organization_ai.Base.Json.{str}
use organization_ai.Base.Text.{is_blank}
use organization_ai.Base.Result.{ok, err}
use organization_ai.Domain.Control.Vocabulary.{
  pause, case_paused, demo_reviewer, awaiting_input, PlannedControlEvent, as_control_action,
  base_control_state, state_value,
}
use organization_ai.Domain.Control.Plan.{plan_control_command}
use organization_ai.Domain.Control.Reduce.{reduce_control_state, reduce_events, reduce_event}
use organization_ai.Domain.Enums.{outcome_of, outcome_value}
use organization_ai.Base.Sort.{sort_by}
use organization_ai.Persistence.Rows.{audit_action_value, Database, DecisionRow, EventRow}
use organization_ai.Persistence.Repository.{find_control_receipt, insert_rows, add_control_event}
use organization_ai.Persistence.Engine.{violates}
use organization_ai.Persistence.Engine.Keys.{IsConsistent}
use organization_ai.Persistence.Engine.Checked.{checked-IsConsistent, checked_engine}
use organization_ai.Application.Views.{TraceReadModel, control_idempotency_conflict}
use organization_ai.Application.Sound.{IsSound, Shows}
use organization_ai.Application.History.{build_events, trace_rows, decision_row, read_trace}
use organization_ai.Application.ControlDeck.{
  ControlRequest, plan_on, control_event, receipt_of, submit_control,
}
use organization_ai.Application.ControlDeck.Appended.{with_event}
use organization_ai.Application.ControlDeck.Accepted.{Appends-planned, submit_control-read_trace}
use organization_ai.Application.ControlDeck.Atomic.{
  fingerprint_of, Appends, WritesOneEvent, submit_control-WritesOneEvent,
}
use organization_ai.Application.ControlDeck.Receipt.{submit_control_again}
use organization_ai.Application.ControlDeck.Sound.{submit_control-IsSound}
use organization_ai.Examples.Services.{
  effects, alone, draft, stored_once, stored, stored_found, stored_once-IsSound,
}

-- A stand-in for SHA-256.
abbrev pub digest : List ℕ → String
digest _ = "digest"

abbrev pub hold : ControlRequest
hold = record {
  trace_id = 100;
  command = pause;
  reason = "hold";
  disposition = none;
  idempotency_key = some "key-1";
}

abbrev planned : PlannedControlEvent
planned = record {
  action = case_paused;
  actor = demo_reviewer;
  prior_state = awaiting_input;
  target_event_id = none;
  payload = ("reason", str "hold") ∷ ("prior_state", str "AWAITING_INPUT") ∷ [];
}

abbrev decision : DecisionRow
decision = decision_row (effects 100) draft

abbrev event : EventRow
event = control_event (effects 200) hold (fingerprint_of digest hold) stored planned

abbrev held_once : Database
held_once = insert_rows stored_once (add_control_event event)

hold_fresh : receipt_of checked_engine digest (effects 200) alone hold stored_once ≡ none
unfolding receipt_of find_control_receipt insert_rows trace_rows find
hold_fresh = refl

hold_plans : plan_on hold stored decision ≡ ok planned
unfolding plan_on decision_row outcome_of outcome_value reduce_control_state reduce_events sort_by
    build_events reduce_event as_control_action audit_action_value plan_control_command is_blank
    base_control_state state_value
hold_plans = refl

held_once-IsConsistent : IsConsistent held_once
unfolding violates find insert_rows trace_rows add_control_event control_event max_by sort_by
held_once-IsConsistent = checked-IsConsistent held_once refl

submit_control-read_trace_example :
    (view : TraceReadModel) × (submit_control checked_engine digest
        (effects 200)
        alone
        hold
        stored_once
      ≡ (ok view, held_once))
    × Shows (with_event stored event) view
    × (read_trace 100 (submit_control checked_engine digest (effects 200) alone hold stored_once).1
        ≡ ok view)
submit_control-read_trace_example =
    submit_control-read_trace checked_engine digest (effects 200) alone hold stored_once stored
      decision planned stored_once-IsSound refl stored_found hold_fresh refl hold_plans
      held_once-IsConsistent

submit_control-WritesOneEvent_example :
    WritesOneEvent
      (effects 200)
      (fingerprint_of digest hold)
      hold
      stored_once
      stored_once
      (submit_control checked_engine digest (effects 200) alone hold stored_once)
submit_control-WritesOneEvent_example =
    submit_control-WritesOneEvent checked_engine digest (effects 200) alone hold stored_once

submit_control-IsSound_example :
    IsSound (submit_control checked_engine digest (effects 200) alone hold stored_once).1
submit_control-IsSound_example =
    submit_control-IsSound checked_engine digest (effects 200) alone hold stored_once
      stored_once-IsSound stored_once-IsSound refl

hold-Appends :
    Appends
      (effects 200)
      (fingerprint_of digest hold)
      hold
      stored_once
      stored_once
      (submit_control checked_engine digest (effects 200) alone hold stored_once)
hold-Appends =
    Appends-planned checked_engine digest (effects 200) alone hold stored_once stored decision
      planned stored_found hold_fresh refl hold_plans (stored_once-IsSound 100 stored stored_found)
      held_once-IsConsistent

-- The same intent again, with other ids.
submit_control_again_example :
    submit_control checked_engine digest
      (effects 300)
      alone
      hold
      (submit_control checked_engine digest (effects 200) alone hold stored_once).1
    ≡ (
      if str_eq (fingerprint_of digest hold) (fingerprint_of digest hold)
          then (submit_control checked_engine digest (effects 200) alone hold stored_once).0
          else err (control_idempotency_conflict 100 "key-1"),
      (submit_control checked_engine digest (effects 200) alone hold stored_once).1,
    )
submit_control_again_example =
    submit_control_again checked_engine checked_engine digest (effects 200) (effects 300) alone
      alone hold hold stored_once "key-1" stored_once-IsSound refl refl refl refl hold-Appends
