-- ===== src/Application/Replay.antt =====
-- How a stored trace is shown by `_to_trace_model` of
-- backend/app/application/temporary_history.py, where its events form a history of its decision.
use organization_ai.Base.{ℕ, ◌<◌, some, List, [], ◌∷◌, map, All, ◌≡◌, refl}
use organization_ai.Base.Sort.{IsAscending, sort_by-IsAscending}
use organization_ai.Base.Result.{ok}
use organization_ai.Domain.Enums.{DecisionOutcome, outcome_of}
use organization_ai.Domain.Control.Vocabulary.{
  ControlState, ControlProjection, StoredAuditEvent, state_value,
}
use organization_ai.Domain.Control.Reduce.{reduce_control_state, derive_control_state}
use organization_ai.Domain.Control.History.{sequence}
use organization_ai.Policy.Evaluator.{assert_present}
use organization_ai.Persistence.Rows.{CaseRow, DecisionRow, EventRow}
use organization_ai.Application.Views.{
  TraceReadModel, temporary_notice_text, row_sequence, stored_event, event_view, provenance_view,
  decision_view, to_trace_model,
}

-- The view of a trace in a control state, the events in their order.
abbrev pub view_of : CaseRow → DecisionRow → List EventRow → ControlState → TraceReadModel
view_of c d es state = record {
  temporary_notice = temporary_notice_text;
  trace_id = c.trace_id;
  recorded_at = c.recorded_at;
  provenance = provenance_view c;
  submission = c.submission_snapshot;
  facts_used = c.normalized_snapshot;
  decision = decision_view d;
  events = map event_view es;
  control_state = state_value state;
}

below-All :
    (n : ℕ) (es : List EventRow)
    → All (λ (e : StoredAuditEvent). n < e.sequence_number) (map stored_event es)
    → All (λ (e : EventRow). n < row_sequence e) es
below-All n [] h = tt
below-All n (e ∷ es) h = (h.0, below-All n es h.1)

pub IsAscending-stored :
    (es : List EventRow) → IsAscending sequence (map stored_event es) → IsAscending row_sequence es
IsAscending-stored [] h = tt
IsAscending-stored (e ∷ es) h = (below-All (row_sequence e) es h.0, IsAscending-stored es h.1)

-- A trace whose decision has an outcome, and whose events replay to a projection.
pub to_trace_model-replayed :
    (c : CaseRow) (d : DecisionRow) (es : List EventRow) {o : DecisionOutcome}
    {p : ControlProjection}
    → outcome_of d.outcome ≡ ok o
    → IsAscending row_sequence es
    → reduce_control_state o (map stored_event es) ≡ ok p
    → to_trace_model (record { case_row = c; decision = some d; events = es }) es
      ≡ ok (view_of c d es p.state)
unfolding to_trace_model assert_present derive_control_state
to_trace_model-replayed c d es known ascending replays =
    rw (known, sort_by-IsAscending row_sequence es ascending, replays) refl
