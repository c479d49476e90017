-- ===== src/Application/Views.antt =====
-- The read models of backend/app/api/schemas/temporary_history.py, the errors of the services, and
-- `_to_trace_model` of backend/app/application/temporary_history.py.
use organization_ai.Base.{ℕ, String, Option, List, map}
use organization_ai.Base.Json.{Json, Uuid, Payload}
use organization_ai.Base.Sort.{sort_by}
use organization_ai.Base.Result.{PyError, Result, ok, err, ◌>>=◌}
use organization_ai.Domain.Enums.{outcome_of}
use organization_ai.Domain.Models.{Datetime}
use organization_ai.Domain.Control.Vocabulary.{StoredAuditEvent, state_value}
use organization_ai.Domain.Control.Reduce.{derive_control_state}
use organization_ai.Policy.Evaluator.{assert_present}
use organization_ai.Persistence.Rows.{CaseRow, DecisionRow, EventRow, StoredTrace}
use organization_ai.Persistence.Engine.{IntegrityError}

pub record ProvenanceReadModel : Type 0 where
  pub profile_id : String
  pub profile_source : String
  pub data_class : String
  pub workflow_validation_status : String

pub record AuditEventReadModel : Type 0 where
  pub event_id : Uuid
  pub sequence_number : ℕ
  pub previous_event_id : Option Uuid
  pub actor_type : String
  pub action : String
  pub payload : Payload
  pub recorded_at : Datetime

pub record DecisionReadModel : Type 0 where
  pub outcome : String
  pub applied_rule_id : String
  pub reason : String
  pub question : Option String
  pub profile_id : String
  pub profile_snapshot : Json
  pub decided_at : Datetime

pub record TraceReadModel : Type 0 where
  pub temporary_notice : String
  pub trace_id : Uuid
  pub recorded_at : Datetime
  pub provenance : ProvenanceReadModel
  pub submission : Json
  pub facts_used : Json
  pub decision : DecisionReadModel
  pub events : List AuditEventReadModel
  pub control_state : String

-- What the services raise.
pub data ServiceError : Type 0 where
  trace_already_recorded : String → ServiceError
  trace_not_found : Uuid → ServiceError
  illegal_control_action : Uuid → String → String → String → ServiceError
  control_idempotency_conflict : Uuid → String → ServiceError
  python_error : PyError → ServiceError
  integrity_error : IntegrityError → ServiceError

abbrev pub temporary_notice_text : String
temporary_notice_text = "Temporary synthetic development record; workflow is unvalidated."

abbrev pub row_sequence : EventRow → ℕ
row_sequence row = row.sequence_number

-- `StoredAuditEvent(…)` of a row
abbrev pub stored_event : EventRow → StoredAuditEvent
stored_event row = record {
  event_id = row.event_id;
  sequence_number = row.sequence_number;
  action = row.action;
  payload = row.payload;
}

abbrev pub event_view : EventRow → AuditEventReadModel
event_view row = record {
  event_id = row.event_id;
  sequence_number = row.sequence_number;
  previous_event_id = row.previous_event_id;
  actor_type = row.actor_type;
  action = row.action;
  payload = row.payload;
  recorded_at = row.recorded_at;
}

abbrev pub provenance_view : CaseRow → ProvenanceReadModel
provenance_view c = record {
  profile_id = c.profile_id;
  profile_source = c.profile_source;
  data_class = c.data_class;
  workflow_validation_status = c.workflow_validation_status;
}

abbrev pub decision_view : DecisionRow → DecisionReadModel
decision_view d = record {
  outcome = d.outcome;
  applied_rule_id = d.applied_rule_id;
  reason = d.reason;
  question = d.question;
  profile_id = d.profile_id;
  profile_snapshot = d.profile_snapshot;
  decided_at = d.decided_at;
}

-- `_to_trace_model(case, source_events=…)`, the events written out at each call
unfoldable pub to_trace_model : StoredTrace → List EventRow → Result PyError TraceReadModel
unfolding assert_present
to_trace_model stored source_events = do
  decision ← assert_present stored.decision
  let ordered = sort_by row_sequence source_events
  outcome ← outcome_of decision.outcome
  control_state ← derive_control_state outcome (map stored_event ordered)
  ok (record {
    temporary_notice = temporary_notice_text;
    trace_id = stored.case_row.trace_id;
    recorded_at = stored.case_row.recorded_at;
    provenance = provenance_view stored.case_row;
    submission = stored.case_row.submission_snapshot;
    facts_used = stored.case_row.normalized_snapshot;
    decision = decision_view decision;
    events = map event_view ordered;
    control_state = state_value control_state;
  })

-- An exception of the domain code that no service catches.
abbrev pub lift {ℓ} : {A : Type ℓ} → Result PyError A → Result ServiceError A
lift (ok a) = ok a
lift (err e) = err (python_error e)
