-- ===== src/Persistence/Rows.antt =====
-- backend/app/persistence/models/temporary_history.py: the rows of the three tables, and the trace
-- that the repository assembles from them. Tables keep their rows in the order of insertion.
use organization_ai.Base.{ℕ, String, Option, List}
use organization_ai.Base.Json.{Json, Uuid, Payload}
use organization_ai.Domain.Models.{Datetime}

pub data AuditActorType : Type 0 where
  system : AuditActorType

pub data AuditAction : Type 0 where
  case_received case_normalized decision_recorded : AuditAction

unfoldable pub actor_type_value : AuditActorType → String
actor_type_value system = "SYSTEM"

unfoldable pub audit_action_value : AuditAction → String
audit_action_value case_received = "CASE_RECEIVED"
audit_action_value case_normalized = "CASE_NORMALIZED"
audit_action_value decision_recorded = "DECISION_RECORDED"

-- `TemporaryCaseSnapshot`
pub record CaseRow : Type 0 where
  pub trace_id : Uuid
  pub case_id : String
  pub recorded_at : Datetime
  pub submission_snapshot : Json
  pub normalized_snapshot : Json
  pub profile_id : String
  pub profile_source : String
  pub data_class : String
  pub workflow_validation_status : String

-- `TemporaryDecisionSnapshot`
pub record DecisionRow : Type 0 where
  pub decision_id : Uuid
  pub trace_id : Uuid
  pub profile_snapshot : Json
  pub profile_id : String
  pub outcome : String
  pub applied_rule_id : String
  pub reason : String
  pub question : Option String
  pub decided_at : Datetime

-- `TemporaryAuditEvent`
pub record EventRow : Type 0 where
  pub event_id : Uuid
  pub trace_id : Uuid
  pub sequence_number : ℕ
  pub previous_event_id : Option Uuid
  pub actor_type : String
  pub action : String
  pub payload : Payload
  pub recorded_at : Datetime
  pub idempotency_key : Option String
  pub command_fingerprint : Option String

pub record Database : Type 0 where
  pub cases : List CaseRow
  pub decisions : List DecisionRow
  pub events : List EventRow

-- A case row with its relationships `decision` and `events` loaded.
pub record StoredTrace : Type 0 where
  pub case_row : CaseRow
  pub decision : Option DecisionRow
  pub events : List EventRow
