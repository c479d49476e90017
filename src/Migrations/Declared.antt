-- ===== src/Migrations/Declared.antt =====
-- The tables that backend/app/persistence/models/temporary_history.py declares: `Base.metadata`, which
-- backend/alembic/env.py gives to Alembic as its `target_metadata`.
use organization_ai.Base.{true, false, none, some, List, [], ◌∷◌}
use organization_ai.Migrations.Schema.{
  uuid, text, datetime, jsonb, integer, string, unique_constraint, check_constraint, Table,
  key_column, plain_column, reference_column,
}

-- `TemporaryCaseSnapshot.__table__`
abbrev pub case_table : Table
case_table = record {
  name = "temporary_case_snapshots";
  columns =
      key_column "trace_id" uuid
      ∷ plain_column "case_id" text false
      ∷ plain_column "recorded_at" datetime false
      ∷ plain_column "submission_snapshot" jsonb false
      ∷ plain_column "normalized_snapshot" jsonb false
      ∷ plain_column "profile_id" (string 255) false
      ∷ plain_column "profile_source" (string 255) false
      ∷ plain_column "data_class" (string 255) false
      ∷ plain_column "workflow_validation_status" (string 255) false
      ∷ [];
  constraints = unique_constraint ("case_id" ∷ []) "uq_temporary_case_snapshots_case_id" ∷ [];
  indexes = [];
  triggers = [];
}

-- `TemporaryDecisionSnapshot.__table__`. A column that only has a foreign key takes its type from the
-- annotation `Mapped[UUID]`.
abbrev pub decision_table : Table
decision_table = record {
  name = "temporary_decision_snapshots";
  columns =
      key_column "decision_id" uuid
      ∷ reference_column "trace_id" "temporary_case_snapshots" "trace_id" false
      ∷ plain_column "profile_snapshot" jsonb false
      ∷ plain_column "profile_id" (string 255) false
      ∷ plain_column "outcome" (string 64) false
      ∷ plain_column "applied_rule_id" (string 64) false
      ∷ plain_column "reason" text false
      ∷ plain_column "question" text true
      ∷ plain_column "decided_at" datetime false
      ∷ [];
  constraints = unique_constraint ("trace_id" ∷ []) "uq_temporary_decision_snapshots_trace_id" ∷ [];
  indexes = [];
  triggers = [];
}

-- `TemporaryAuditEvent.__table__`. `index=True` makes an index named `ix_<table>_<column>`.
abbrev pub event_table : Table
event_table = record {
  name = "temporary_audit_events";
  columns =
      key_column "event_id" uuid
      ∷ reference_column "trace_id" "temporary_case_snapshots" "trace_id" false
      ∷ plain_column "sequence_number" integer false
      ∷ reference_column "previous_event_id" "temporary_audit_events" "event_id" true
      ∷ plain_column "actor_type" (string 64) false
      ∷ plain_column "action" (string 64) false
      ∷ plain_column "payload" jsonb false
      ∷ plain_column "recorded_at" datetime false
      ∷ plain_column "idempotency_key" (string 255) true
      ∷ plain_column "command_fingerprint" (string 64) true
      ∷ [];
  constraints =
      unique_constraint ("trace_id" ∷ "sequence_number" ∷ [])
        "uq_temporary_audit_events_trace_sequence"
      ∷ check_constraint "sequence_number > 0" "ck_temporary_audit_events_sequence_positive"
      ∷ [];
  indexes =
      record {
        name = "ix_temporary_audit_events_trace_id";
        columns = "trace_id" ∷ [];
        unique = false;
        postgresql_where = none;
      }
      ∷ record {
        name = "uq_temporary_audit_events_trace_idempotency";
        columns = "trace_id" ∷ "idempotency_key" ∷ [];
        unique = true;
        postgresql_where = some "idempotency_key IS NOT NULL";
      }
      ∷ [];
  triggers = [];
}

-- `Base.metadata.tables`, in the order of their references
abbrev pub target_metadata : List Table
target_metadata = case_table ∷ decision_table ∷ event_table ∷ []
