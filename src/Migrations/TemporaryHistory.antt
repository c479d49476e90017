-- ===== src/Migrations/TemporaryHistory.antt =====
-- backend/alembic/versions/6a1c2e3f9b4d_temporary_history.py: the three tables, the function that
-- raises, and a trigger on each table that calls it.
use organization_ai.Base.{false, true, String, Option, none, List, [], ◌∷◌, map}
use organization_ai.Migrations.Schema.{
  uuid, text, datetime, jsonb, integer, string, Column, unique_constraint, check_constraint,
  on_update, on_delete, key_column, plain_column, reference_column, TableConstraint,
}
use organization_ai.Migrations.Operations.{
  Operation, create_table, drop_table, create_index, create_function, create_trigger,
  drop_function_if_exists,
}
use organization_ai.Migrations.Names.{table_for}

abbrev pub revision : String
revision = "6a1c2e3f9b4d"

abbrev pub down_revision : Option String
down_revision = none

abbrev pub immutable_function : String
immutable_function = "temporary_history_immutable"

abbrev pub triggers : List String
triggers =
    "trg_temporary_case_snapshots_immutable" ∷ "trg_temporary_decision_snapshots_immutable"
    ∷ "trg_temporary_audit_events_immutable" ∷ []

abbrev pub case_columns : List Column
case_columns =
    key_column "trace_id" uuid
    ∷ plain_column "case_id" text false
    ∷ plain_column "recorded_at" datetime false
    ∷ plain_column "submission_snapshot" jsonb false
    ∷ plain_column "normalized_snapshot" jsonb false
    ∷ plain_column "profile_id" (string 255) false
    ∷ plain_column "profile_source" (string 255) false
    ∷ plain_column "data_class" (string 255) false
    ∷ plain_column "workflow_validation_status" (string 255) false
    ∷ []

abbrev pub decision_columns : List Column
decision_columns =
    key_column "decision_id" uuid
    ∷ reference_column "trace_id" "temporary_case_snapshots" "trace_id" false
    ∷ plain_column "profile_snapshot" jsonb false
    ∷ plain_column "profile_id" (string 255) false
    ∷ plain_column "outcome" (string 64) false
    ∷ plain_column "applied_rule_id" (string 64) false
    ∷ plain_column "reason" text false
    ∷ plain_column "question" text true
    ∷ plain_column "decided_at" datetime false
    ∷ []

abbrev pub event_columns : List Column
event_columns =
    key_column "event_id" uuid
    ∷ reference_column "trace_id" "temporary_case_snapshots" "trace_id" false
    ∷ plain_column "sequence_number" integer false
    ∷ reference_column "previous_event_id" "temporary_audit_events" "event_id" true
    ∷ plain_column "actor_type" (string 64) false
    ∷ plain_column "action" (string 64) false
    ∷ plain_column "payload" jsonb false
    ∷ plain_column "recorded_at" datetime false
    ∷ []

abbrev pub event_constraints : List TableConstraint
event_constraints =
    unique_constraint ("trace_id" ∷ "sequence_number" ∷ [])
      "uq_temporary_audit_events_trace_sequence"
    ∷ check_constraint "sequence_number > 0" "ck_temporary_audit_events_sequence_positive"
    ∷ []

-- `CREATE TRIGGER … BEFORE UPDATE OR DELETE ON … FOR EACH ROW EXECUTE FUNCTION …`
unfoldable pub trigger_on : String → Operation
unfolding table_for
trigger_on name =
    create_trigger (table_for name)
      (record { name = name; before = on_update ∷ on_delete ∷ []; function = immutable_function })

unfoldable pub upgrade : List Operation
unfolding trigger_on
upgrade =
    create_table "temporary_case_snapshots" case_columns
      (unique_constraint ("case_id" ∷ []) "uq_temporary_case_snapshots_case_id" ∷ [])
    ∷ create_table "temporary_decision_snapshots" decision_columns
        (unique_constraint ("trace_id" ∷ []) "uq_temporary_decision_snapshots_trace_id" ∷ [])
    ∷ create_table "temporary_audit_events" event_columns event_constraints
    ∷ create_index "temporary_audit_events" (record {
      name = "ix_temporary_audit_events_trace_id";
      columns = "trace_id" ∷ [];
      unique = false;
      postgresql_where = none;
    })
    ∷ create_function
        (record { name = immutable_function; message = "temporary history is immutable" })
    ∷ map trigger_on triggers

unfoldable pub downgrade : List Operation
downgrade =
    drop_table "temporary_audit_events"
    ∷ drop_table "temporary_decision_snapshots"
    ∷ drop_table "temporary_case_snapshots"
    ∷ drop_function_if_exists immutable_function
    ∷ []
