-- ===== src/Migrations/ControlDeck.antt =====
-- backend/alembic/versions/7b2d4f5a8c6e_control_deck.py: two nullable columns of the events and a
-- partial unique index.
use organization_ai.Base.{true, String, Option, some, List, [], ◌∷◌}
use organization_ai.Migrations.Schema.{string, plain_column}
use organization_ai.Migrations.Operations.{
  Operation, add_column, drop_column, create_index, drop_index,
}

abbrev pub revision : String
revision = "7b2d4f5a8c6e"

abbrev pub down_revision : Option String
down_revision = some "6a1c2e3f9b4d"

unfoldable pub upgrade : List Operation
upgrade =
    add_column "temporary_audit_events" (plain_column "idempotency_key" (string 255) true)
    ∷ add_column "temporary_audit_events" (plain_column "command_fingerprint" (string 64) true)
    ∷ create_index "temporary_audit_events" (record {
      name = "uq_temporary_audit_events_trace_idempotency";
      columns = "trace_id" ∷ "idempotency_key" ∷ [];
      unique = true;
      postgresql_where = some "idempotency_key IS NOT NULL";
    })
    ∷ []

unfoldable pub downgrade : List Operation
downgrade =
    drop_index "temporary_audit_events" "uq_temporary_audit_events_trace_idempotency"
    ∷ drop_column "temporary_audit_events" "command_fingerprint"
    ∷ drop_column "temporary_audit_events" "idempotency_key"
    ∷ []
