-- ===== src/Examples/Migrations.antt =====
-- The revisions on a schema that holds Alembic's own table of versions.
use organization_ai.Base.{true, List, [], ◌∷◌, ◌++◌, map, ◌≡◌, refl}
use organization_ai.Base.Query.{any}
use organization_ai.Base.Result.{ok}
use organization_ai.Migrations.Schema.{string, Schema, Table, RaisingFunction, key_column}
use organization_ai.Migrations.Operations.{run_all}
use organization_ai.Migrations.TemporaryHistory
use organization_ai.Migrations.ControlDeck
use organization_ai.Migrations.Declared.{target_metadata}
use organization_ai.Migrations.Constraints.{all_constraint_names}
use organization_ai.Persistence.Engine.{constraint_name}
use organization_ai.Persistence.Engine.Checked.{all_constraints}
use organization_ai.Migrations.Frame.{beside}
use organization_ai.Migrations.Upgrade.{
  HasRoom, at_history, at_control_deck, upgrade_history-runs, upgrade_control-runs,
  upgrade-downgrade, without_triggers, upgrade_declared,
}
use organization_ai.Migrations.Statements.{
  Statement, update_events, delete_events, execute_all, Grows,
}
use organization_ai.Migrations.Immutable.{upgrade-Grows}
use organization_ai.Migrations.Checked.{checked_server, checked_statements}
use organization_ai.Examples.Services.{stored_once}

abbrev pub versions : Schema
versions = record {
  tables =
      record {
        name = "alembic_version";
        columns = key_column "version_num" (string 32) ∷ [];
        constraints = [];
        indexes = [];
        triggers = [];
      }
      ∷ [];
  functions = [];
}

versions-HasRoom : HasRoom versions
unfolding any
versions-HasRoom = record {
  case_snapshots = record { not_taken = refl; not_referenced = refl };
  decision_snapshots = record { not_taken = refl; not_referenced = refl };
  audit_events = record { not_taken = refl; not_referenced = refl };
  case_id_unique = record { not_taken = refl; not_referenced = refl };
  trace_unique = record { not_taken = refl; not_referenced = refl };
  sequence_unique = record { not_taken = refl; not_referenced = refl };
  sequence_positive = record { not_taken = refl; not_referenced = refl };
  trace_index = record { not_taken = refl; not_referenced = refl };
  idempotency_index = record { not_taken = refl; not_referenced = refl };
  function = record { no_function = refl; no_trigger = refl };
}

upgrade-downgrade_example :
    (history : Schema) × (deck : Schema) × (run_all checked_server TemporaryHistory.upgrade versions
      ≡ ok history)
    × (run_all checked_server ControlDeck.upgrade history ≡ ok deck)
    × (run_all checked_server ControlDeck.downgrade deck ≡ ok history)
    × (run_all checked_server TemporaryHistory.downgrade history ≡ ok versions)
upgrade-downgrade_example = upgrade-downgrade checked_server versions versions-HasRoom

upgrade_declared_example :
    (history : Schema) × (deck : Schema) × (added : List Table) × (f : RaisingFunction) × (run_all
        checked_server TemporaryHistory.upgrade versions
      ≡ ok history)
    × (run_all checked_server ControlDeck.upgrade history ≡ ok deck)
    × (deck
        ≡ record { tables = versions.tables ++ added; functions = versions.functions ++ f ∷ [] })
    × (map without_triggers added ≡ target_metadata)
    × (all_constraint_names added ≡ map constraint_name all_constraints)
upgrade_declared_example = upgrade_declared checked_server versions versions-HasRoom

-- All events set to another number, and then deleted.
abbrev tamper : List Statement
tamper =
    update_events (λ e. true)
      (λ e. record {
        event_id = e.event_id;
        trace_id = e.trace_id;
        sequence_number = 7;
        previous_event_id = e.previous_event_id;
        actor_type = e.actor_type;
        action = e.action;
        payload = e.payload;
        recorded_at = e.recorded_at;
        idempotency_key = e.idempotency_key;
        command_fingerprint = e.command_fingerprint;
      })
    ∷ delete_events (λ e. true)
    ∷ []

upgrade-Grows_example :
    Grows stored_once
      (execute_all checked_statements (beside versions at_control_deck) tamper stored_once)
upgrade-Grows_example =
    upgrade-Grows checked_server checked_statements versions (beside versions at_history)
      (beside versions at_control_deck) tamper stored_once versions-HasRoom
      (upgrade_history-runs versions versions-HasRoom checked_server)
      (upgrade_control-runs versions versions-HasRoom checked_server)
