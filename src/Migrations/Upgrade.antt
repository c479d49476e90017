-- ===== src/Migrations/Upgrade.antt =====
-- The revisions of backend/alembic/versions, one after another, on a schema that may hold other tables.
use organization_ai.Base.{
  and_true, Bool, true, ◌&&◌, List, [], ◌∷◌, ◌++◌, map, All, append-[], ◌≡◌, refl, subst,
}
use organization_ai.Base.Result.{ok}
use organization_ai.Migrations.Schema.{RaisingFunction, Table, Schema}
use organization_ai.Migrations.Operations.{Operation, effect, is_allowed, Server, run_all}
use organization_ai.Migrations.TemporaryHistory.{immutable_function}
use organization_ai.Migrations.TemporaryHistory
use organization_ai.Migrations.ControlDeck
use organization_ai.Migrations.TemporaryHistory.{trigger_on}
use organization_ai.Migrations.Names.{table_for, removeprefix, removesuffix, ends_with}
use organization_ai.Base.Query.{any, select}
use organization_ai.Persistence.Engine.{contains}
use organization_ai.Migrations.Declared.{target_metadata}
use organization_ai.Migrations.Constraints.{all_constraint_names}
use organization_ai.Persistence.Engine.{constraint_name}
use organization_ai.Persistence.Engine.Checked.{all_constraints}
use organization_ai.Migrations.Frame.{
  beside, IsFree, IsUncalled, IsApart, effect-beside, is_allowed-beside,
}

-- The schema that the operations leave, if each is carried out.
abbrev pub outcome : List Operation → Schema → Schema
outcome [] s = s
outcome (o ∷ os) s = outcome os (effect o s)

-- Each operation is allowed on the schema that the ones before it leave.
abbrev pub all_allowed : List Operation → Schema → Bool
all_allowed [] s = true
all_allowed (o ∷ os) s = is_allowed o s && all_allowed os (effect o s)

run_all-beside :
    {E : Type 0} (server : Server E) (s u : Schema) (os : List Operation)
    → All (IsApart s) os
    → all_allowed os u ≡ true
    → run_all server os (beside s u) ≡ ok (beside s (outcome os u))
unfolding run_all
run_all-beside server s u [] apart h = refl
run_all-beside server s u (o ∷ os) apart h =
    let parts = and_true (is_allowed o u) _ h in
    rw
      (
        server.run_allowed o (beside s u) (is_allowed-beside s u o apart.0 parts.0),
        effect-beside s u o apart.0,
      )
      (run_all-beside server s (effect o u) os apart.1 parts.1)

-- The schema has none of the names that the revisions create, refers to none of their tables, and
-- has no function of the name of theirs.
pub record HasRoom (s : Schema) : Type 0 where
  pub case_snapshots : IsFree s "temporary_case_snapshots"
  pub decision_snapshots : IsFree s "temporary_decision_snapshots"
  pub audit_events : IsFree s "temporary_audit_events"
  pub case_id_unique : IsFree s "uq_temporary_case_snapshots_case_id"
  pub trace_unique : IsFree s "uq_temporary_decision_snapshots_trace_id"
  pub sequence_unique : IsFree s "uq_temporary_audit_events_trace_sequence"
  pub sequence_positive : IsFree s "ck_temporary_audit_events_sequence_positive"
  pub trace_index : IsFree s "ix_temporary_audit_events_trace_id"
  pub idempotency_index : IsFree s "uq_temporary_audit_events_trace_idempotency"
  pub function : IsUncalled s immutable_function

abbrev pub nothing : Schema
nothing = record { tables = []; functions = [] }

-- What the first revision creates, and what both do.
abbrev pub at_history : Schema
at_history = outcome TemporaryHistory.upgrade nothing

abbrev pub at_control_deck : Schema
at_control_deck = outcome ControlDeck.upgrade at_history

beside-nothing : (s : Schema) → beside s nothing ≡ s
beside-nothing s = rw (append-[] s.tables, append-[] s.functions) refl

module _ (s : Schema) (room : HasRoom s) where
  upgrade_history-IsApart : All (IsApart s) TemporaryHistory.upgrade
  unfolding TemporaryHistory.upgrade trigger_on table_for removeprefix removesuffix ends_with
  upgrade_history-IsApart = (
    (room.case_snapshots, (room.case_id_unique, tt)),
    (
      (room.decision_snapshots, (room.trace_unique, tt)),
      (
        (room.audit_events, (room.sequence_unique, (room.sequence_positive, tt))),
        (
          (room.audit_events, room.trace_index),
          (
            room.function,
            (room.case_snapshots, (room.decision_snapshots, (room.audit_events, tt))),
          ),
        ),
      ),
    ),
  )

  downgrade_history-IsApart : All (IsApart s) TemporaryHistory.downgrade
  unfolding TemporaryHistory.downgrade
  downgrade_history-IsApart =
      (room.audit_events, (room.decision_snapshots, (room.case_snapshots, (room.function, tt))))

  upgrade_control-IsApart : All (IsApart s) ControlDeck.upgrade
  unfolding ControlDeck.upgrade
  upgrade_control-IsApart =
      (room.audit_events, (room.audit_events, ((room.audit_events, room.idempotency_index), tt)))

  downgrade_control-IsApart : All (IsApart s) ControlDeck.downgrade
  unfolding ControlDeck.downgrade
  downgrade_control-IsApart = (room.audit_events, (room.audit_events, (room.audit_events, tt)))

  module _ {E : Type 0} (server : Server E) where
    pub upgrade_history-runs : run_all server TemporaryHistory.upgrade s ≡ ok (beside s at_history)
    unfolding TemporaryHistory.upgrade trigger_on table_for removeprefix removesuffix ends_with
        is_allowed effect any
    upgrade_history-runs =
        subst (λ (t : Schema). run_all server TemporaryHistory.upgrade t ≡ ok (beside s at_history))
          (beside-nothing s)
          (run_all-beside server s nothing TemporaryHistory.upgrade upgrade_history-IsApart refl)

    pub upgrade_control-runs :
        run_all server ControlDeck.upgrade (beside s at_history) ≡ ok (beside s at_control_deck)
    unfolding TemporaryHistory.upgrade trigger_on table_for removeprefix removesuffix ends_with
        ControlDeck.upgrade is_allowed effect any
    upgrade_control-runs =
        run_all-beside server s at_history ControlDeck.upgrade upgrade_control-IsApart refl

    downgrade_control-runs :
        run_all server ControlDeck.downgrade (beside s at_control_deck) ≡ ok (beside s at_history)
    unfolding TemporaryHistory.upgrade trigger_on table_for removeprefix removesuffix ends_with
        ControlDeck.upgrade ControlDeck.downgrade is_allowed effect any select contains
    downgrade_control-runs =
        run_all-beside server s at_control_deck ControlDeck.downgrade downgrade_control-IsApart refl

    downgrade_history-runs : run_all server TemporaryHistory.downgrade (beside s at_history) ≡ ok s
    unfolding TemporaryHistory.upgrade trigger_on table_for removeprefix removesuffix ends_with
        TemporaryHistory.downgrade is_allowed effect any select
    downgrade_history-runs =
        subst
          (λ (t : Schema). run_all server TemporaryHistory.downgrade (beside s at_history) ≡ ok t)
          (beside-nothing s)
          (run_all-beside server s at_history TemporaryHistory.downgrade downgrade_history-IsApart
            refl)

-- On a schema that has room for what the revisions create, whatever else it holds: both revisions can
-- be applied one after the other, both can then be taken back in the opposite order, the second leads
-- back to the schema that the first one made, and the first to the schema that there was.
pub upgrade-downgrade :
    {E : Type 0} (server : Server E) (s : Schema)
    → HasRoom s
    → (history deck : Schema) × (run_all server TemporaryHistory.upgrade s ≡ ok history)
      × (run_all server ControlDeck.upgrade history ≡ ok deck)
      × (run_all server ControlDeck.downgrade deck ≡ ok history)
      × (run_all server TemporaryHistory.downgrade history ≡ ok s)
upgrade-downgrade server s room = (
  beside s at_history,
  beside s at_control_deck,
  upgrade_history-runs s room server,
  upgrade_control-runs s room server,
  downgrade_control-runs s room server,
  downgrade_history-runs s room server,
)

-- The table as SQLAlchemy's metadata describes it, which knows no trigger.
abbrev pub without_triggers : Table → Table
without_triggers t = record {
  name = t.name;
  columns = t.columns;
  constraints = t.constraints;
  indexes = t.indexes;
  triggers = [];
}

-- On a schema that has room for what the revisions create, the two upgrades leave the tables that
-- there were and add, column by column with types, keys, constraints and indexes, the tables that the
-- models declare, and one function. The names of the constraints of these tables are the names of all
-- the constraints that the database under the services may report as violated.
pub upgrade_declared :
    {E : Type 0} (server : Server E) (s : Schema)
    → HasRoom s
    → (history deck : Schema) × (added : List Table) × (f : RaisingFunction) × (run_all server
          TemporaryHistory.upgrade s
        ≡ ok history)
      × (run_all server ControlDeck.upgrade history ≡ ok deck)
      × (deck ≡ record { tables = s.tables ++ added; functions = s.functions ++ f ∷ [] })
      × (map without_triggers added ≡ target_metadata)
      × (all_constraint_names added ≡ map constraint_name all_constraints)
unfolding TemporaryHistory.upgrade trigger_on table_for removeprefix removesuffix ends_with
    ControlDeck.upgrade effect all_constraint_names select any constraint_name
upgrade_declared server s room = (
  beside s at_history,
  beside s at_control_deck,
  at_control_deck.tables,
  _,
  upgrade_history-runs s room server,
  upgrade_control-runs s room server,
  refl,
  refl,
  refl,
)
