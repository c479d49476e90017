-- ===== src/Migrations/Statements.antt =====
-- The statements that change rows of the tables of backend/alembic/versions. PostgreSQL is not part of the
-- repository: `Statements` is what the triggers rely on.
use organization_ai.Base.{
  Bool, true, false, ◌&&◌, String, List, [], ◌∷◌, ◌++◌, append-[], append_assoc, str_eq, ◌≡◌, refl,
  sym,
}
use organization_ai.Base.Query.{any}
use organization_ai.Base.Result.{Result, ok, err}
use organization_ai.Persistence.Rows.{CaseRow, DecisionRow, EventRow, Database}
use organization_ai.Persistence.Repository.{Pending, insert_rows}
use organization_ai.Migrations.Schema.{
  RowEvent, on_insert, on_update, on_delete, Trigger, Table, RaisingFunction, Schema,
}
use organization_ai.Migrations.Operations.{is_named}

-- `INSERT`, and for each of the tables `UPDATE … WHERE` and `DELETE … WHERE`.
pub data Statement : Type 0 where
  insert : Pending → Statement
  update_cases : (CaseRow → Bool) → (CaseRow → CaseRow) → Statement
  update_decisions : (DecisionRow → Bool) → (DecisionRow → DecisionRow) → Statement
  update_events : (EventRow → Bool) → (EventRow → EventRow) → Statement
  delete_cases : (CaseRow → Bool) → Statement
  delete_decisions : (DecisionRow → Bool) → Statement
  delete_events : (EventRow → Bool) → Statement

-- The statement would change or delete a row.
abbrev pub touches : Statement → Database → Bool
touches (insert _) db = false
touches (update_cases test _) db = any test db.cases
touches (update_decisions test _) db = any test db.decisions
touches (update_events test _) db = any test db.events
touches (delete_cases test) db = any test db.cases
touches (delete_decisions test) db = any test db.decisions
touches (delete_events test) db = any test db.events

abbrev pub table_of : Statement → String
table_of (insert _) = ""
table_of (update_cases _ _) = "temporary_case_snapshots"
table_of (update_decisions _ _) = "temporary_decision_snapshots"
table_of (update_events _ _) = "temporary_audit_events"
table_of (delete_cases _) = "temporary_case_snapshots"
table_of (delete_decisions _) = "temporary_decision_snapshots"
table_of (delete_events _) = "temporary_audit_events"

abbrev pub event_of : Statement → RowEvent
event_of (insert _) = on_insert
event_of (update_cases _ _) = on_update
event_of (update_decisions _ _) = on_update
event_of (update_events _ _) = on_update
event_of (delete_cases _) = on_delete
event_of (delete_decisions _) = on_delete
event_of (delete_events _) = on_delete

abbrev pub same_event : RowEvent → RowEvent → Bool
same_event on_insert on_insert = true
same_event on_update on_update = true
same_event on_delete on_delete = true
same_event _ _ = false

-- The trigger is one before the event, and the function that it calls raises.
abbrev pub fires : List RaisingFunction → RowEvent → Trigger → Bool
fires fs event g =
    any (same_event event) g.before && any (λ (f : RaisingFunction). str_eq f.name g.function) fs

abbrev pub is_guarded : List RaisingFunction → String → RowEvent → Table → Bool
is_guarded fs table event t = is_named table t && any (fires fs event) t.triggers

-- A statement that touches a row of the table runs a trigger that raises.
unfoldable pub raises_before : Schema → String → RowEvent → Bool
unfolding any
raises_before s table event = any (is_guarded s.functions table event) s.tables

-- What the triggers rely on: a row trigger that raises aborts a statement that touches a row; a
-- statement that touches none changes nothing; an insert that succeeds adds its rows.
pub record Statements (E : Type 0) : Type 0 where
  pub execute : Schema → Statement → Database → Result E Database
  pub execute_aborts :
      (s : Schema) (q : Statement) (db : Database)
      → raises_before s (table_of q) (event_of q) ≡ true
      → touches q db ≡ true
      → (e : E) × (execute s q db ≡ err e)
  pub execute_touches_none :
      (s : Schema) (q : Statement) (db : Database) {db' : Database}
      → same_event (event_of q) on_insert ≡ false
      → touches q db ≡ false
      → execute s q db ≡ ok db'
      → db' ≡ db
  pub execute_inserts :
      (s : Schema) (rows : Pending) (db : Database) {db' : Database}
      → execute s (insert rows) db ≡ ok db'
      → db' ≡ insert_rows db rows

-- A statement in a transaction of its own: an error rolls it back.
abbrev pub committed {ℓ} : {E : Type ℓ} → Result E Database → Database → Database
committed (ok db') db = db'
committed (err _) db = db

-- Any number of statements, one after another.
unfoldable pub execute_all :
    {E : Type 0} → Statements E → Schema → List Statement → Database → Database
execute_all server s [] db = db
execute_all server s (q ∷ qs) db = execute_all server s qs (committed (server.execute s q db) db)

-- Rows were only added behind those there were.
pub record Grows (old now : Database) : Type 0 where
  pub cases : List CaseRow
  pub decisions : List DecisionRow
  pub events : List EventRow
  pub now_cases : now.cases ≡ old.cases ++ cases
  pub now_decisions : now.decisions ≡ old.decisions ++ decisions
  pub now_events : now.events ≡ old.events ++ events

pub Grows-refl : (db : Database) → Grows db db
Grows-refl db = record {
  cases = [];
  decisions = [];
  events = [];
  now_cases = sym (append-[] db.cases);
  now_decisions = sym (append-[] db.decisions);
  now_events = sym (append-[] db.events);
}

pub Grows-trans : {a b c : Database} → Grows a b → Grows b c → Grows a c
Grows-trans {a} p q = record {
  cases = p.cases ++ q.cases;
  decisions = p.decisions ++ q.decisions;
  events = p.events ++ q.events;
  now_cases = rw (q.now_cases, p.now_cases) (append_assoc a.cases p.cases q.cases);
  now_decisions =
      rw (q.now_decisions, p.now_decisions) (append_assoc a.decisions p.decisions q.decisions);
  now_events = rw (q.now_events, p.now_events) (append_assoc a.events p.events q.events);
}

pub Grows-insert_rows : (db : Database) (rows : Pending) → Grows db (insert_rows db rows)
unfolding insert_rows
Grows-insert_rows db rows = record {
  cases = rows.cases;
  decisions = rows.decisions;
  events = rows.events;
  now_cases = refl;
  now_decisions = refl;
  now_events = refl;
}
