-- ===== src/Persistence/Engine.antt =====
-- The database under the session. The constraints are those that
-- backend/app/persistence/models/temporary_history.py declares. SQLAlchemy and PostgreSQL are not part
-- of the repository: `Engine` is the interface that the services rely on.
pub mod Checked
pub mod Keys
use text.Mathlib.Text.{find?}
use organization_ai.Base.{
  ℕ, Bool, true, false, not, ◌&&◌, ◌||◌, String, Option, none, some, List, [], ◌∷◌, ◌==◌, leb,
  str_eq, if◌then◌else◌, ◌≡◌,
}
use organization_ai.Base.Json.{Uuid}
use organization_ai.Base.Query.{any}
use organization_ai.Base.Result.{Result, ok, err}
use organization_ai.Persistence.Rows.{CaseRow, DecisionRow, EventRow, Database}
use organization_ai.Persistence.Repository.{Pending, insert_rows, has_key}

pub data Constraint : Type 0 where
  case_key case_id_unique : Constraint
  decision_key decision_trace_unique decision_trace_known : Constraint
  event_key event_sequence_unique event_sequence_positive event_idempotency : Constraint
  event_trace_known event_previous_known : Constraint

-- The declared names, and PostgreSQL's default names where the models declare none.
unfoldable pub constraint_name : Constraint → String
constraint_name case_key = "temporary_case_snapshots_pkey"
constraint_name case_id_unique = "uq_temporary_case_snapshots_case_id"
constraint_name decision_key = "temporary_decision_snapshots_pkey"
constraint_name decision_trace_unique = "uq_temporary_decision_snapshots_trace_id"
constraint_name decision_trace_known = "temporary_decision_snapshots_trace_id_fkey"
constraint_name event_key = "temporary_audit_events_pkey"
constraint_name event_sequence_unique = "uq_temporary_audit_events_trace_sequence"
constraint_name event_sequence_positive = "ck_temporary_audit_events_sequence_positive"
constraint_name event_idempotency = "uq_temporary_audit_events_trace_idempotency"
constraint_name event_trace_known = "temporary_audit_events_trace_id_fkey"
constraint_name event_previous_known = "temporary_audit_events_previous_event_id_fkey"

-- Whether two rows of the table are the same in what must be unique.
unfoldable pub has_duplicate {ℓ} : {A : Type ℓ} → (A → A → Bool) → List A → Bool
unfolding any
has_duplicate same [] = false
has_duplicate same (x ∷ xs) = any (same x) xs || has_duplicate same xs

abbrev pub same_key : Option String → Option String → Bool
same_key none _ = false
same_key (some k) other = has_key k other

abbrev knows_case : Database → Uuid → Bool
knows_case db t = any (λ (row : CaseRow). row.trace_id == t) db.cases

abbrev knows_event : Database → Option Uuid → Bool
knows_event db none = true
knows_event db (some id) = any (λ (row : EventRow). row.event_id == id) db.events

unfoldable pub violates : Database → Constraint → Bool
unfolding has_duplicate has_key
violates db case_key = has_duplicate (λ (a b : CaseRow). a.trace_id == b.trace_id) db.cases
violates db case_id_unique = has_duplicate (λ (a b : CaseRow). str_eq a.case_id b.case_id) db.cases
violates db decision_key =
    has_duplicate (λ (a b : DecisionRow). a.decision_id == b.decision_id) db.decisions
violates db decision_trace_unique =
    has_duplicate (λ (a b : DecisionRow). a.trace_id == b.trace_id) db.decisions
violates db decision_trace_known =
    any (λ (d : DecisionRow). not (knows_case db d.trace_id)) db.decisions
violates db event_key = has_duplicate (λ (a b : EventRow). a.event_id == b.event_id) db.events
violates db event_sequence_unique =
    has_duplicate
      (λ (a b : EventRow). (a.trace_id == b.trace_id) && (a.sequence_number == b.sequence_number))
      db.events
violates db event_sequence_positive = any (λ (e : EventRow). leb e.sequence_number 0) db.events
violates db event_idempotency =
    has_duplicate
      (λ (a b : EventRow).
        (a.trace_id == b.trace_id) && same_key a.idempotency_key b.idempotency_key)
      db.events
violates db event_trace_known = any (λ (e : EventRow). not (knows_case db e.trace_id)) db.events
violates db event_previous_known =
    any (λ (e : EventRow). not (knows_event db e.previous_event_id)) db.events

-- `IntegrityError`: `orig.diag.constraint_name`, empty where the driver gives none, and `str(error)`.
pub record IntegrityError : Type 0 where
  pub diag_constraint_name : String
  pub message : String

-- `name in str(error)`
unfoldable pub contains : String → String → Bool
contains s t = elim (find? s t) [ none ↦ false | some _ ↦ true ]

-- the body shared by `_is_duplicate_case_id` and `_is_idempotency_conflict`
unfoldable pub names_constraint : String → IntegrityError → Bool
unfolding contains
names_constraint name e =
    if not (str_eq e.diag_constraint_name "")
    then str_eq e.diag_constraint_name name
    else contains e.message name

-- What the services rely on: a flush inserts all the pending rows if then no constraint is violated,
-- and otherwise inserts none and reports a violated constraint by its name.
pub record Engine : Type 0 where
  pub flush : Database → Pending → Result IntegrityError Database
  pub flush_accepts :
      (db : Database) (new : Pending)
      → ((k : Constraint) → violates (insert_rows db new) k ≡ false)
      → flush db new ≡ ok (insert_rows db new)
  pub flush_inserts :
      (db : Database) (new : Pending) {db' : Database}
      → flush db new ≡ ok db'
      → (db' ≡ insert_rows db new) × ((k : Constraint) → violates (insert_rows db new) k ≡ false)
  pub flush_rejects :
      (db : Database) (new : Pending) {e : IntegrityError}
      → flush db new ≡ err e
      → (k : Constraint) × (violates (insert_rows db new) k ≡ true)
        × (e.diag_constraint_name ≡ constraint_name k)
