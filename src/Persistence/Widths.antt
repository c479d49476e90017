-- ===== src/Persistence/Widths.antt =====
-- The widths of the `String(…)` columns that backend/app/persistence/models/temporary_history.py declares:
-- PostgreSQL refuses a text with more characters.
use organization_ai.Base.{
  ℕ, ◌≤◌, Bool, true, String, Option, none, some, length, leb, le→leb, str_eq, All, All-append, ◌≡◌,
}
use organization_ai.Base.Query.{find}
use organization_ai.Base.Text.{codes}
use organization_ai.Persistence.Rows.{CaseRow, DecisionRow, EventRow, Database}
use organization_ai.Persistence.Repository.{Pending, insert_rows}
use organization_ai.Migrations.Schema.{ColumnType, string, Column, Table}
use organization_ai.Migrations.Declared.{case_table, decision_table, event_table}

abbrev pub limit_of : ColumnType → Option ℕ
limit_of (string n) = some n
limit_of _ = none

-- The width of a column of the table, if it has one.
unfoldable pub width_of : Table → String → Option ℕ
unfolding find
width_of t column = elim (find (λ (c : Column). str_eq c.name column) t.columns) [
  | none ↦ none
  | some c ↦ limit_of c.type
]

abbrev pub is_within : Option ℕ → String → Bool
is_within none text = true
is_within (some n) text = leb (length (codes text)) n

-- The text is no longer than the column is wide.
abbrev pub Fits : Table → String → String → Type 0
Fits t column text = is_within (width_of t column) text ≡ true

abbrev pub FitsIfGiven : Table → String → Option String → Type 0
FitsIfGiven t column none = Unit
FitsIfGiven t column (some text) = Fits t column text

pub record CaseFits (row : CaseRow) : Type 0 where
  pub profile_id : Fits case_table "profile_id" row.profile_id
  pub profile_source : Fits case_table "profile_source" row.profile_source
  pub data_class : Fits case_table "data_class" row.data_class
  pub workflow_validation_status :
      Fits case_table "workflow_validation_status" row.workflow_validation_status

pub record DecisionFits (row : DecisionRow) : Type 0 where
  pub profile_id : Fits decision_table "profile_id" row.profile_id
  pub outcome : Fits decision_table "outcome" row.outcome
  pub applied_rule_id : Fits decision_table "applied_rule_id" row.applied_rule_id

pub record EventFits (row : EventRow) : Type 0 where
  pub actor_type : Fits event_table "actor_type" row.actor_type
  pub action : Fits event_table "action" row.action
  pub idempotency_key : FitsIfGiven event_table "idempotency_key" row.idempotency_key
  pub command_fingerprint : FitsIfGiven event_table "command_fingerprint" row.command_fingerprint

-- Every text of the tables fits its column.
pub record FitsColumns (db : Database) : Type 0 where
  pub cases : All CaseFits db.cases
  pub decisions : All DecisionFits db.decisions
  pub events : All EventFits db.events

pub FitsColumns-insert_rows :
    (db : Database) (new : Pending)
    → FitsColumns db
    → All CaseFits new.cases
    → All DecisionFits new.decisions
    → All EventFits new.events
    → FitsColumns (insert_rows db new)
unfolding insert_rows
FitsColumns-insert_rows db new h cs ds es = record {
  cases = All-append CaseFits db.cases new.cases h.cases cs;
  decisions = All-append DecisionFits db.decisions new.decisions h.decisions ds;
  events = All-append EventFits db.events new.events h.events es;
}

-- The columns of what a control is given are 255 and 64 characters wide.
pub Fits-idempotency_key :
    (key : String) → length (codes key) ≤ 255 → Fits event_table "idempotency_key" key
unfolding width_of find
Fits-idempotency_key key h = le→leb (length (codes key)) 255 h

pub Fits-command_fingerprint :
    (fingerprint : String)
    → length (codes fingerprint) ≤ 64
    → Fits event_table "command_fingerprint" fingerprint
unfolding width_of find
Fits-command_fingerprint fingerprint h = le→leb (length (codes fingerprint)) 64 h
