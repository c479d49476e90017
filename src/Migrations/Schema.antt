-- ===== src/Migrations/Schema.antt =====
-- What backend/alembic/versions and backend/app/persistence/models/temporary_history.py say of a
-- table, as SQLAlchemy's `Column`, `UniqueConstraint`, `CheckConstraint`, `Index` and the triggers of
-- PostgreSQL name it.
use organization_ai.Base.{ℕ, Bool, true, false, String, Option, none, some, List}

pub data ColumnType : Type 0 where
  uuid : ColumnType
  text : ColumnType
  datetime : ColumnType
  jsonb : ColumnType
  integer : ColumnType
  string : ℕ → ColumnType

-- `ForeignKey("table.column")`
pub record ForeignKey : Type 0 where
  pub table : String
  pub column : String

pub record Column : Type 0 where
  pub name : String
  pub type : ColumnType
  pub foreign_key : Option ForeignKey
  pub primary_key : Bool
  pub nullable : Bool

pub data TableConstraint : Type 0 where
  unique_constraint : List String → String → TableConstraint
  check_constraint : String → String → TableConstraint

pub record Index : Type 0 where
  pub name : String
  pub columns : List String
  pub unique : Bool
  pub postgresql_where : Option String

pub data RowEvent : Type 0 where
  on_insert on_update on_delete : RowEvent

-- A trigger that runs a function before the event, for each row.
pub record Trigger : Type 0 where
  pub name : String
  pub before : List RowEvent
  pub function : String

pub record Table : Type 0 where
  pub name : String
  pub columns : List Column
  pub constraints : List TableConstraint
  pub indexes : List Index
  pub triggers : List Trigger

-- A function of PostgreSQL whose body is one `RAISE EXCEPTION`.
pub record RaisingFunction : Type 0 where
  pub name : String
  pub message : String

pub record Schema : Type 0 where
  pub tables : List Table
  pub functions : List RaisingFunction

-- `Column(name, type, primary_key=True)`: a primary key is never null
abbrev pub key_column : String → ColumnType → Column
key_column name type = record {
  name = name;
  type = type;
  foreign_key = none;
  primary_key = true;
  nullable = false;
}

-- `Column(name, type, nullable=…)`
abbrev pub plain_column : String → ColumnType → Bool → Column
plain_column name type nullable = record {
  name = name;
  type = type;
  foreign_key = none;
  primary_key = false;
  nullable = nullable;
}

-- `Column(name, UUID, ForeignKey("table.column"), nullable=…)`
abbrev pub reference_column : String → String → String → Bool → Column
reference_column name table column nullable = record {
  name = name;
  type = uuid;
  foreign_key = some (record { table = table; column = column });
  primary_key = false;
  nullable = nullable;
}
