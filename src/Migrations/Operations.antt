-- ===== src/Migrations/Operations.antt =====
-- The operations that backend/alembic/versions calls on `op`. Alembic and PostgreSQL are not part of the
-- repository: `Server` is what the revisions rely on.
use organization_ai.Base.{
  Bool, true, false, not, ◌&&◌, ◌||◌, String, none, some, List, [], ◌∷◌, ◌++◌, map, all, str_eq,
  if◌then◌else◌, ◌≡◌,
}
use organization_ai.Base.Query.{select, any}
use organization_ai.Base.Result.{Result, ok, ◌>>=◌}
use organization_ai.Persistence.Engine.{contains}
use organization_ai.Migrations.Schema.{
  Column, TableConstraint, unique_constraint, check_constraint, Index, Trigger, Table,
  RaisingFunction, Schema,
}

pub data Operation : Type 0 where
  create_table : String → List Column → List TableConstraint → Operation
  drop_table : String → Operation
  add_column : String → Column → Operation
  drop_column : String → String → Operation
  create_index : String → Index → Operation
  drop_index : String → String → Operation
  create_function : RaisingFunction → Operation
  create_trigger : String → Trigger → Operation
  drop_function_if_exists : String → Operation

abbrev pub is_named : String → Table → Bool
is_named n t = str_eq t.name n

abbrev pub name_of_constraint : TableConstraint → String
name_of_constraint (unique_constraint _ n) = n
name_of_constraint (check_constraint _ n) = n

-- The name is that of the table, or of a constraint or an index of it.
abbrev pub has_name : String → Table → Bool
has_name n t =
    str_eq t.name n
    || (any (λ (c : TableConstraint). str_eq (name_of_constraint c) n) t.constraints
        || any (λ (i : Index). str_eq i.name n) t.indexes)

-- The names in use, as one pool.
abbrev pub is_taken : Schema → String → Bool
is_taken s n = any (has_name n) s.tables

abbrev pub refers_to : String → Column → Bool
refers_to n c = elim c.foreign_key [ none ↦ false | some key ↦ str_eq key.table n ]

-- A column of another table refers to the table.
abbrev pub is_referenced_by : String → Table → Bool
is_referenced_by n t = not (str_eq t.name n) && any (refers_to n) t.columns

abbrev pub uses_function : String → Table → Bool
uses_function f t = any (λ (g : Trigger). str_eq g.function f) t.triggers

abbrev pub has_column : String → List Column → Bool
has_column n cs = any (λ (c : Column). str_eq c.name n) cs

-- A primary key of that name is in the table of that name.
abbrev pub has_key_column : String → String → Table → Bool
has_key_column table column t =
    is_named table t && any (λ (c : Column). str_eq c.name column && c.primary_key) t.columns

-- What a column refers to is in the tables.
abbrev pub is_resolved : List Table → Column → Bool
is_resolved ts c = elim c.foreign_key [
  | none ↦ true
  | some key ↦ any (has_key_column key.table key.column) ts
]

abbrev pub new_table : String → List Column → List TableConstraint → Table
new_table n cs ks = record { name = n; columns = cs; constraints = ks; indexes = []; triggers = [] }

-- The tables with a change to the table of that name.
abbrev pub change : String → (Table → Table) → List Table → List Table
change n f ts = map (λ (t : Table). if is_named n t then f t else t) ts

abbrev pub with_columns : (List Column → List Column) → Table → Table
with_columns f t = record {
  name = t.name;
  columns = f t.columns;
  constraints = t.constraints;
  indexes = t.indexes;
  triggers = t.triggers;
}

abbrev pub with_indexes : (List Index → List Index) → Table → Table
with_indexes f t = record {
  name = t.name;
  columns = t.columns;
  constraints = t.constraints;
  indexes = f t.indexes;
  triggers = t.triggers;
}

abbrev pub with_trigger : Trigger → Table → Table
with_trigger g t = record {
  name = t.name;
  columns = t.columns;
  constraints = t.constraints;
  indexes = t.indexes;
  triggers = t.triggers ++ g ∷ [];
}

-- The schema that an operation that is carried out leaves.
unfoldable pub effect : Operation → Schema → Schema
unfolding select
effect (create_table n cs ks) s = record {
  tables = s.tables ++ new_table n cs ks ∷ [];
  functions = s.functions;
}
effect (drop_table n) s = record {
  tables = select (λ (t : Table). not (is_named n t)) s.tables;
  functions = s.functions;
}
effect (add_column n c) s = record {
  tables = change n (with_columns (λ cs. cs ++ c ∷ [])) s.tables;
  functions = s.functions;
}
effect (drop_column n column) s = record {
  tables = change n (with_columns (select (λ (c : Column). not (str_eq c.name column)))) s.tables;
  functions = s.functions;
}
effect (create_index n i) s = record {
  tables = change n (with_indexes (λ is. is ++ i ∷ [])) s.tables;
  functions = s.functions;
}
effect (drop_index n index) s = record {
  tables = change n (with_indexes (select (λ (i : Index). not (str_eq i.name index)))) s.tables;
  functions = s.functions;
}
effect (create_function f) s = record { tables = s.tables; functions = s.functions ++ f ∷ [] }
effect (create_trigger n g) s = record {
  tables = change n (with_trigger g) s.tables;
  functions = s.functions;
}
effect (drop_function_if_exists n) s = record {
  tables = s.tables;
  functions = select (λ (f : RaisingFunction). not (str_eq f.name n)) s.functions;
}

-- An index or a constraint of the table, its primary key included, is about the column.
abbrev pub is_about : String → TableConstraint → Bool
is_about column (unique_constraint ns _) = any (λ n. str_eq n column) ns
is_about column (check_constraint condition _) = contains condition column

abbrev pub is_index_about : String → Index → Bool
is_index_about column i =
    any (λ n. str_eq n column) i.columns
    || elim i.postgresql_where [ none ↦ false | some condition ↦ contains condition column ]

abbrev pub is_needed : String → Table → Bool
is_needed column t =
    any (λ (c : Column). str_eq c.name column && c.primary_key) t.columns
    || (any (is_about column) t.constraints || any (is_index_about column) t.indexes)

abbrev pub has_index : String → Table → Bool
has_index index t = any (λ (i : Index). str_eq i.name index) t.indexes

unfoldable pub are_distinct : List String → Bool
unfolding any
are_distinct [] = true
are_distinct (n ∷ ns) = not (any (λ m. str_eq m n) ns) && are_distinct ns

-- The columns of a unique constraint are among these.
abbrev pub is_over : List Column → TableConstraint → Bool
is_over cs (unique_constraint ns _) = all (λ n. has_column n cs) ns
is_over cs (check_constraint _ _) = true

-- The definition of a table names no column and no constraint twice, and no column that it has not.
unfoldable pub is_definition : String → List Column → List TableConstraint → Bool
unfolding are_distinct any
is_definition n cs ks =
    are_distinct (map (λ (c : Column). c.name) cs)
    && (are_distinct (n ∷ map name_of_constraint ks) && all (is_over cs) ks)

-- Conditions under which PostgreSQL carries the operation out: a new name is not taken; what is
-- referred to, changed or dropped is there; and nothing else needs what is dropped. Texts of conditions
-- are taken to be valid, and rows that are there to meet a new unique index.
unfoldable pub is_allowed : Operation → Schema → Bool
unfolding any contains is_definition
is_allowed (create_table n cs ks) s =
    is_definition n cs ks
    && (not (is_taken s n)
        && (all (λ (k : TableConstraint). not (is_taken s (name_of_constraint k))) ks
            && all (is_resolved (s.tables ++ new_table n cs ks ∷ [])) cs))
is_allowed (drop_table n) s = any (is_named n) s.tables && not (any (is_referenced_by n) s.tables)
is_allowed (add_column n c) s =
    any (λ (t : Table). is_named n t && not (has_column c.name t.columns)) s.tables
    && (c.nullable && is_resolved s.tables c)
is_allowed (drop_column n column) s =
    any (λ (t : Table). is_named n t && (has_column column t.columns && not (is_needed column t)))
      s.tables
is_allowed (create_index n i) s =
    not (is_taken s i.name)
    && any (λ (t : Table). is_named n t && all (λ column. has_column column t.columns) i.columns)
        s.tables
is_allowed (drop_index n index) s = any (λ (t : Table). is_named n t && has_index index t) s.tables
is_allowed (create_function f) s =
    not (any (λ (g : RaisingFunction). str_eq g.name f.name) s.functions)
is_allowed (create_trigger n g) s =
    any
      (λ (t : Table). is_named n t && not (any (λ (h : Trigger). str_eq h.name g.name) t.triggers))
      s.tables
    && any (λ (f : RaisingFunction). str_eq f.name g.function) s.functions
is_allowed (drop_function_if_exists n) s = not (any (uses_function n) s.tables)

-- What the revisions rely on: an allowed operation is carried out.
pub record Server (E : Type 0) : Type 0 where
  pub run : Operation → Schema → Result E Schema
  pub run_allowed : (o : Operation) (s : Schema) → is_allowed o s ≡ true → run o s ≡ ok (effect o s)

-- The calls of a revision, one after another: the first that raises ends it.
unfoldable pub run_all : {E : Type 0} → Server E → List Operation → Schema → Result E Schema
run_all server [] s = ok s
run_all server (o ∷ os) s = server.run o s >>= run_all server os
