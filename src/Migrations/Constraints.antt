-- ===== src/Migrations/Constraints.antt =====
-- The names of the constraints of a table of backend/alembic/versions, by which the services of
-- backend/app/application tell what a write has violated.
use Prim.Native.String.{◌++◌ as append}
use organization_ai.Base.{
  Bool, true, false, String, none, some, List, [], ◌∷◌, ◌++◌, map, if◌then◌else◌,
}
use organization_ai.Base.Query.{select, any}
use organization_ai.Migrations.Schema.{Column, Index, Table}
use organization_ai.Migrations.Operations.{name_of_constraint}

-- PostgreSQL's names of the key and of a reference, where none is declared.
primary_key_names : Table → List String
unfolding any
primary_key_names t =
    if any (λ (c : Column). c.primary_key) t.columns then append t.name "_pkey" ∷ [] else []

is_reference : Column → Bool
is_reference c = elim c.foreign_key [ none ↦ false | some key ↦ true ]

foreign_key_names : Table → List String
unfolding select is_reference
foreign_key_names t =
    map (λ (c : Column). append t.name (append "_" (append c.name "_fkey")))
      (select is_reference t.columns)

unique_index_names : Table → List String
unfolding select
unique_index_names t = map (λ (i : Index). i.name) (select (λ (i : Index). i.unique) t.indexes)

-- The constraints of a table: its key, those that are declared, its unique indexes, its references.
unfoldable pub constraint_names : Table → List String
unfolding primary_key_names foreign_key_names unique_index_names
constraint_names t =
    primary_key_names t
    ++ (map name_of_constraint t.constraints ++ (unique_index_names t ++ foreign_key_names t))

unfoldable pub all_constraint_names : List Table → List String
unfolding constraint_names
all_constraint_names [] = []
all_constraint_names (t ∷ ts) = constraint_names t ++ all_constraint_names ts
