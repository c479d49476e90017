-- ===== src/Migrations/Frame.antt =====
-- The operations of backend/alembic/versions on a schema that holds other tables too: what is about other
-- names stays as it is.
use organization_ai.Base.{
  and_true, Bool, true, false, not, ◌&&◌, String, Option, none, some, List, [], ◌∷◌, ◌++◌, all, All,
  append_assoc, str_eq, ◌≡◌, refl, arith,
}
use organization_ai.Base.Query.{any}
use organization_ai.Base.Query.Absent.{any-behind, select-behind, any-append_right, any-weaken}
use organization_ai.Migrations.Schema.{
  ForeignKey, Column, TableConstraint, Trigger, Table, RaisingFunction, Schema,
}
use organization_ai.Migrations.Operations.{
  Operation, create_table, drop_table, add_column, drop_column, create_index, drop_index,
  create_function, create_trigger, drop_function_if_exists, is_named, name_of_constraint, has_name,
  is_taken, is_referenced_by, uses_function, is_resolved, has_column, has_key_column, is_definition,
  new_table, change, effect, is_allowed,
}

abbrev pub beside : Schema → Schema → Schema
beside s u = record { tables = s.tables ++ u.tables; functions = s.functions ++ u.functions }

-- The schema does not use the name, and no table of it refers to a table of that name.
pub record IsFree (s : Schema) (n : String) : Type 0 where
  pub not_taken : is_taken s n ≡ false
  pub not_referenced : any (is_referenced_by n) s.tables ≡ false

-- The schema has no function of that name, and no trigger of it calls one.
pub record IsUncalled (s : Schema) (f : String) : Type 0 where
  pub no_function : any (λ (g : RaisingFunction). str_eq g.name f) s.functions ≡ false
  pub no_trigger : any (uses_function f) s.tables ≡ false

-- The operation is about other names than the schema's.
abbrev pub IsApart : Schema → Operation → Type 0
IsApart s (create_table n cs ks) =
    IsFree s n × All (λ (k : TableConstraint). IsFree s (name_of_constraint k)) ks
IsApart s (drop_table n) = IsFree s n
IsApart s (add_column n c) = IsFree s n
IsApart s (drop_column n column) = IsFree s n
IsApart s (create_index n i) = IsFree s n × IsFree s i.name
IsApart s (drop_index n index) = IsFree s n
IsApart s (create_function f) = IsUncalled s f.name
IsApart s (create_trigger n g) = IsFree s n
IsApart s (drop_function_if_exists n) = IsUncalled s n

is_named-IsFree : (s : Schema) (n : String) → IsFree s n → any (is_named n) s.tables ≡ false
is_named-IsFree s n free =
    any-weaken (is_named n) (has_name n) s.tables (λ t same. rw (same) refl) free.not_taken

change-behind :
    (n : String) (f : Table → Table) (xs ys : List Table)
    → any (is_named n) xs ≡ false
    → change n f (xs ++ ys) ≡ xs ++ change n f ys
unfolding any
change-behind n f [] ys h = refl
change-behind n f (x ∷ xs) ys h = ground (arith, change-behind n f xs ys)

module _ (s u : Schema) where
  pub effect-beside : (o : Operation) → IsApart s o → effect o (beside s u) ≡ beside s (effect o u)
  unfolding effect
  effect-beside (create_table n cs ks) apart =
      rw (append_assoc s.tables u.tables (new_table n cs ks ∷ [])) refl
  effect-beside (drop_table n) apart =
      rw (select-behind (is_named n) s.tables u.tables (is_named-IsFree s n apart)) refl
  effect-beside (add_column n c) apart =
      rw (change-behind n _ s.tables u.tables (is_named-IsFree s n apart)) refl
  effect-beside (drop_column n column) apart =
      rw (change-behind n _ s.tables u.tables (is_named-IsFree s n apart)) refl
  effect-beside (create_index n i) apart =
      rw (change-behind n _ s.tables u.tables (is_named-IsFree s n apart.0)) refl
  effect-beside (drop_index n index) apart =
      rw (change-behind n _ s.tables u.tables (is_named-IsFree s n apart)) refl
  effect-beside (create_function f) apart = rw (append_assoc s.functions u.functions (f ∷ [])) refl
  effect-beside (create_trigger n g) apart =
      rw (change-behind n _ s.tables u.tables (is_named-IsFree s n apart)) refl
  effect-beside (drop_function_if_exists n) apart =
      rw
        (select-behind (λ (f : RaisingFunction). str_eq f.name n) s.functions u.functions
          apart.no_function)
        refl

  is_taken-beside : (n : String) → IsFree s n → is_taken (beside s u) n ≡ is_taken u n
  is_taken-beside n free = any-behind (has_name n) s.tables u.tables free.not_taken

  names_free-beside :
      (ks : List TableConstraint)
      → All (λ (k : TableConstraint). IsFree s (name_of_constraint k)) ks
      → all (λ (k : TableConstraint). not (is_taken u (name_of_constraint k))) ks ≡ true
      → all (λ (k : TableConstraint). not (is_taken (beside s u) (name_of_constraint k))) ks ≡ true
  names_free-beside [] free h = refl
  names_free-beside (k ∷ ks) free h =
      rw (is_taken-beside (name_of_constraint k) free.0)
        (ground (arith, names_free-beside ks free.1))

abbrev is_resolved_by : (ts : List Table) (o : Option ForeignKey) → Bool
is_resolved_by ts o = elim o [
  | none ↦ true
  | some key ↦ any (has_key_column key.table key.column) ts
]

is_resolved-behind :
    (xs ys : List Table) (o : Option ForeignKey)
    → is_resolved_by ys o ≡ true
    → is_resolved_by (xs ++ ys) o ≡ true
is_resolved-behind xs ys none h = refl
is_resolved-behind xs ys (some key) h =
    any-append_right (has_key_column key.table key.column) xs ys h

all_resolved-behind :
    (xs ys : List Table) (cs : List Column)
    → all (is_resolved ys) cs ≡ true
    → all (is_resolved (xs ++ ys)) cs ≡ true
all_resolved-behind xs ys [] h = refl
all_resolved-behind xs ys (c ∷ cs) h =
    let (first, rest) = and_true (is_resolved ys c) (all (is_resolved ys) cs) h in
    rw (is_resolved-behind xs ys c.foreign_key first) (all_resolved-behind xs ys cs rest)

module _ (s u : Schema) where
  -- What is allowed on one of the schemas is allowed on both.
  pub is_allowed-beside :
      (o : Operation) → IsApart s o → is_allowed o u ≡ true → is_allowed o (beside s u) ≡ true
  unfolding is_allowed
  is_allowed-beside (create_table n cs ks) apart h =
      let defined = and_true (is_definition n cs ks) _ h in
      let fresh = and_true (not (is_taken u n)) _ defined.1 in
      let rest =
        and_true (all (λ (k : TableConstraint). not (is_taken u (name_of_constraint k))) ks) _
          fresh.1 in
      rw
        (
          defined.0,
          is_taken-beside s u n apart.0,
          fresh.0,
          names_free-beside s u ks apart.1 rest.0,
          append_assoc s.tables u.tables (new_table n cs ks ∷ []),
        )
        (all_resolved-behind s.tables (u.tables ++ new_table n cs ks ∷ []) cs rest.1)
  is_allowed-beside (drop_table n) apart h =
      let parts = and_true (any (is_named n) u.tables) _ h in
      rw
        (
          any-append_right (is_named n) s.tables u.tables parts.0,
          any-behind (is_referenced_by n) s.tables u.tables apart.not_referenced,
        )
        parts.1
  is_allowed-beside (add_column n c) apart h =
      let parts =
        and_true (any (λ (t : Table). is_named n t && not (has_column c.name t.columns)) u.tables) _
          h in
      let rest = and_true c.nullable _ parts.1 in
      rw (any-append_right _ s.tables u.tables parts.0, rest.0)
        (is_resolved-behind s.tables u.tables c.foreign_key rest.1)
  is_allowed-beside (drop_column n column) apart h = any-append_right _ s.tables u.tables h
  is_allowed-beside (create_index n i) apart h =
      let parts = and_true (not (is_taken u i.name)) _ h in
      rw (is_taken-beside s u i.name apart.1, parts.0)
        (any-append_right _ s.tables u.tables parts.1)
  is_allowed-beside (drop_index n index) apart h = any-append_right _ s.tables u.tables h
  is_allowed-beside (create_function f) apart h =
      rw
        (any-behind (λ (g : RaisingFunction). str_eq g.name f.name) s.functions u.functions
          apart.no_function)
        h
  is_allowed-beside (create_trigger n g) apart h =
      let parts =
        and_true
          (any
            (λ (t : Table).
              is_named n t && not (any (λ (h : Trigger). str_eq h.name g.name) t.triggers))
            u.tables)
          _ h in
      rw (any-append_right _ s.tables u.tables parts.0)
        (any-append_right _ s.functions u.functions parts.1)
  is_allowed-beside (drop_function_if_exists n) apart h =
      rw (any-behind (uses_function n) s.tables u.tables apart.no_trigger) h
