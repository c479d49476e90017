-- ===== src/Migrations/Immutable.antt =====
-- What the triggers of backend/alembic/versions/6a1c2e3f9b4d_temporary_history.py make of the statements that
-- change rows.
use organization_ai.Base.{
  and_true, Bool, true, false, ◌&&◌, String, List, [], ◌∷◌, ◌≡◌, refl, sym, ap, ◌∙◌, subst, inl,
  inr, Bool-cases,
}
use organization_ai.Base.Query.{any}
use organization_ai.Base.Query.Absent.{any-append_right, any-strengthen}
use organization_ai.Base.Result.{Result, ok, ok-injective, Result-cases}
use organization_ai.Persistence.Rows.{Database}
use organization_ai.Persistence.Repository.{Pending, insert_rows}
use organization_ai.Migrations.Schema.{RowEvent, on_insert, Trigger, Schema}
use organization_ai.Migrations.Operations.{effect, is_named, Server, run_all}
use organization_ai.Migrations.Names.{table_for, removeprefix, removesuffix, ends_with}
use organization_ai.Migrations.Statements.{
  Statement, insert, update_cases, update_decisions, update_events, delete_cases, delete_decisions,
  delete_events, touches, table_of, event_of, same_event, fires, is_guarded, raises_before,
  Statements, committed, execute_all, Grows, Grows-refl, Grows-trans, Grows-insert_rows,
}
use organization_ai.Migrations.Frame.{beside}
use organization_ai.Migrations.TemporaryHistory.{trigger_on}
use organization_ai.Migrations.TemporaryHistory
use organization_ai.Migrations.ControlDeck
use organization_ai.Migrations.Upgrade.{
  HasRoom, at_history, at_control_deck, upgrade_history-runs, upgrade_control-runs,
}

-- Each table's triggers raise before an update and before a delete.
abbrev pub IsGuarded : Schema → Type 0
IsGuarded s =
    (q : Statement)
    → same_event (event_of q) on_insert ≡ false
    → raises_before s (table_of q) (event_of q) ≡ true

module _ {E : Type 0} (server : Statements E) (s : Schema) (guarded : IsGuarded s) where
  changes_none :
      (q : Statement) (db : Database)
      → same_event (event_of q) on_insert ≡ false
      → committed (server.execute s q db) db ≡ db
  changes_none q db no_insert = elim (Result-cases (server.execute s q db)) [
    | inl (db', done) ↦ elim (Bool-cases (touches q db)) [
      | inl some_row ↦
          let (e, aborted) = server.execute_aborts s q db (guarded q no_insert) some_row in
          absurd (cc (done, aborted))
      | inr no_row ↦ rw (done) (server.execute_touches_none s q db no_insert no_row done)
    ]
    | inr (e, raised) ↦ rw (raised) refl
  ]

  inserts_only :
      (rows : Pending) (db : Database) → Grows db (committed (server.execute s (insert rows) db) db)
  inserts_only rows db = elim (Result-cases (server.execute s (insert rows) db)) [
    | inl (db', done) ↦
        subst (Grows db) {x = insert_rows db rows}
          (sym (server.execute_inserts s rows db done)
            ∙ sym (ap (λ (r : Result E Database). committed r db) done))
          (Grows-insert_rows db rows)
    | inr (e, raised) ↦ rw (raised) (Grows-refl db)
  ]

  Grows-change :
      (q : Statement) (db : Database)
      → same_event (event_of q) on_insert ≡ false
      → Grows db (committed (server.execute s q db) db)
  Grows-change q db no_insert = rw (changes_none q db no_insert) (Grows-refl db)

  Grows-execute : (q : Statement) (db : Database) → Grows db (committed (server.execute s q db) db)
  Grows-execute (insert rows) db = inserts_only rows db
  Grows-execute (update_cases test f) db = Grows-change (update_cases test f) db refl
  Grows-execute (update_decisions test f) db = Grows-change (update_decisions test f) db refl
  Grows-execute (update_events test f) db = Grows-change (update_events test f) db refl
  Grows-execute (delete_cases test) db = Grows-change (delete_cases test) db refl
  Grows-execute (delete_decisions test) db = Grows-change (delete_decisions test) db refl
  Grows-execute (delete_events test) db = Grows-change (delete_events test) db refl

  Grows-execute_all : (qs : List Statement) (db : Database) → Grows db (execute_all server s qs db)
  unfolding execute_all
  Grows-execute_all [] db = Grows-refl db
  Grows-execute_all (q ∷ qs) db =
      Grows-trans (Grows-execute q db) (Grows-execute_all qs (committed (server.execute s q db) db))

and_intro : {a b : Bool} → a ≡ true → b ≡ true → (a && b) ≡ true
and_intro h h' = rw (h) h'

-- What raises goes on raising where other tables and functions stand beside.
module _ (s u : Schema) (event : RowEvent) where
  fires-beside :
      (g : Trigger) → fires u.functions event g ≡ true → fires (beside s u).functions event g ≡ true
  fires-beside g h =
      let (before, raising) = and_true (any (same_event event) g.before) _ h in
      and_intro before (any-append_right _ s.functions u.functions raising)

  raises_before-beside :
      (table : String)
      → raises_before u table event ≡ true
      → raises_before (beside s u) table event ≡ true
  unfolding raises_before
  raises_before-beside table h =
      any-append_right (is_guarded (beside s u).functions table event) s.tables u.tables (
        any-strengthen (is_guarded u.functions table event)
          (is_guarded (beside s u).functions table event) u.tables
          (λ t there.
            let (named, fired) = and_true (is_named table t) _ there in
            and_intro named (
              any-strengthen (fires u.functions event) (fires (beside s u).functions event)
                t.triggers fires-beside fired))
          h)

IsGuarded-at_control_deck : IsGuarded at_control_deck
unfolding TemporaryHistory.upgrade trigger_on table_for removeprefix removesuffix ends_with
    ControlDeck.upgrade effect raises_before any
IsGuarded-at_control_deck (insert rows) h = absurd (cc)
IsGuarded-at_control_deck (update_cases test f) h = refl
IsGuarded-at_control_deck (update_decisions test f) h = refl
IsGuarded-at_control_deck (update_events test f) h = refl
IsGuarded-at_control_deck (delete_cases test) h = refl
IsGuarded-at_control_deck (delete_decisions test) h = refl
IsGuarded-at_control_deck (delete_events test) h = refl

-- On the schema that the two upgrades make of one that has room for them: whatever INSERT, UPDATE and
-- DELETE statements are executed one after another, whatever they test and assign, the three tables
-- keep every row that they have, unchanged and in place, and only have rows added behind.
pub upgrade-Grows :
    {E F : Type 0} (server : Server F) (statements : Statements E) (s history deck : Schema)
    (qs : List Statement) (db : Database)
    → HasRoom s
    → run_all server TemporaryHistory.upgrade s ≡ ok history
    → run_all server ControlDeck.upgrade history ≡ ok deck
    → Grows db (execute_all statements deck qs db)
upgrade-Grows server statements s history deck qs db room first second =
    let at_first : history ≡ beside s at_history =
      ok-injective (sym first ∙ upgrade_history-runs s room server) in
    let at_second : deck ≡ beside s at_control_deck = ok-injective (
      sym second
      ∙ ap (run_all server ControlDeck.upgrade) at_first
      ∙ upgrade_control-runs s room server) in
    Grows-execute_all statements deck
      (subst IsGuarded (sym at_second) (λ q no_insert.
        raises_before-beside s at_control_deck (event_of q) (table_of q)
          (IsGuarded-at_control_deck q no_insert)))
      qs db
