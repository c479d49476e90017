-- ===== src/Migrations/Checked.antt =====
-- A server that checks the conditions of an operation, and one that runs the triggers of a table: the
-- interfaces can be met.
use organization_ai.Base.{
  Bool, true, false, not, String, List, [], ◌∷◌, map, if◌then◌else◌, ◌≡◌, refl, ◌∙◌, arith,
}
use organization_ai.Base.Query.{select, any}
use organization_ai.Base.Result.{Result, ok, err}
use organization_ai.Persistence.Rows.{Database}
use organization_ai.Persistence.Repository.{Pending, insert_rows}
use organization_ai.Migrations.Schema.{on_insert, Schema}
use organization_ai.Migrations.Operations.{effect, is_allowed, Server}
use organization_ai.Migrations.Statements.{
  Statement, insert, update_cases, update_decisions, update_events, delete_cases, delete_decisions,
  delete_events, touches, table_of, event_of, same_event, raises_before, Statements,
}

abbrev pub checked_server : Server String
checked_server = record {
  run = λ o s. if is_allowed o s then ok (effect o s) else err "refused";
  run_allowed = λ o s h. rw (h) refl;
}

update_where {ℓ} : {A : Type ℓ} → (A → Bool) → (A → A) → List A → List A
update_where test f xs = map (λ x. if test x then f x else x) xs

delete_where {ℓ} : {A : Type ℓ} → (A → Bool) → List A → List A
unfolding select
delete_where test xs = select (λ x. not (test x)) xs

update_where-none {ℓ} :
    {A : Type ℓ} (test : A → Bool) (f : A → A) (xs : List A)
    → any test xs ≡ false
    → update_where test f xs ≡ xs
unfolding any update_where
update_where-none test f [] h = refl
update_where-none test f (x ∷ xs) h = ground (arith, update_where-none test f xs)

delete_where-none {ℓ} :
    {A : Type ℓ} (test : A → Bool) (xs : List A) → any test xs ≡ false → delete_where test xs ≡ xs
unfolding delete_where any select
delete_where-none test [] h = refl
delete_where-none test (x ∷ xs) h = ground (arith, delete_where-none test xs)

-- The tables with the statement carried out.
apply : Statement → Database → Database
unfolding update_where delete_where insert_rows
apply (insert rows) db = insert_rows db rows
apply (update_cases test f) db = record {
  cases = update_where test f db.cases;
  decisions = db.decisions;
  events = db.events;
}
apply (update_decisions test f) db = record {
  cases = db.cases;
  decisions = update_where test f db.decisions;
  events = db.events;
}
apply (update_events test f) db = record {
  cases = db.cases;
  decisions = db.decisions;
  events = update_where test f db.events;
}
apply (delete_cases test) db = record {
  cases = delete_where test db.cases;
  decisions = db.decisions;
  events = db.events;
}
apply (delete_decisions test) db = record {
  cases = db.cases;
  decisions = delete_where test db.decisions;
  events = db.events;
}
apply (delete_events test) db = record {
  cases = db.cases;
  decisions = db.decisions;
  events = delete_where test db.events;
}

apply-none :
    (q : Statement) (db : Database)
    → same_event (event_of q) on_insert ≡ false
    → touches q db ≡ false
    → apply q db ≡ db
unfolding apply
apply-none (insert rows) db h none = absurd (cc)
apply-none (update_cases test f) db h none = rw (update_where-none test f db.cases none) refl
apply-none (update_decisions test f) db h none =
    rw (update_where-none test f db.decisions none) refl
apply-none (update_events test f) db h none = rw (update_where-none test f db.events none) refl
apply-none (delete_cases test) db h none = rw (delete_where-none test db.cases none) refl
apply-none (delete_decisions test) db h none = rw (delete_where-none test db.decisions none) refl
apply-none (delete_events test) db h none = rw (delete_where-none test db.events none) refl

-- A statement that touches a row of a guarded table is aborted.
run_guarded : Bool → Bool → Statement → Database → Result String Database
run_guarded true true q db = err "temporary history is immutable"
run_guarded true false q db = ok (apply q db)
run_guarded false row q db = ok (apply q db)

unfoldable pub execute_checked : Schema → Statement → Database → Result String Database
unfolding run_guarded raises_before apply
execute_checked s q db = run_guarded (touches q db) (raises_before s (table_of q) (event_of q)) q db

run_guarded-ok :
    (row guarded : Bool) (q : Statement) (db : Database) {db' : Database}
    → run_guarded row guarded q db ≡ ok db'
    → db' ≡ apply q db
unfolding run_guarded
run_guarded-ok true true q db h = absurd (cc)
run_guarded-ok true false q db h = cc
run_guarded-ok false guarded q db h = cc

module _ (s : Schema) where
  pub execute_checked_aborts :
      (q : Statement) (db : Database)
      → raises_before s (table_of q) (event_of q) ≡ true
      → touches q db ≡ true
      → (e : String) × (execute_checked s q db ≡ err e)
  unfolding execute_checked run_guarded
  execute_checked_aborts q db guarded row =
      ("temporary history is immutable", rw (row, guarded) refl)

  pub execute_checked-none :
      (q : Statement) (db : Database) {db' : Database}
      → same_event (event_of q) on_insert ≡ false
      → touches q db ≡ false
      → execute_checked s q db ≡ ok db'
      → db' ≡ db
  unfolding execute_checked
  execute_checked-none q db no_insert no_row done =
      run_guarded-ok (touches q db) (raises_before s (table_of q) (event_of q)) q db done
      ∙ apply-none q db no_insert no_row

  pub execute_checked-insert :
      (rows : Pending) (db : Database) {db' : Database}
      → execute_checked s (insert rows) db ≡ ok db'
      → db' ≡ insert_rows db rows
  unfolding execute_checked apply
  execute_checked-insert rows db done =
      run_guarded-ok false (raises_before s "" on_insert) (insert rows) db done

abbrev pub checked_statements : Statements String
checked_statements = record {
  execute = execute_checked;
  execute_aborts = execute_checked_aborts;
  execute_touches_none = execute_checked-none;
  execute_inserts = execute_checked-insert;
}
