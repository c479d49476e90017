-- ===== src/Migrations/Environment.antt =====
-- backend/alembic/env.py: how the operations of the revisions are run. Alembic's context and the
-- connection to the database are not part of the repository: the operations that Alembic chooses, and
-- whether the database can be reached, are parameters.
use organization_ai.Base.{
  Bool, true, false, String, Option, List, [], ◌∷◌, ◌≡◌, ◌⊎◌, inl, inr, sym, refl, if◌then◌else◌,
}
use organization_ai.Base.Result.{PyError, Result, ok, err, Result-cases}
use organization_ai.Runtime.Settings.{Source, Settings, is_postgres_url}
use organization_ai.Runtime.Process.{Process, get_settings}
use organization_ai.Runtime.Cached.{IsBound, IsCached, get_settings-IsCached}
use organization_ai.Migrations.Schema.{Schema}
use organization_ai.Migrations.Operations.{Operation, Server, run_all}

pub data MigrationError (E : Type 0) : Type 0 where
  settings_error : PyError → MigrationError E
  database_error : E → MigrationError E

-- What a run gives: the schema is changed, or a script of the operations is written.
pub data Migrated : Type 0 where
  applied : Migrated
  scripted : List Operation → Migrated

-- `context.run_migrations()`, on its own: one operation after another. One that raises ends the run, and
-- leaves the schema as the operations before it have made it.
unfoldable pub run_migrations :
    {E : Type 0} → Server E → List Operation → Schema → Result E (Unit {0}) × Schema
run_migrations server [] s = (ok tt, s)
run_migrations server (o ∷ os) s = elim (server.run o s) [
  | err raised ↦ (err raised, s)
  | ok changed ↦ run_migrations server os changed
]

-- The end of a `with context.begin_transaction()` block that began at `before`: a return commits the
-- schema that was reached, a raise rolls it back.
unfoldable pub end_transaction :
    {E : Type 0}
    → Schema
    → Result E (Unit {0}) × Schema
    → Result (MigrationError E) Migrated × Schema
end_transaction before (ok _, reached) = (ok applied, reached)
end_transaction before (err raised, reached) = (err (database_error raised), before)

-- `with context.begin_transaction():`, around the given body
unfoldable pub in_transaction :
    {E : Type 0}
    → (Schema → Result E (Unit {0}) × Schema)
    → Schema
    → Result (MigrationError E) Migrated × Schema
unfolding end_transaction
in_transaction body before = end_transaction before (body before)

-- The schema at the end of a run that has not raised.
abbrev finished : {E : Type 0} → Result E (Unit {0}) × Schema → Result E Schema
finished (ok _, reached) = ok reached
finished (err raised, reached) = err raised

finished-run_migrations :
    {E : Type 0} (server : Server E) (os : List Operation) (s : Schema)
    → finished (run_migrations server os s) ≡ run_all server os s
unfolding run_migrations run_all
finished-run_migrations server [] s = refl
finished-run_migrations server (o ∷ os) s = elim (Result-cases (server.run o s)) [
  | inl (changed, runs) ↦
      rw (runs, run_migrations, run_all) (finished-run_migrations server os changed)
  | inr (raised, fails) ↦ rw (fails, run_migrations, run_all) refl
]

module _ {E : Type 0} (server : Server E) (connect : String → Option E) (os : List Operation) where
  -- With the connection that was made.
  unfoldable pub run_connected : Option E → Schema → Result (MigrationError E) Migrated × Schema
  unfolding in_transaction run_migrations
  run_connected (Option.some raised) s = (err (database_error raised), s)
  run_connected Option.none s = in_transaction (run_migrations server os) s

  unfoldable pub online_with :
      Result PyError Settings → Schema → Result (MigrationError E) Migrated × Schema
  unfolding run_connected
  online_with (err raised) s = (err (settings_error raised), s)
  online_with (ok settings) s = run_connected (connect settings.database_url) s

  -- `run_migrations_online`
  unfoldable pub run_migrations_online :
      {X : Type 0} → Source → Process X → Schema → Result (MigrationError E) Migrated × Schema
  unfolding get_settings online_with
  run_migrations_online source p s = online_with (get_settings source p).0 s

  unfoldable pub offline_with :
      Result PyError Settings → Schema → Result (MigrationError E) Migrated × Schema
  offline_with (err raised) s = (err (settings_error raised), s)
  offline_with (ok settings) s = (ok (scripted os), s)

  -- `run_migrations_offline`: no connection is made
  unfoldable pub run_migrations_offline :
      {X : Type 0} → Source → Process X → Schema → Result (MigrationError E) Migrated × Schema
  unfolding get_settings offline_with
  run_migrations_offline source p s = offline_with (get_settings source p).0 s

  -- The module, when Alembic runs it.
  unfoldable pub run_environment :
      {X : Type 0}
      → Bool
      → Source
      → Process X
      → Schema
      → Result (MigrationError E) Migrated × Schema
  unfolding run_migrations_online run_migrations_offline
  run_environment is_offline_mode source p s =
      if is_offline_mode
      then run_migrations_offline source p s
      else run_migrations_online source p s

  -- The settings were loaded, and their URL is one of PostgreSQL.
  abbrev HasUrl : Result PyError Settings → Settings → Type 0
  HasUrl loaded settings = (loaded ≡ ok settings) × (is_postgres_url settings.database_url ≡ true)

  -- Offline: a script of the operations, or no settings; the schema is as it was.
  abbrev WritesScript :
      Result PyError Settings → Schema → Result (MigrationError E) Migrated × Schema → Type 0
  WritesScript loaded s (ok applied, after) = ⊥
  WritesScript loaded s (ok (scripted script), after) =
      (settings : Settings) × HasUrl loaded settings × (script ≡ os) × (after ≡ s)
  WritesScript loaded s (err (settings_error raised), after) = (loaded ≡ err raised) × (after ≡ s)
  WritesScript loaded s (err (database_error raised), after) = ⊥

  -- Online: all operations carried out on a database that was reached; or no settings, no connection, or
  -- an operation that raised, and the schema is as it was.
  abbrev AppliesAllOrNone :
      Result PyError Settings → Schema → Result (MigrationError E) Migrated × Schema → Type 0
  AppliesAllOrNone loaded s (ok applied, after) =
      (settings : Settings) × HasUrl loaded settings
      × (connect settings.database_url ≡ Option.none)
      × (run_all server os s ≡ ok after)
  AppliesAllOrNone loaded s (ok (scripted script), after) = ⊥
  AppliesAllOrNone loaded s (err (settings_error raised), after) =
      (loaded ≡ err raised) × (after ≡ s)
  AppliesAllOrNone loaded s (err (database_error raised), after) =
      (settings : Settings) × HasUrl loaded settings
      × ((connect settings.database_url ≡ Option.some raised)
          ⊎ ((connect settings.database_url ≡ Option.none) × (run_all server os s ≡ err raised)))
      × (after ≡ s)

  -- What a run in this mode ends in.
  abbrev pub RunsInMode :
      Bool → Result PyError Settings → Schema → Result (MigrationError E) Migrated × Schema → Type 0
  RunsInMode true = WritesScript
  RunsInMode false = AppliesAllOrNone

  module _ {X : Type 0} (create_engine : String → Bool → Result String X) (source : Source)
      (p : Process X) (s : Schema) where
    end_transaction-AppliesAllOrNone :
        (loaded : Result PyError Settings) (settings : Settings) (r : Result E (Unit {0}) × Schema)
        → HasUrl loaded settings
        → connect settings.database_url ≡ Option.none
        → finished r ≡ run_all server os s
        → AppliesAllOrNone loaded s (end_transaction s r)
    unfolding end_transaction
    end_transaction-AppliesAllOrNone loaded settings (ok _, reached) valid connects ran =
        (settings, valid, connects, sym ran)
    end_transaction-AppliesAllOrNone loaded settings (err raised, reached) valid connects ran =
        (settings, valid, inr (connects, sym ran), refl)

    run_connected-AppliesAllOrNone :
        (loaded : Result PyError Settings) (settings : Settings) (o : Option E)
        → HasUrl loaded settings
        → connect settings.database_url ≡ o
        → AppliesAllOrNone loaded s (run_connected o s)
    unfolding run_connected in_transaction
    run_connected-AppliesAllOrNone loaded settings (Option.some raised) valid refused =
        (settings, valid, inl refused, refl)
    run_connected-AppliesAllOrNone loaded settings Option.none valid connects =
        end_transaction-AppliesAllOrNone loaded settings (run_migrations server os s) valid connects
          (finished-run_migrations server os s)

    online_with-AppliesAllOrNone :
        (r : Result PyError Settings × Process X)
        → IsCached create_engine (λ (q : Process X). q.settings) p r
        → AppliesAllOrNone r.0 s (online_with r.0 s)
    unfolding online_with
    online_with-AppliesAllOrNone (err raised, q) c = (refl, refl)
    online_with-AppliesAllOrNone (ok settings, q) c =
        run_connected-AppliesAllOrNone (ok settings) settings (connect settings.database_url)
          (refl, c.bound.settings settings (c.returned settings refl)) refl

    offline_with-WritesScript :
        (r : Result PyError Settings × Process X)
        → IsCached create_engine (λ (q : Process X). q.settings) p r
        → WritesScript r.0 s (offline_with r.0 s)
    unfolding offline_with
    offline_with-WritesScript (err raised, q) c = (refl, refl)
    offline_with-WritesScript (ok settings, q) c =
        (settings, (refl, c.bound.settings settings (c.returned settings refl)), refl, refl)

    -- In a process whose caches go together, whatever operations are run. Offline, the run writes a script
    -- of exactly the operations, or the settings raise; the schema is as it was. Online, it has carried out
    -- all operations, in their order, on a database that the URL of the settings reaches; or the settings,
    -- the connection or an operation raised, and the schema is as it was, even where operations before the
    -- one that raised had changed it. In both modes a URL that is used begins as one of PostgreSQL does.
    pub run_environment-RunsInMode :
        (is_offline_mode : Bool)
        → IsBound create_engine p
        → RunsInMode is_offline_mode
            (get_settings source p).0
            s
            (run_environment is_offline_mode source p s)
    unfolding run_environment run_migrations_online run_migrations_offline
    run_environment-RunsInMode true bound =
        offline_with-WritesScript (get_settings source p)
          (get_settings-IsCached create_engine source p bound)
    run_environment-RunsInMode false bound =
        online_with-AppliesAllOrNone (get_settings source p)
          (get_settings-IsCached create_engine source p bound)
