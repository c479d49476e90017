-- ===== src/Runtime/Answers.antt =====
-- What backend/app/api/health.py, backend/app/main.py and backend/scripts/smoke.py answer.
use organization_ai.Base.{
  Bool, true, String, some, ◌≡◌, ◌⊎◌, refl, subst, inl, inr, Bool-cases, str_eq, eq_iff,
}
use organization_ai.Base.Result.{PyError, Result, ok, err}
use organization_ai.Runtime.Settings.{Source, Settings, is_postgres_url, or_default, new_settings}
use organization_ai.Runtime.Loaded.{loaded, new_settings-valid}
use organization_ai.Runtime.Process.{
  Process, started, keep_new_settings, cached_settings, get_settings,
}
use organization_ai.Runtime.Health.{HealthResponse, reachable, unreachable}
use organization_ai.Runtime.Startup.{Construct, is_level, configured, report_on, smoke_main}

module _ {E : Type 0} (create_engine : String → Bool → Result String E)
    (select_one : E → Bool) where
  -- The process has an engine for the PostgreSQL URL of its settings, and the query succeeds on it.
  abbrev pub HasDatabase : Process E → Type 0
  HasDatabase q =
      (s : Settings) × (e : E) × (q.settings ≡ some s)
      × (is_postgres_url s.database_url ≡ true)
      × (q.engine ≡ some e)
      × (create_engine s.database_url true ≡ ok e)
      × (select_one e ≡ true)

  abbrev pub Tells : HealthResponse × Process E → Type 0
  Tells r = ((r.0 ≡ reachable) × HasDatabase r.1) ⊎ ((r.0 ≡ unreachable) × (HasDatabase r.1 → ⊥))

-- The first call of `get_settings` in a process.
get_settings-started :
    (E : Type 0) (source : Source) (r : Result PyError Settings)
    → new_settings source ≡ r
    → (get_settings {E = E} source started).0 ≡ r
unfolding get_settings cached_settings keep_new_settings
get_settings-started E source (ok s) new = rw (new) refl
get_settings-started E source (err e) new = rw (new) refl

-- The application starts: a PostgreSQL URL is given, the level is one that `logging` knows, and FastAPI
-- takes the name and the version.
abbrev pub CanStart : Construct → Source → String → Type 0
CanStart fastapi source url =
    (source "database_url" ≡ some url)
    × (is_postgres_url url ≡ true)
    × (is_level (or_default (source "log_level") "INFO") ≡ true)
    × (fastapi (or_default (source "app_name") "OrganizationalAI")
          (or_default (source "app_version") "0.1.0")
        ≡ ok tt)

is_postgres_url-configured :
    (url : String) → is_postgres_url url ≡ true → configured url ≡ "configured"
unfolding is_postgres_url
is_postgres_url-configured url valid = elim (Bool-cases (str_eq url "")) [
  | inl none_given ↦
      let empty : url ≡ "" = (eq_iff url "").0 none_given in
      let bad : is_postgres_url "" ≡ true =
        subst (λ (u : String). is_postgres_url u ≡ true) empty valid in
      absurd (cc)
  | inr given ↦ rw (given) refl
]

-- The sources give the same for what is printed, and each a URL that begins as one of PostgreSQL does.
pub record DifferInUrl (first second : Source) : Type 0 where
  pub first_url : String
  pub second_url : String
  pub first_given : first "database_url" ≡ some first_url
  pub second_given : second "database_url" ≡ some second_url
  pub first_valid : is_postgres_url first_url ≡ true
  pub second_valid : is_postgres_url second_url ≡ true
  pub app_name : first "app_name" ≡ second "app_name"
  pub environment : first "environment" ≡ second "environment"
  pub log_level : first "log_level" ≡ second "log_level"

-- In new processes whose sources have PostgreSQL URLs and otherwise give the same for what is printed,
-- the smoke script exits with 0 and prints the same: the report tells nothing of the URL.
pub smoke_main-same :
    (E : Type 0) (repr : String → String) (show : PyError → String) (first second : Source)
    → DifferInUrl first second
    → ((smoke_main {E = E} repr show first started).0
        ≡ (smoke_main {E = E} repr show second started).0)
      × ((smoke_main {E = E} repr show first started).0.exit_code ≡ 0)
unfolding smoke_main report_on
smoke_main-same E repr show first second d =
    let loads =
      get_settings-started E first (ok (loaded first d.first_url))
        (new_settings-valid first d.first_given d.first_valid) in
    let loads' =
      get_settings-started E second (ok (loaded second d.second_url))
        (new_settings-valid second d.second_given d.second_valid) in
    let given = is_postgres_url-configured d.first_url d.first_valid in
    let given' = is_postgres_url-configured d.second_url d.second_valid in
    (
      rw (loads, loads', report_on, given, given', d.app_name, d.environment, d.log_level) refl,
      rw (loads, report_on) refl,
    )
