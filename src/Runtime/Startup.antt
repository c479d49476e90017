-- ===== src/Runtime/Startup.antt =====
-- backend/app/main.py: `create_app`, and backend/scripts/smoke.py: `main`. FastAPI is not part of the
-- repository: an application is what is registered with it, and whether its constructor takes a title
-- and a version is a parameter.
use organization_ai.Base.{Bool, true, ℕ, String, List, [], ◌∷◌, ◌++◌, str_eq, if◌then◌else◌}
use organization_ai.Base.Query.{any}
use organization_ai.Base.Result.{PyError, value_error, Result, ok, err, ◌>>=◌}
use organization_ai.Base.Text.{format}
use organization_ai.Runtime.Settings.{Source, Settings}
use organization_ai.Runtime.Process.{Process, get_settings}

pub data Method : Type 0 where
  get post : Method

pub record Route : Type 0 where
  pub method : Method
  pub path : String

-- The routers, with the prefix that they are made with.
abbrev pub health_router : List Route
health_router = record { method = get; path = "/health" } ∷ []

abbrev pub temporary_history_router : List Route
temporary_history_router =
    record { method = post; path = "/api/temporary/decision-traces" }
    ∷ record { method = get; path = "/api/temporary/decision-traces/{trace_id}" }
    ∷ []

abbrev pub control_deck_router : List Route
control_deck_router =
    record { method = post; path = "/api/temporary/decision-traces/{trace_id}/controls" } ∷ []

pub record Application : Type 0 where
  pub title : String
  pub version : String
  pub routes : List Route
  pub has_exception_handlers : Bool

-- The names of levels that the module `logging` knows.
abbrev pub level_names : List String
level_names = "CRITICAL" ∷ "FATAL" ∷ "ERROR" ∷ "WARN" ∷ "WARNING" ∷ "INFO" ∷ "DEBUG" ∷ "NOTSET" ∷ []

-- `setLevel(level)` does not raise
unfoldable pub is_level : String → Bool
unfolding any
is_level level = any (str_eq level) level_names

-- The application, with its routers and handlers registered.
abbrev pub application_of : Settings → Application
application_of s = record {
  title = s.app_name;
  version = s.app_version;
  routes = health_router ++ temporary_history_router ++ control_deck_router;
  has_exception_handlers = true;
}

-- What `FastAPI(title=…, version=…)` does with a title and a version: it returns or raises.
abbrev pub Construct : Type 0
Construct = String → String → Result PyError (Unit {0})

-- After the settings: the level is set, the application is made, and the parts are registered.
unfoldable pub create_app_with :
    (String → String) → Construct → Settings → Result PyError Application
unfolding is_level format
create_app_with repr fastapi s =
    if is_level s.log_level
    then (fastapi s.app_name s.app_version >>= λ _. ok (application_of s))
    else err (value_error (format ("Unknown level: " ∷ repr s.log_level ∷ [])))

abbrev pub after_settings {ℓ κ} :
    {A : Type ℓ} {P : Type κ}
    → (Settings → Result PyError A)
    → Result PyError Settings × P
    → Result PyError A × P
after_settings next (err raised, p) = (err raised, p)
after_settings next (ok s, p) = (next s, p)

-- `create_app`; `repr` is Python's, on texts
unfoldable pub create_app :
    {E : Type 0}
    → (String → String)
    → Construct
    → Source
    → Process E
    → Result PyError Application × Process E
unfolding get_settings create_app_with
create_app repr fastapi source p =
    after_settings (create_app_with repr fastapi) (get_settings source p)

-- What the script prints, and its exit code.
pub record Report : Type 0 where
  pub stdout : List String
  pub stderr : List String
  pub exit_code : ℕ

abbrev pub configured : String → String
configured url = if str_eq url "" then "missing" else "configured"

unfoldable pub report_on : (String → String) → (PyError → String) → Result PyError Settings → Report
unfolding format
report_on repr show (err raised) = record {
  stdout = [];
  stderr = format ("Environment smoke check failed: " ∷ show raised ∷ []) ∷ [];
  exit_code = 1;
}
report_on repr show (ok s) = record {
  stdout =
      format (
        "Environment smoke OK: app="
        ∷ repr s.app_name
        ∷ " environment="
        ∷ repr s.environment
        ∷ " log_level="
        ∷ repr s.log_level
        ∷ " database_url="
        ∷ configured s.database_url
        ∷ [])
      ∷ [];
  stderr = [];
  exit_code = 0;
}

-- `main` of the script; `show` is Python's `str` of an exception
unfoldable pub smoke_main :
    {E : Type 0} → (String → String) → (PyError → String) → Source → Process E → Report × Process E
unfolding get_settings report_on
smoke_main repr show source p =
    let loaded = get_settings source p in (report_on repr show loaded.0, loaded.1)
