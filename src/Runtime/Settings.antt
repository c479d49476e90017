-- ===== src/Runtime/Settings.antt =====
-- backend/app/core/settings.py: `Settings`. Where pydantic-settings finds the value of a field (the
-- environment, the file `.env`) is not part of the repository: a `Source` answers for it.
use text.Mathlib.Text.{starts_with}
use organization_ai.Base.{Bool, not, ◌||◌, String, Option, none, some, if◌then◌else◌}
use organization_ai.Base.Result.{PyError, value_error, Result, ok, err, ◌>>=◌}

-- The value of a field, if one is given.
abbrev pub Source : Type 0
Source = String → Option String

pub record Settings : Type 0 where
  pub app_name : String
  pub app_version : String
  pub environment : String
  pub log_level : String
  pub database_url : String

-- `value.get_secret_value().startswith((…, …))`
unfoldable pub is_postgres_url : String → Bool
is_postgres_url url = starts_with url "postgresql://" || starts_with url "postgresql+psycopg2://"

-- `_database_url_uses_postgres`
unfoldable pub database_url_uses_postgres : String → Result PyError String
unfolding is_postgres_url
database_url_uses_postgres value =
    if not (is_postgres_url value)
    then err (value_error "database_url must be a PostgreSQL connection URL")
    else ok value

abbrev pub or_default : Option String → String → String
or_default none default = default
or_default (some value) default = value

-- A field without a default.
unfoldable pub required : Option String → Result PyError String
required none = err (value_error "Field required")
required (some value) = ok value

-- `Settings()`
unfoldable pub new_settings : Source → Result PyError Settings
unfolding required database_url_uses_postgres
new_settings source = do
  given ← required (source "database_url")
  url ← database_url_uses_postgres given
  ok (record {
    app_name = or_default (source "app_name") "OrganizationalAI";
    app_version = or_default (source "app_version") "0.1.0";
    environment = or_default (source "environment") "development";
    log_level = or_default (source "log_level") "INFO";
    database_url = url;
  })
