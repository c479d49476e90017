-- ===== src/Runtime/Loaded.antt =====
-- When the settings of backend/app/core/settings.py load, and what they are then.
use organization_ai.Base.{
  true, false, String, none, some, ◌≡◌, refl, sym, ◌∙◌, Bool-cases, Option-cases, inl, inr,
}
use organization_ai.Base.Result.{PyError, ok, err, ok-injective}
use organization_ai.Runtime.Settings.{
  Source, Settings, is_postgres_url, database_url_uses_postgres, or_default, required, new_settings,
}

-- The settings with the URL, and with what is given or the default for the other fields.
abbrev pub loaded : Source → String → Settings
loaded source url = record {
  app_name = or_default (source "app_name") "OrganizationalAI";
  app_version = or_default (source "app_version") "0.1.0";
  environment = or_default (source "environment") "development";
  log_level = or_default (source "log_level") "INFO";
  database_url = url;
}

module _ (source : Source) where
  pub new_settings-valid :
      {url : String}
      → source "database_url" ≡ some url
      → is_postgres_url url ≡ true
      → new_settings source ≡ ok (loaded source url)
  unfolding new_settings required database_url_uses_postgres
  new_settings-valid given valid =
      rw (given, new_settings, required, database_url_uses_postgres, valid) refl

  new_settings-invalid :
      {url : String}
      → source "database_url" ≡ some url
      → is_postgres_url url ≡ false
      → (e : PyError) × (new_settings source ≡ err e)
  unfolding new_settings required database_url_uses_postgres
  new_settings-invalid given invalid = (
    PyError.value_error "database_url must be a PostgreSQL connection URL",
    rw (given, new_settings, required, database_url_uses_postgres, invalid) refl,
  )

  new_settings-missing :
      source "database_url" ≡ none → (e : PyError) × (new_settings source ≡ err e)
  unfolding new_settings required
  new_settings-missing gone =
      (PyError.value_error "Field required", rw (gone, new_settings, required) refl)

  pub new_settings-ok :
      {s : Settings}
      → new_settings source ≡ ok s
      → (url : String) × (source "database_url" ≡ some url)
        × (is_postgres_url url ≡ true)
        × (s ≡ loaded source url)
  new_settings-ok h = elim (Option-cases (source "database_url")) [
    | inl gone ↦ let (e, raised) = new_settings-missing gone in absurd (cc)
    | inr (url, given) ↦ elim (Bool-cases (is_postgres_url url)) [
      | inl valid ↦ (url, given, valid, ok-injective (sym h ∙ new_settings-valid given valid))
      | inr invalid ↦ let (e, raised) = new_settings-invalid given invalid in absurd (cc)
    ]
  ]
