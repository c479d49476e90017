-- ===== src/Runtime/Process.antt =====
-- `get_settings` of backend/app/core/settings.py, and `build_engine` and `build_session_factory` of
-- backend/app/persistence/db.py: each keeps what it returns first, and keeps nothing of a raise.
-- SQLAlchemy's `create_engine` is not part of the repository: it is a parameter.
use organization_ai.Base.{Bool, true, false, String, Option, none, some}
use organization_ai.Base.Result.{PyError, Result, ok, err}
use organization_ai.Runtime.Settings.{Source, Settings, new_settings}

-- What building an engine raises: the settings are refused, or SQLAlchemy refuses the URL.
pub data RuntimeError : Type 0 where
  settings_error : PyError → RuntimeError
  engine_error : String → RuntimeError

-- `sessionmaker(bind=…, expire_on_commit=…, autoflush=…)`
pub record SessionFactory (E : Type 0) : Type 0 where
  pub bind : E
  pub expire_on_commit : Bool
  pub autoflush : Bool

-- What the three caches hold.
pub record Process (E : Type 0) : Type 0 where
  pub settings : Option Settings
  pub engine : Option E
  pub factory : Option (SessionFactory E)

module _ {E : Type 0} where
  abbrev pub started : Process E
  started = record { settings = none; engine = none; factory = none }

  abbrev pub keep_settings : Process E → Settings → Process E
  keep_settings p s = record { settings = some s; engine = p.engine; factory = p.factory }

  abbrev pub keep_engine : Process E → E → Process E
  keep_engine p e = record { settings = p.settings; engine = some e; factory = p.factory }

  abbrev pub keep_factory : Process E → SessionFactory E → Process E
  keep_factory p f = record { settings = p.settings; engine = p.engine; factory = some f }

  unfoldable pub keep_new_settings :
      Process E → Result PyError Settings → Result PyError Settings × Process E
  keep_new_settings p (err raised) = (err raised, p)
  keep_new_settings p (ok s) = (ok s, keep_settings p s)

  -- `lru_cache` of `get_settings`
  unfoldable pub cached_settings :
      Source → Process E → Option Settings → Result PyError Settings × Process E
  unfolding new_settings keep_new_settings
  cached_settings source p (some s) = (ok s, p)
  cached_settings source p none = keep_new_settings p (new_settings source)

  -- `get_settings`
  unfoldable pub get_settings : Source → Process E → Result PyError Settings × Process E
  unfolding cached_settings
  get_settings source p = cached_settings source p p.settings

  abbrev pub session_factory : E → SessionFactory E
  session_factory e = record { bind = e; expire_on_commit = false; autoflush = false }

  module _ (create_engine : String → Bool → Result String E) where
    unfoldable pub keep_new_engine : Process E → Result String E → Result RuntimeError E × Process E
    keep_new_engine p (err raised) = (err (engine_error raised), p)
    keep_new_engine p (ok e) = (ok e, keep_engine p e)

    -- `create_engine(url, pool_pre_ping=True)`
    unfoldable pub create_from :
        Result PyError Settings × Process E → Result RuntimeError E × Process E
    unfolding keep_new_engine
    create_from (err raised, p) = (err (settings_error raised), p)
    create_from (ok s, p) = keep_new_engine p (create_engine s.database_url true)

    -- `lru_cache` of `build_engine`
    unfoldable pub cached_engine : Source → Process E → Option E → Result RuntimeError E × Process E
    unfolding get_settings create_from
    cached_engine source p (some e) = (ok e, p)
    cached_engine source p none = create_from (get_settings source p)

    -- `build_engine`
    unfoldable pub build_engine : Source → Process E → Result RuntimeError E × Process E
    unfolding cached_engine
    build_engine source p = cached_engine source p p.engine

    -- `sessionmaker(bind=build_engine(), …)`
    unfoldable pub bind_factory :
        Result RuntimeError E × Process E → Result RuntimeError (SessionFactory E) × Process E
    bind_factory (err raised, p) = (err raised, p)
    bind_factory (ok e, p) = (ok (session_factory e), keep_factory p (session_factory e))

    -- `lru_cache` of `build_session_factory`
    unfoldable pub cached_factory :
        Source
        → Process E
        → Option (SessionFactory E)
        → Result RuntimeError (SessionFactory E) × Process E
    unfolding build_engine bind_factory
    cached_factory source p (some f) = (ok f, p)
    cached_factory source p none = bind_factory (build_engine source p)

    -- `build_session_factory`
    unfoldable pub build_session_factory :
        Source → Process E → Result RuntimeError (SessionFactory E) × Process E
    unfolding cached_factory
    build_session_factory source p = cached_factory source p p.factory
