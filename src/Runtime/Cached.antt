-- ===== src/Runtime/Cached.antt =====
-- What any number of calls keep in the caches of backend/app/core/settings.py and
-- backend/app/persistence/db.py.
use organization_ai.Base.{Bool, true, false, String, Option, none, some, ◌≡◌, refl, subst}
use organization_ai.Base.Result.{PyError, Result, ok, err}
use organization_ai.Runtime.Settings.{Source, Settings, is_postgres_url, new_settings}
use organization_ai.Runtime.Loaded.{new_settings-ok}
use organization_ai.Runtime.Process.{
  RuntimeError, SessionFactory, Process, get_settings, keep_new_settings, cached_settings,
  session_factory, create_from, keep_new_engine, bind_factory,
}

module _ {E : Type 0} (create_engine : String → Bool → Result String E) where
  -- What is kept goes together: the settings name a PostgreSQL URL, the engine was created from the URL
  -- of the settings, and the sessions are bound to the engine and neither expire nor flush on their own.
  pub record IsBound (p : Process E) : Type 0 where
    pub settings : (s : Settings) → p.settings ≡ some s → is_postgres_url s.database_url ≡ true
    pub engine :
        (e : E)
        → p.engine ≡ some e
        → (s : Settings) × (p.settings ≡ some s) × (create_engine s.database_url true ≡ ok e)
    pub factory :
        (f : SessionFactory E)
        → p.factory ≡ some f
        → (p.engine ≡ some f.bind) × (f.expire_on_commit ≡ false) × (f.autoflush ≡ false)

  -- What one process keeps, the other keeps too.
  pub record Keeps (p q : Process E) : Type 0 where
    pub settings : (s : Settings) → p.settings ≡ some s → q.settings ≡ some s
    pub engine : (e : E) → p.engine ≡ some e → q.engine ≡ some e
    pub factory : (f : SessionFactory E) → p.factory ≡ some f → q.factory ≡ some f

  pub Keeps-refl : (p : Process E) → Keeps p p
  Keeps-refl p = record { settings = λ s h. h; engine = λ e h. h; factory = λ f h. h }

  pub Keeps-trans : {p q r : Process E} → Keeps p q → Keeps q r → Keeps p r
  Keeps-trans a b = record {
    settings = λ s h. b.settings s (a.settings s h);
    engine = λ e h. b.engine e (a.engine e h);
    factory = λ f h. b.factory f (a.factory f h);
  }

  -- A call that keeps what there was, leaves the process bound, keeps what it returns
  -- and keeps nothing where it raises.
  pub record IsCached {ε α} {A : Type α} {R : Type ε} (kept : Process E → Option A) (p : Process E)
      (r : Result R A × Process E) : Type (α ⊔ ε) where
    pub keeps : Keeps p r.1
    pub bound : IsBound r.1
    pub returned : (a : A) → r.0 ≡ ok a → kept r.1 ≡ some a
    pub raised : (e : R) → r.0 ≡ err e → kept r.1 ≡ none

  module _ (source : Source) (p : Process E) (bound : IsBound p) where
    keep_new_settings-IsCached :
        (r : Result PyError Settings)
        → new_settings source ≡ r
        → p.settings ≡ none
        → IsCached (λ (q : Process E). q.settings) p (keep_new_settings p r)
    unfolding keep_new_settings
    keep_new_settings-IsCached (err raised) new h = record {
      keeps = Keeps-refl p;
      bound = bound;
      returned = λ s r. absurd (cc);
      raised = λ e r. h;
    }
    keep_new_settings-IsCached (ok s) new h = record {
      keeps = record {
        settings = λ t there. absurd (cc);
        engine = λ e there. there;
        factory = λ f there. there;
      };
      bound = record {
        settings = λ t there.
            let (url, given, valid, same) = new_settings-ok source new in
            let at : url ≡ t.database_url = cc in
            subst (λ (u : String). is_postgres_url u ≡ true) at valid;
        engine = λ e there. let (t, kept, made) = bound.engine e there in absurd (cc);
        factory = bound.factory;
      };
      returned = λ t r. cc;
      raised = λ e r. absurd (cc);
    }

    cached_settings-IsCached :
        (o : Option Settings)
        → p.settings ≡ o
        → IsCached (λ (q : Process E). q.settings) p (cached_settings source p o)
    unfolding cached_settings
    cached_settings-IsCached (some s) h = record {
      keeps = Keeps-refl p;
      bound = bound;
      returned = λ t r. cc;
      raised = λ e r. absurd (cc);
    }
    cached_settings-IsCached none h = keep_new_settings-IsCached (new_settings source) refl h

    pub get_settings-IsCached : IsCached (λ (q : Process E). q.settings) p (get_settings source p)
    unfolding get_settings
    get_settings-IsCached = cached_settings-IsCached p.settings refl

  keep_new_settings-same :
      (p : Process E) (r : Result PyError Settings)
      → ((keep_new_settings p r).1.engine ≡ p.engine)
        × ((keep_new_settings p r).1.factory ≡ p.factory)
  unfolding keep_new_settings
  keep_new_settings-same p (ok s) = (refl, refl)
  keep_new_settings-same p (err e) = (refl, refl)

  cached_settings-same :
      (source : Source) (p : Process E) (o : Option Settings)
      → ((cached_settings source p o).1.engine ≡ p.engine)
        × ((cached_settings source p o).1.factory ≡ p.factory)
  unfolding cached_settings
  cached_settings-same source p (some s) = (refl, refl)
  cached_settings-same source p none = keep_new_settings-same p (new_settings source)

  -- Reading the settings leaves the other caches alone.
  pub get_settings-same :
      (source : Source) (p : Process E)
      → ((get_settings source p).1.engine ≡ p.engine)
        × ((get_settings source p).1.factory ≡ p.factory)
  unfolding get_settings
  get_settings-same source p = cached_settings-same source p p.settings

  module _ (p : Process E) where
    keep_new_engine-IsCached :
        (q : Process E) (s : Settings) (r : Result String E)
        → Keeps p q
        → IsBound q
        → q.settings ≡ some s
        → q.engine ≡ none
        → create_engine s.database_url true ≡ r
        → IsCached (λ (q : Process E). q.engine) p (keep_new_engine create_engine q r)
    unfolding keep_new_engine
    keep_new_engine-IsCached q s (err raised) keeps bound kept gone made = record {
      keeps = keeps;
      bound = bound;
      returned = λ e r. absurd (cc);
      raised = λ e r. gone;
    }
    keep_new_engine-IsCached q s (ok e) keeps bound kept gone made = record {
      keeps = record {
        settings = keeps.settings;
        engine = λ e there. absurd (cc (keeps.engine e there));
        factory = keeps.factory;
      };
      bound = record {
        settings = bound.settings;
        engine = λ e there. (s, kept, cc);
        factory = λ f there. absurd (cc ((bound.factory f there).0));
      };
      returned = λ e r. cc;
      raised = λ e r. absurd (cc);
    }

    pub create_from-IsCached :
        (r : Result PyError Settings × Process E)
        → IsCached (λ (q : Process E). q.settings) p r
        → r.1.engine ≡ none
        → IsCached (λ (q : Process E). q.engine) p (create_from create_engine r)
    unfolding create_from
    create_from-IsCached (err raised, q) c gone = record {
      keeps = c.keeps;
      bound = c.bound;
      returned = λ e r. absurd (cc);
      raised = λ e r. gone;
    }
    create_from-IsCached (ok s, q) c gone =
        keep_new_engine-IsCached q s (create_engine s.database_url true) c.keeps c.bound
          (c.returned s refl) gone refl

    pub bind_factory-IsCached :
        (r : Result RuntimeError E × Process E)
        → IsCached (λ (q : Process E). q.engine) p r
        → r.1.factory ≡ none
        → IsCached (λ (q : Process E). q.factory) p (bind_factory create_engine r)
    unfolding bind_factory
    bind_factory-IsCached (err raised, q) c gone = record {
      keeps = c.keeps;
      bound = c.bound;
      returned = λ f r. absurd (cc);
      raised = λ e r. gone;
    }
    bind_factory-IsCached (ok e, q) c gone = record {
      keeps = record {
        settings = c.keeps.settings;
        engine = c.keeps.engine;
        factory = λ f there. absurd (cc (c.keeps.factory f there));
      };
      bound = record {
        settings = c.bound.settings;
        engine = c.bound.engine;
        factory = λ f there.
            let same : session_factory e ≡ f = cc in
            subst
              (λ (g : SessionFactory E).
                (q.engine ≡ some g.bind) × (g.expire_on_commit ≡ false) × (g.autoflush ≡ false))
              same (c.returned e refl, refl, refl);
      };
      returned = λ f r. cc;
      raised = λ e r. absurd (cc);
    }
