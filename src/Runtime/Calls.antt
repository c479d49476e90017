-- ===== src/Runtime/Calls.antt =====
-- Any number of calls of what backend/app keeps once: the settings, the engine and the session factory.
use organization_ai.Base.{
  Bool, String, Option, none, some, List, [], ◌∷◌, ◌≡◌, refl, sym, ◌∙◌, subst,
}
use organization_ai.Base.Result.{PyError, Result, ok, err}
use organization_ai.Runtime.Settings.{Source, Settings}
use organization_ai.Runtime.Process.{
  RuntimeError, SessionFactory, Process, get_settings, keep_new_engine, create_from, cached_engine,
  build_engine, cached_factory, build_session_factory,
}
use organization_ai.Runtime.Health.{health}
use organization_ai.Runtime.Startup.{Construct, after_settings, create_app, smoke_main}
use organization_ai.Runtime.Session.{session_around, get_session}
use organization_ai.Runtime.Cached.{
  IsBound, Keeps, Keeps-refl, Keeps-trans, IsCached, get_settings-IsCached, get_settings-same,
  create_from-IsCached, bind_factory-IsCached,
}

-- The calls that read or fill the caches, each with what it finds in the environment.
pub data Call (E : Type 0) : Type 0 where
  call_get_settings : Source → Call E
  call_build_engine : Source → Call E
  call_build_session_factory : Source → Call E
  call_get_session : Source → (SessionFactory E → Result String (Unit {0})) → Call E
  call_health : Source → (E → Bool) → Call E
  call_create_app : Construct → Source → Call E
  call_smoke_main : Source → Call E

module _ {E : Type 0} (create_engine : String → Bool → Result String E) where
  module _ (source : Source) (p : Process E) (bound : IsBound create_engine p) where
    cached_engine-IsCached :
        (o : Option E)
        → p.engine ≡ o
        → IsCached create_engine
            (λ (q : Process E). q.engine)
            p
            (cached_engine create_engine source p o)
    unfolding cached_engine
    cached_engine-IsCached (some e) h = record {
      keeps = Keeps-refl create_engine p;
      bound = bound;
      returned = λ t r. cc;
      raised = λ e r. absurd (cc);
    }
    cached_engine-IsCached none h =
        create_from-IsCached create_engine p (get_settings source p)
          (get_settings-IsCached create_engine source p bound)
          ((get_settings-same create_engine source p).0 ∙ h)

    pub build_engine-IsCached :
        IsCached create_engine (λ (q : Process E). q.engine) p (build_engine create_engine source p)
    unfolding build_engine
    build_engine-IsCached = cached_engine-IsCached p.engine refl

  keep_new_engine-same :
      (p : Process E) (r : Result String E)
      → (keep_new_engine create_engine p r).1.factory ≡ p.factory
  unfolding keep_new_engine
  keep_new_engine-same p (ok e) = refl
  keep_new_engine-same p (err e) = refl

  create_from-same :
      (r : Result PyError Settings × Process E)
      → (create_from create_engine r).1.factory ≡ r.1.factory
  unfolding create_from
  create_from-same (ok s, p) = keep_new_engine-same p (create_engine s.database_url Bool.true)
  create_from-same (err e, p) = refl

  cached_engine-same :
      (source : Source) (p : Process E) (o : Option E)
      → (cached_engine create_engine source p o).1.factory ≡ p.factory
  unfolding cached_engine
  cached_engine-same source p (some e) = refl
  cached_engine-same source p none =
      create_from-same (get_settings source p) ∙ (get_settings-same create_engine source p).1

  -- Building the engine leaves the session factory alone.
  build_engine-same :
      (source : Source) (p : Process E)
      → (build_engine create_engine source p).1.factory ≡ p.factory
  unfolding build_engine
  build_engine-same source p = cached_engine-same source p p.engine

  module _ (source : Source) (p : Process E) (bound : IsBound create_engine p) where
    cached_factory-IsCached :
        (o : Option (SessionFactory E))
        → p.factory ≡ o
        → IsCached create_engine
            (λ (q : Process E). q.factory)
            p
            (cached_factory create_engine source p o)
    unfolding cached_factory
    cached_factory-IsCached (some f) h = record {
      keeps = Keeps-refl create_engine p;
      bound = bound;
      returned = λ t r. cc;
      raised = λ e r. absurd (cc);
    }
    cached_factory-IsCached none h =
        bind_factory-IsCached create_engine p (build_engine create_engine source p)
          (build_engine-IsCached source p bound) (build_engine-same source p ∙ h)

    build_session_factory-IsCached :
        IsCached create_engine
          (λ (q : Process E). q.factory)
          p
          (build_session_factory create_engine source p)
    unfolding build_session_factory
    build_session_factory-IsCached = cached_factory-IsCached p.factory refl

  -- The caches after a call.
  unfoldable pub serve : (String → String) → (PyError → String) → Call E → Process E → Process E
  unfolding get_session health create_app smoke_main
  serve repr show (call_get_settings source) p = (get_settings source p).1
  serve repr show (call_build_engine source) p = (build_engine create_engine source p).1
  serve repr show (call_build_session_factory source) p =
      (build_session_factory create_engine source p).1
  serve repr show (call_get_session source body) p = (get_session body create_engine source p).2
  serve repr show (call_health source select_one) p = (health create_engine select_one source p).1
  serve repr show (call_create_app fastapi source) p = (create_app repr fastapi source p).1
  serve repr show (call_smoke_main source) p = (smoke_main repr show source p).1

  unfoldable pub serve_all :
      (String → String) → (PyError → String) → List (Call E) → Process E → Process E
  unfolding serve
  serve_all repr show [] p = p
  serve_all repr show (c ∷ cs) p = serve_all repr show cs (serve repr show c p)

  -- The process before and after: what was kept is kept, and what is kept goes together.
  abbrev pub IsServed : Process E → Process E → Type 0
  IsServed p q = Keeps create_engine p q × IsBound create_engine q

  served {α ε} :
      {A : Type α} {R : Type ε} {kept : Process E → Option A} {p : Process E}
      {r : Result R A × Process E}
      → IsCached create_engine kept p r
      → IsServed p r.1
  served c = (c.keeps, c.bound)

  session_around-same :
      {R A : Type 0} (body : SessionFactory E → Result R A)
      (r : Result RuntimeError (SessionFactory E) × Process E)
      → (session_around body r).2 ≡ r.1
  unfolding session_around
  session_around-same body (ok f, p) = refl
  session_around-same body (err e, p) = refl

  after_settings-same {α} :
      {A : Type α} (next : Settings → Result PyError A) (r : Result PyError Settings × Process E)
      → (after_settings next r).1 ≡ r.1
  after_settings-same next (ok s, p) = refl
  after_settings-same next (err e, p) = refl

  module _ (repr : String → String) (show : PyError → String) where
    serve-IsServed :
        (c : Call E) (p : Process E) → IsBound create_engine p → IsServed p (serve repr show c p)
    unfolding serve get_session health create_app smoke_main
    serve-IsServed (call_get_settings source) p b =
        served (get_settings-IsCached create_engine source p b)
    serve-IsServed (call_build_engine source) p b = served (build_engine-IsCached source p b)
    serve-IsServed (call_build_session_factory source) p b =
        served (build_session_factory-IsCached source p b)
    serve-IsServed (call_get_session source body) p b =
        subst (IsServed p)
          (sym (session_around-same body (build_session_factory create_engine source p)))
          (served (build_session_factory-IsCached source p b))
    serve-IsServed (call_health source select_one) p b = served (build_engine-IsCached source p b)
    serve-IsServed (call_create_app fastapi source) p b =
        subst (IsServed p) (sym (after_settings-same _ (get_settings source p)))
          (served (get_settings-IsCached create_engine source p b))
    serve-IsServed (call_smoke_main source) p b =
        served (get_settings-IsCached create_engine source p b)

    -- However often, in whatever order and with whatever environments the settings, the engine, the
    -- session factory, the session of a request, the probe, the application and the smoke script are called, from a process whose
    -- caches go together: the caches go together afterwards, so that an engine was created from the
    -- PostgreSQL URL of the settings and sessions are bound to it; and whatever a cache held it still
    -- holds.
    pub serve_all-IsServed :
        (cs : List (Call E)) (p : Process E)
        → IsBound create_engine p
        → IsServed p (serve_all repr show cs p)
    unfolding serve_all
    serve_all-IsServed [] p b = (Keeps-refl create_engine p, b)
    serve_all-IsServed (c ∷ cs) p b =
        let (keeps, bound) = serve-IsServed c p b in
        let (keeps', bound') = serve_all-IsServed cs (serve repr show c p) bound in
        (Keeps-trans create_engine keeps keeps', bound')
