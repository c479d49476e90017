-- ===== src/Runtime/Session.antt =====
-- `get_session` of backend/app/persistence/db.py: FastAPI runs it around the handling of a request.
use organization_ai.Base.{Bool, String, List, [], ◌∷◌}
use organization_ai.Base.Result.{Result, ok, err}
use organization_ai.Runtime.Settings.{Source}
use organization_ai.Runtime.Process.{RuntimeError, SessionFactory, Process, build_session_factory}

-- What becomes of the session.
pub data SessionStep : Type 0 where
  opened closed : SessionStep

pub data RequestError (R : Type 0) : Type 0 where
  no_session : RuntimeError → RequestError R
  raised : R → RequestError R

-- What was raised in the body is raised again when the session has been closed.
abbrev pub raise_again : {R A : Type 0} → Result R A → Result (RequestError R) A
raise_again (ok a) = ok a
raise_again (err e) = err (raised e)

module _ {E R A : Type 0} (body : SessionFactory E → Result R A) where
  -- `with factory() as session: yield session`
  unfoldable pub session_around :
      Result RuntimeError (SessionFactory E) × Process E
      → Result (RequestError R) A × List SessionStep × Process E
  session_around (err e, p) = (err (no_session e), [], p)
  session_around (ok factory, p) = (raise_again (body factory), opened ∷ closed ∷ [], p)

  -- `get_session`, with the body of the request at its `yield`
  unfoldable pub get_session :
      (String → Bool → Result String E)
      → Source
      → Process E
      → Result (RequestError R) A × List SessionStep × Process E
  unfolding build_session_factory session_around
  get_session create_engine source p = session_around (build_session_factory create_engine source p)
