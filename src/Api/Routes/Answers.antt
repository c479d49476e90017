-- ===== src/Api/Routes/Answers.antt =====
-- Which responses the control endpoint of backend/app/api/routes/control_deck.py gives.
use organization_ai.Base.{ℕ, String, Option, List, ◌≡◌, ◌⊎◌, inl, inr, refl, ap, sym, ◌∙◌, subst}
use organization_ai.Base.Json.{Json, Uuid}
use organization_ai.Base.Text.{is_blank}
use organization_ai.Base.Result.{PyError, Result, ok, err}
use organization_ai.Domain.Control.Deck.{HasDisposition}
use organization_ai.Persistence.Rows.{Database}
use organization_ai.Persistence.Engine.{Engine}
use organization_ai.Application.Views.{
  TraceReadModel, ServiceError, trace_already_recorded, trace_not_found, illegal_control_action,
  control_idempotency_conflict, python_error, integrity_error,
}
use organization_ai.Application.Sound.{IsSound}
use organization_ai.Application.History.{Effects}
use organization_ai.Application.ControlDeck.{submit_control}
use organization_ai.Application.ControlDeck.Expected.{IsAnswer, IsOtherRefusal}
use organization_ai.Application.ControlDeck.Answers.{submit_control-IsAnswer}
use organization_ai.Api.Requests.{ControlCommandRequest, new_request, new_request-HasDisposition}
use organization_ai.Api.Errors.{response}
use organization_ai.Api.Routes.{
  HttpResponse, shown, refused, unhandled, respond, control_request, control_made, create_control,
}

-- The responses that the endpoint declares for a request with this key: 200, 404, 409 and 422, or a
-- refusal of the database that is not for the key.
abbrev pub IsDeclared : Option String → HttpResponse → Type 0
IsDeclared key (shown status location view) = status ≡ 200
IsDeclared key (refused r) = (r.status_code ≡ 404) ⊎ ((r.status_code ≡ 409) ⊎ (r.status_code ≡ 422))
IsDeclared key (unhandled (integrity_error e)) = IsOtherRefusal key e
IsDeclared key (unhandled _) = ⊥

respond-IsDeclared :
    (key : Option String) (repr : String → String) (location : TraceReadModel → Option String)
    (answer : Result ServiceError TraceReadModel)
    → IsAnswer key answer
    → IsDeclared key (respond repr 200 location answer)
unfolding respond response
respond-IsDeclared key repr location (ok view) h = refl
respond-IsDeclared key repr location (err (trace_already_recorded case_id)) h = absurd h
respond-IsDeclared key repr location (err (trace_not_found t)) h = inl refl
respond-IsDeclared key repr location (err (illegal_control_action t state command detail)) h =
    inr (inl refl)
respond-IsDeclared key repr location (err (control_idempotency_conflict t taken)) h = inr (inl refl)
respond-IsDeclared key repr location (err (python_error e)) h = absurd h
respond-IsDeclared key repr location (err (integrity_error e)) h = h

module _ (engine : Engine) (sha256 : List ℕ → String) (repr : String → String)
    (errors : PyError → List Json) (fx : Effects) (others : Database → Database) (trace_id : Uuid)
    (body : ControlCommandRequest) (db : Database) (sound : IsSound db)
    (sound' : IsSound (others db)) where
  control_made-IsDeclared :
      (made : Result PyError ControlCommandRequest)
      → new_request body ≡ made
      → IsDeclared body.idempotency_key
          (control_made engine sha256 repr errors fx others trace_id made db).0
  unfolding control_made response
  control_made-IsDeclared (err e) h = inr (inr refl)
  control_made-IsDeclared (ok command) h =
      let (same, solid, given) = new_request-HasDisposition body h in
      let answer =
        (submit_control engine sha256 fx others (control_request trace_id command) db).0 in
      respond-IsDeclared body.idempotency_key repr _ answer (
        subst (λ (c : ControlCommandRequest). IsAnswer c.idempotency_key answer) same
          (submit_control-IsAnswer engine sha256 fx others (control_request trace_id command) db
            (ap (λ (c : ControlCommandRequest). is_blank c.reason) same ∙ solid)
            (subst (λ (c : ControlCommandRequest). HasDisposition c.command c.disposition)
              (sym same) given)
            sound sound'))

  -- Whatever the body: if every trace of the tables can be replayed, and every trace as other
  -- transactions leave them, then the endpoint answers 200 with a view, or 404, 409 or 422 in the error
  -- envelope. The one exception that can leave it is an integrity error that names a constraint of the
  -- tables; where the body has a key, it is not the unique index on the keys, so a key that another
  -- transaction has taken meanwhile is answered, too.
  pub create_control-IsDeclared :
      IsDeclared body.idempotency_key
        (create_control engine sha256 repr errors fx others trace_id body db).0
  unfolding create_control
  create_control-IsDeclared = control_made-IsDeclared (new_request body) refl
