-- ===== src/Api/Routes.antt =====
-- backend/app/api/routes: the three endpoints of the business API.
pub mod Answers
pub mod Created
pub mod Widths
use organization_ai.Base.{ℕ, String, Option, none, some, List, [], ◌∷◌}
use organization_ai.Base.Json.{Json, Uuid, uuid_text}
use organization_ai.Base.Text.{format}
use organization_ai.Base.Result.{PyError, Result, ok, err}
use organization_ai.Domain.Models.{CaseSubmission}
use organization_ai.Persistence.Rows.{Database}
use organization_ai.Persistence.Engine.{Engine}
use organization_ai.Application.Views.{TraceReadModel, ServiceError}
use organization_ai.Application.History.{Effects, submit_trace, read_trace}
use organization_ai.Application.ControlDeck.{ControlRequest, submit_control}
use organization_ai.Api.Requests.{ControlCommandRequest, new_request}
use organization_ai.Api.Errors.{JsonResponse, validation, handle}

-- A view with its status and the `Location` header if it has one, an error response, or an exception
-- without a handler.
pub data HttpResponse : Type 0 where
  shown : ℕ → Option String → TraceReadModel → HttpResponse
  refused : JsonResponse → HttpResponse
  unhandled : ServiceError → HttpResponse

unfoldable pub or_unhandled : ServiceError → Option JsonResponse → HttpResponse
or_unhandled e none = unhandled e
or_unhandled e (some r) = refused r

unfoldable pub respond :
    (String → String)
    → ℕ
    → (TraceReadModel → Option String)
    → Result ServiceError TraceReadModel
    → HttpResponse
unfolding or_unhandled handle
respond repr status location (ok view) = shown status (location view) view
respond repr status location (err e) = or_unhandled e (handle repr e)

abbrev no_location : TraceReadModel → Option String
no_location _ = none

abbrev pub location_of : TraceReadModel → Option String
location_of view = some (format ("/api/temporary/decision-traces/" ∷ uuid_text view.trace_id ∷ []))

abbrev control_request : Uuid → ControlCommandRequest → ControlRequest
control_request trace_id command = record {
  trace_id = trace_id;
  command = command.command;
  reason = command.reason;
  disposition = command.disposition;
  idempotency_key = command.idempotency_key;
}

-- `repr` is Python's on texts, and `errors` gives pydantic's report of an invalid body.
module _ (engine : Engine) (sha256 : List ℕ → String) (repr : String → String)
    (errors : PyError → List Json) (fx : Effects) (others : Database → Database) where
  unfoldable pub control_made :
      Uuid → Result PyError ControlCommandRequest → Database → HttpResponse × Database
  unfolding submit_control respond validation
  control_made trace_id (err e) db = (refused (validation (errors e)), db)
  control_made trace_id (ok command) db =
      let answer = submit_control engine sha256 fx others (control_request trace_id command) db in
      (respond repr 200 no_location answer.0, answer.1)

  -- `POST /api/temporary/decision-traces/{trace_id}/controls`
  unfoldable pub create_control : Uuid → ControlCommandRequest → Database → HttpResponse × Database
  unfolding control_made new_request
  create_control trace_id body db = control_made trace_id (new_request body) db

  -- `POST /api/temporary/decision-traces`, of a constructed submission
  unfoldable pub create_trace : CaseSubmission → Database → HttpResponse × Database
  unfolding submit_trace respond
  create_trace submission db =
      let answer = submit_trace engine fx others submission db in
      (respond repr 201 location_of answer.0, answer.1)

-- `GET /api/temporary/decision-traces/{trace_id}`
unfoldable pub retrieve_trace : (String → String) → Uuid → Database → HttpResponse
unfolding read_trace respond
retrieve_trace repr trace_id db = respond repr 200 no_location (read_trace trace_id db)
