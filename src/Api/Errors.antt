-- ===== src/Api/Errors.antt =====
-- backend/app/api/errors.py: the exceptions that have a handler, and the responses that these make.
use organization_ai.Base.{ℕ, String, Option, none, some, List, [], ◌∷◌}
use organization_ai.Base.Json.{Json, uuid_repr}
use organization_ai.Base.Text.{format}
use organization_ai.Domain.Enums.{source_value, data_class_value, validation_value}
use organization_ai.Policy.Profile.{tmp_dev_001_profile}
use organization_ai.Application.Views.{
  ProvenanceReadModel, ServiceError, trace_already_recorded, trace_not_found,
  illegal_control_action, control_idempotency_conflict, python_error, integrity_error,
  temporary_notice_text,
}

pub record ErrorBody : Type 0 where
  pub code : String
  pub message : String
  pub details : Option (List Json)

pub record ErrorResponse : Type 0 where
  pub error : ErrorBody
  pub temporary_notice : String
  pub provenance : ProvenanceReadModel

pub record JsonResponse : Type 0 where
  pub status_code : ℕ
  pub content : ErrorResponse

-- `_response`
unfoldable pub response : ℕ → String → String → Option (List Json) → JsonResponse
response status_code code message details = record {
  status_code = status_code;
  content = record {
    error = record { code = code; message = message; details = details };
    temporary_notice = temporary_notice_text;
    provenance = record {
      profile_id = tmp_dev_001_profile.profile_id;
      profile_source = source_value tmp_dev_001_profile.profile_source;
      data_class = data_class_value tmp_dev_001_profile.data_class;
      workflow_validation_status = validation_value tmp_dev_001_profile.workflow_validation_status;
    };
  };
}

-- `RequestValidationError`, with what pydantic reports of it
unfoldable pub validation : List Json → JsonResponse
unfolding response
validation errors =
    response 422 "INPUT_INVALID" "The submitted temporary case is invalid." (some errors)

-- The handler that an exception of a service has; the others leave the application. `repr` is Python's,
-- on texts.
unfoldable pub handle : (String → String) → ServiceError → Option JsonResponse
unfolding response format
handle repr (trace_already_recorded case_id) = some (
    response 409 "CASE_ID_ALREADY_RECORDED"
      (format ("A temporary trace already exists for synthetic case_id " ∷ repr case_id ∷ "." ∷ []))
      none)
handle repr (trace_not_found trace_id) = some (
    response 404 "TRACE_NOT_FOUND"
      (format ("No temporary trace exists for trace_id " ∷ uuid_repr trace_id ∷ "." ∷ [])) none)
handle repr (illegal_control_action trace_id state command detail) = some (
    response 409 "ILLEGAL_CONTROL_ACTION"
      (format (
        "Control command "
        ∷ repr command
        ∷ " is illegal for trace "
        ∷ uuid_repr trace_id
        ∷ " in state "
        ∷ repr state
        ∷ "."
        ∷ []))
      none)
handle repr (control_idempotency_conflict trace_id idempotency_key) = some (
    response 409 "CONTROL_IDEMPOTENCY_CONFLICT"
      (format (
        "The idempotency key "
        ∷ repr idempotency_key
        ∷ " was already used for a different command on trace "
        ∷ uuid_repr trace_id
        ∷ "."
        ∷ []))
      none)
handle repr (python_error e) = none
handle repr (integrity_error e) = none
