-- ===== src/Application/Messages.antt =====
-- The texts of the exceptions that backend/app/application/temporary_history.py and
-- backend/app/application/control_deck.py define; `repr` is Python's, on texts.
use organization_ai.Base.{String, Option, none, some, [], ◌∷◌}
use organization_ai.Base.Json.{Uuid, uuid_text, uuid_repr}
use organization_ai.Base.Text.{format}
use organization_ai.Application.Views.{
  ServiceError, trace_already_recorded, trace_not_found, illegal_control_action,
  control_idempotency_conflict, python_error, integrity_error,
}

module _ (repr : String → String) where
  unfoldable pub trace_already_recorded_message : String → String
  unfolding format
  trace_already_recorded_message case_id =
      format ("a temporary trace already exists for case_id " ∷ repr case_id ∷ [])

  unfoldable pub trace_not_found_message : Uuid → String
  unfolding format
  trace_not_found_message trace_id =
      format ("no temporary trace exists for trace_id " ∷ uuid_repr trace_id ∷ [])

  unfoldable pub illegal_control_action_message : Uuid → String → String → String → String
  unfolding format uuid_text
  illegal_control_action_message trace_id state command detail = format (
      "control command "
      ∷ repr command
      ∷ " is illegal for trace "
      ∷ uuid_text trace_id
      ∷ " in state "
      ∷ repr state
      ∷ ": "
      ∷ detail
      ∷ [])

  unfoldable pub control_idempotency_conflict_message : Uuid → String → String
  unfolding format uuid_text
  control_idempotency_conflict_message trace_id idempotency_key = format (
      "idempotency key "
      ∷ repr idempotency_key
      ∷ " was already used for a different command on trace "
      ∷ uuid_text trace_id
      ∷ [])

  -- The text of an exception of the services' own.
  unfoldable pub own_message : ServiceError → Option String
  unfolding trace_already_recorded_message trace_not_found_message illegal_control_action_message
      control_idempotency_conflict_message
  own_message (trace_already_recorded case_id) = some (trace_already_recorded_message case_id)
  own_message (trace_not_found trace_id) = some (trace_not_found_message trace_id)
  own_message (illegal_control_action trace_id state command detail) =
      some (illegal_control_action_message trace_id state command detail)
  own_message (control_idempotency_conflict trace_id key) =
      some (control_idempotency_conflict_message trace_id key)
  own_message (python_error _) = none
  own_message (integrity_error _) = none
