-- ===== src/Examples/Endpoints.antt =====
-- The theorems on the endpoints at a stored case, and at one that is stored.
use organization_ai.Base.{String, none, some, List, [], refl}
use organization_ai.Base.Json.{Json}
use organization_ai.Base.Text.{is_blank}
use organization_ai.Base.Query.{any}
use organization_ai.Base.Result.{PyError}
use organization_ai.Domain.Control.Vocabulary.{pause}
use organization_ai.Domain.Models.Validity.{CaseIsValid}
use organization_ai.Persistence.Engine.Checked.{checked_engine}
use organization_ai.Api.Requests.{has_nul, ControlCommandRequest}
use organization_ai.Api.Routes.{create_control, create_trace}
use organization_ai.Api.Routes.Answers.{IsDeclared, create_control-IsDeclared}
use organization_ai.Api.Routes.Created.{IsStorable, IsCreated, create_trace-IsCreated}
use organization_ai.Examples.Services.{
  effects, alone, empty, empty-IsConsistent, submission, stored_once, stored_once-IsSound,
}
use organization_ai.Examples.Controls.{digest}

abbrev pub quoted : String → String
quoted text = text

abbrev pub no_errors : PyError → List Json
no_errors _ = []

abbrev pub hold_body : ControlCommandRequest
hold_body = record {
  command = pause;
  reason = "hold";
  disposition = none;
  idempotency_key = some "key-1";
}

create_control-IsDeclared_example :
    IsDeclared
      (some "key-1")
      (create_control checked_engine digest quoted no_errors
        (effects 200)
        alone
        100
        hold_body
        stored_once).0
create_control-IsDeclared_example =
    create_control-IsDeclared checked_engine digest quoted no_errors (effects 200) alone 100
      hold_body stored_once stored_once-IsSound stored_once-IsSound

submission-IsValid : CaseIsValid submission
unfolding is_blank
submission-IsValid = (refl, tt)

submission-IsStorable : IsStorable submission
unfolding has_nul any
submission-IsStorable = (refl, refl, tt, tt)

create_trace-IsCreated_example :
    IsCreated 100
      (create_trace checked_engine digest quoted no_errors (effects 100) alone submission empty).0
create_trace-IsCreated_example =
    create_trace-IsCreated checked_engine digest quoted no_errors (effects 100) alone submission
      empty submission-IsValid submission-IsStorable empty-IsConsistent
