-- ===== src/Api/Requests.antt =====
-- backend/app/api/schemas/control_deck.py: the body of a control request.
use organization_ai.Base.{
  false, Bool, String, Option, none, some, length, leb, ◌==◌, ◌≡◌, if◌then◌else◌, arith, sym,
}
use organization_ai.Base.Query.{any}
use organization_ai.Base.Text.{codes, is_blank}
use organization_ai.Base.Result.{PyError, value_error, Result, ok, err, ◌>>=◌, >>=-ok, ok-injective}
use organization_ai.Domain.Control.Vocabulary.{
  ControlCommand, pause, resume, record_demo_review, undo, DemoDisposition,
}
use organization_ai.Domain.Control.Deck.{HasDisposition}

pub record ControlCommandRequest : Type 0 where
  pub command : ControlCommand
  pub reason : String
  pub disposition : Option DemoDisposition
  pub idempotency_key : Option String

-- `"\x00" in value`
unfoldable pub has_nul : String → Bool
unfolding any
has_nul value = any (λ c. c == 0) (codes value)

unfoldable pub require_non_blank_reason : String → Result PyError String
unfolding is_blank has_nul
require_non_blank_reason value =
    if is_blank value
    then err (value_error "reason must not be blank")
    else if has_nul value
    then err (value_error "reason must not contain NUL characters")
    else ok value

unfoldable pub require_non_blank_key : Option String → Result PyError (Option String)
unfolding is_blank has_nul
require_non_blank_key none = ok none
require_non_blank_key (some value) =
    if is_blank value
    then err (value_error "idempotency_key must not be blank")
    else if has_nul value
    then err (value_error "idempotency_key must not contain NUL characters")
    else ok (some value)

-- `Field(default=None, max_length=255)`, whose message is pydantic's
unfoldable pub check_key_length : Option String → Result PyError (Option String)
check_key_length none = ok none
check_key_length (some value) =
    if leb (length (codes value)) 255
    then ok (some value)
    else err (value_error "String should have at most 255 characters")

disposition_rule : ControlCommand → Option DemoDisposition → Result PyError (Option DemoDisposition)
disposition_rule record_demo_review none =
    err (value_error "record_demo_review requires a disposition")
disposition_rule record_demo_review (some d) = ok (some d)
disposition_rule pause none = ok none
disposition_rule resume none = ok none
disposition_rule undo none = ok none
disposition_rule _ (some d) = err (value_error "disposition is only valid with record_demo_review")

-- `_disposition_matches_command`
unfoldable pub disposition_matches_command :
    ControlCommandRequest → Result PyError ControlCommandRequest
unfolding disposition_rule
disposition_matches_command request = do
  _ ← disposition_rule request.command request.disposition
  ok request

-- The construction of a request. pydantic reports all failures of the fields at once; here it is the
-- first of them.
unfoldable pub new_request : ControlCommandRequest → Result PyError ControlCommandRequest
unfolding require_non_blank_reason require_non_blank_key check_key_length
    disposition_matches_command
new_request request = do
  _ ← require_non_blank_reason request.reason
  _ ← check_key_length request.idempotency_key
  _ ← require_non_blank_key request.idempotency_key
  disposition_matches_command request

disposition_rule-HasDisposition :
    (c : ControlCommand) (d : Option DemoDisposition) {x : Option DemoDisposition}
    → disposition_rule c d ≡ ok x
    → HasDisposition c d
unfolding disposition_rule
disposition_rule-HasDisposition record_demo_review none h = absurd (cc)
disposition_rule-HasDisposition record_demo_review (some d) h = tt
disposition_rule-HasDisposition pause d h = tt
disposition_rule-HasDisposition resume d h = tt
disposition_rule-HasDisposition undo d h = tt

require_non_blank_reason-solid :
    (value : String) {v : String} → require_non_blank_reason value ≡ ok v → is_blank value ≡ false
unfolding require_non_blank_reason
require_non_blank_reason-solid value h = ground arith

-- A constructed request has what the guard asks for.
pub new_request-HasDisposition :
    (request : ControlCommandRequest) {made : ControlCommandRequest}
    → new_request request ≡ ok made
    → (made ≡ request)
      × (is_blank request.reason ≡ false)
      × HasDisposition request.command request.disposition
unfolding new_request
new_request-HasDisposition request {made} h =
    let (_, h1, solid) = >>=-ok (require_non_blank_reason request.reason) _ h in
    let (_, h2, _) = >>=-ok (check_key_length request.idempotency_key) _ h1 in
    let (_, h3, _) = >>=-ok (require_non_blank_key request.idempotency_key) _ h2 in
    let (_, h4, ruled) = >>=-ok (disposition_rule request.command request.disposition) _ h3 in
    (
      sym (ok-injective h4),
      require_non_blank_reason-solid request.reason solid,
      disposition_rule-HasDisposition request.command request.disposition ruled,
    )
