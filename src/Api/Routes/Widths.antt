-- ===== src/Api/Routes/Widths.antt =====
-- What the endpoints of backend/app/api/routes write fits the columns.
use organization_ai.Base.{
  ℕ, leb→le, String, Option, none, some, List, length, ◌≡◌, refl, sym, subst, arith,
}
use organization_ai.Base.Json.{Json, Uuid}
use organization_ai.Base.Text.{codes}
use organization_ai.Base.Result.{PyError, Result, ok, err, >>=-ok}
use organization_ai.Persistence.Rows.{Database}
use organization_ai.Persistence.Engine.{Engine}
use organization_ai.Persistence.Widths.{FitsIfGiven, FitsColumns, Fits-idempotency_key}
use organization_ai.Migrations.Declared.{event_table}
use organization_ai.Application.History.{Effects}
use organization_ai.Application.Widths.{submit_control-FitsColumns}
use organization_ai.Api.Requests.{
  ControlCommandRequest, require_non_blank_reason, check_key_length, new_request,
  new_request-HasDisposition,
}
use organization_ai.Api.Routes.{control_made, create_control}

check_key_length-fits :
    (key : Option String) {k : Option String}
    → check_key_length key ≡ ok k
    → FitsIfGiven event_table "idempotency_key" key
unfolding check_key_length
check_key_length-fits none h = tt
check_key_length-fits (some value) h =
    Fits-idempotency_key value (leb→le (length (codes value)) 255 (ground arith))

-- The key of a constructed request fits its column.
new_request-fits :
    (request : ControlCommandRequest) {made : ControlCommandRequest}
    → new_request request ≡ ok made
    → FitsIfGiven event_table "idempotency_key" made.idempotency_key
unfolding new_request
new_request-fits request {made} h =
    let (_, h1, _) = >>=-ok (require_non_blank_reason request.reason) _ h in
    let (_, h2, key) = >>=-ok (check_key_length request.idempotency_key) _ h1 in
    let same = (new_request-HasDisposition request h).0 in
    subst
      (λ (r : ControlCommandRequest). FitsIfGiven event_table "idempotency_key" r.idempotency_key)
      (sym same) (check_key_length-fits request.idempotency_key key)

module _ (engine : Engine) (sha256 : List ℕ → String)
    (hex_length : (bytes : List ℕ) → length (codes (sha256 bytes)) ≡ 64) (repr : String → String)
    (errors : PyError → List Json) (fx : Effects) (others : Database → Database) (trace_id : Uuid)
    (db : Database) (fit : FitsColumns db) (fit' : FitsColumns (others db)) where
  control_made-FitsColumns :
      (r : Result PyError ControlCommandRequest)
      → ((made : ControlCommandRequest)
          → r ≡ ok made
          → FitsIfGiven event_table "idempotency_key" made.idempotency_key)
      → FitsColumns (control_made engine sha256 repr errors fx others trace_id r db).1
  unfolding control_made
  control_made-FitsColumns (err e) key = fit
  control_made-FitsColumns (ok command) key =
      submit_control-FitsColumns sha256 hex_length _ (key command refl) engine fx others db fit fit'

  -- With a SHA-256 whose digests have 64 characters, and tables whose texts all fit the widths that their
  -- columns are declared with, before the call and as other transactions leave them: after the control
  -- endpoint every text fits, whatever the body is.
  pub create_control-FitsColumns :
      (body : ControlCommandRequest)
      → FitsColumns (create_control engine sha256 repr errors fx others trace_id body db).1
  unfolding create_control
  create_control-FitsColumns body =
      control_made-FitsColumns (new_request body) (λ made h. new_request-fits body h)
