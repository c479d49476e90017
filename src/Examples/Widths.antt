-- ===== src/Examples/Widths.antt =====
-- A case is submitted to empty tables, and then paused: what is stored fits its columns.
use organization_ai.Base.{ℕ, String, List, length, ◌≡◌, refl}
use organization_ai.Base.Text.{codes}
use organization_ai.Persistence.Rows.{Database}
use organization_ai.Persistence.Engine.Checked.{checked_engine}
use organization_ai.Persistence.Widths.{FitsColumns}
use organization_ai.Application.History.{submit_trace}
use organization_ai.Application.Widths.{submit_trace-FitsColumns}
use organization_ai.Api.Routes.{create_control}
use organization_ai.Api.Routes.Widths.{create_control-FitsColumns}
use organization_ai.Examples.Services.{effects, alone, submission, empty}
use organization_ai.Examples.Endpoints.{quoted, no_errors, hold_body}

-- A digest of 64 hexadecimal characters.
abbrev zeros : List ℕ → String
zeros _ = "0000000000000000000000000000000000000000000000000000000000000000"

zeros-length : (bytes : List ℕ) → length (codes (zeros bytes)) ≡ 64
zeros-length bytes = refl

empty-FitsColumns : FitsColumns empty
empty-FitsColumns = record { cases = tt; decisions = tt; events = tt }

abbrev submitted : Database
submitted = (submit_trace checked_engine (effects 100) alone submission empty).1

submit_trace-FitsColumns_example : FitsColumns submitted
submit_trace-FitsColumns_example =
    submit_trace-FitsColumns checked_engine (effects 100) alone submission empty empty-FitsColumns
      empty-FitsColumns

submitted-FitsColumns : FitsColumns submitted
submitted-FitsColumns =
    submit_trace-FitsColumns checked_engine (effects 100) alone submission empty empty-FitsColumns
      empty-FitsColumns

create_control-FitsColumns_example :
    FitsColumns
      (create_control checked_engine zeros quoted no_errors
        (effects 200)
        alone
        100
        hold_body
        submitted).1
create_control-FitsColumns_example =
    create_control-FitsColumns checked_engine zeros zeros-length quoted no_errors (effects 200)
      alone 100 submitted submitted-FitsColumns submitted-FitsColumns hold_body
