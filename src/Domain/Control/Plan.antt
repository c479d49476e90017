-- ===== src/Domain/Control/Plan.antt =====
-- `plan_control_command`: the guard of a command, and the one event that it plans.
use Prim.Native.String.{compare}
use text.Mathlib.Text.{is_le}
use organization_ai.Base.{
  String, Bool, true, false, ◌||◌, Option, none, some, List, [], ◌∷◌, map, if◌then◌else◌,
}
use organization_ai.Base.Json.{str, uuid_text}
use organization_ai.Base.Text.{is_blank, format}
use organization_ai.Base.Result.{Result, ok, err, ◌>>=◌}
use organization_ai.Domain.Control.Vocabulary.{
  ControlState, awaiting_input, awaiting_review, paused, demo_reviewed, auto_approved,
  ControlCommand, pause, resume, record_demo_review, undo, case_paused, case_resumed,
  demo_review_recorded, control_compensated, demo_reviewer, DemoDisposition, state_value,
  disposition_value, ActiveControlEvent, ControlProjection, PlannedControlEvent, latest_reversible,
}

-- `IllegalControlTransition` is a `ValueError` that its callers catch by its own name.
pub data PlanError : Type 0 where
  illegal_control_transition : ControlState → ControlCommand → String → PlanError
  value_error : String → PlanError

unfoldable pub require_reason : String → Result PlanError (Unit {0})
require_reason reason =
    if is_blank reason then err (value_error "control command reason must not be blank") else ok tt

unfoldable pub same_state : ControlState → ControlState → Bool
same_state auto_approved auto_approved = true
same_state awaiting_input awaiting_input = true
same_state awaiting_review awaiting_review = true
same_state paused paused = true
same_state demo_reviewed demo_reviewed = true
same_state _ _ = false

unfoldable pub state_in : ControlState → List ControlState → Bool
unfolding same_state
state_in state [] = false
state_in state (member ∷ members) = same_state state member || state_in state members

-- `sorted` on texts, by their characters
insert_text : String → List String → List String
insert_text s [] = s ∷ []
insert_text s (t ∷ ts) = if is_le (compare s t) then s ∷ t ∷ ts else t ∷ insert_text s ts

sort_texts : List String → List String
unfolding insert_text
sort_texts [] = []
sort_texts (s ∷ ss) = insert_text s (sort_texts ss)

-- `" or ".join(texts)`
join_or : List String → String
unfolding format
join_or [] = ""
join_or (s ∷ []) = s
join_or (s ∷ t ∷ ts) = format (s ∷ " or " ∷ join_or (t ∷ ts) ∷ [])

unfoldable pub expected_states : List ControlState → String
unfolding sort_texts join_or format state_value
expected_states allowed =
    format ("expected state " ∷ join_or (sort_texts (map state_value allowed)) ∷ [])

unfoldable pub require_state :
    ControlState → List ControlState → ControlCommand → Result PlanError (Unit {0})
unfolding state_in
require_state state allowed command =
    if state_in state allowed
    then ok tt
    else err (illegal_control_transition state command (expected_states allowed))

plan_pause : String → ControlState → Result PlanError PlannedControlEvent
unfolding require_state
plan_pause reason state = do
  _ ← require_state state (awaiting_input ∷ awaiting_review ∷ []) pause
  ok (record {
    action = case_paused;
    actor = demo_reviewer;
    prior_state = state;
    target_event_id = none;
    payload = ("reason", str reason) ∷ ("prior_state", str (state_value state)) ∷ [];
  })

-- `latest is None or latest.action is not CASE_PAUSED`
require_active_pause :
    ControlState → Option ActiveControlEvent → Result PlanError ActiveControlEvent
require_active_pause state none =
    err (illegal_control_transition state resume "no active pause to resume")
require_active_pause state (some latest) = elim latest.action [
  | case_paused ↦ ok latest
  | _ ↦ err (illegal_control_transition state resume "no active pause to resume")
]

plan_resume :
    String → ControlState → Option ActiveControlEvent → Result PlanError PlannedControlEvent
unfolding require_state require_active_pause
plan_resume reason state latest? = do
  _ ← require_state state (paused ∷ []) resume
  latest ← require_active_pause state latest?
  ok (record {
    action = case_resumed;
    actor = demo_reviewer;
    prior_state = latest.prior_state;
    target_event_id = some latest.event_id;
    payload =
        ("reason", str reason)
        ∷ ("prior_state", str (state_value latest.prior_state))
        ∷ ("resumed_event_id", str (uuid_text latest.event_id))
        ∷ [];
  })

require_disposition : Option DemoDisposition → Result PlanError DemoDisposition
require_disposition none = err (value_error "record_demo_review requires a demo disposition")
require_disposition (some disposition) = ok disposition

plan_record_demo_review :
    String → Option DemoDisposition → ControlState → Result PlanError PlannedControlEvent
unfolding require_state require_disposition
plan_record_demo_review reason disposition? state = do
  _ ← require_state state (awaiting_review ∷ []) record_demo_review
  disposition ← require_disposition disposition?
  ok (record {
    action = demo_review_recorded;
    actor = demo_reviewer;
    prior_state = state;
    target_event_id = none;
    payload =
        ("reason", str reason)
        ∷ ("disposition", str (disposition_value disposition))
        ∷ ("prior_state", str (state_value state))
        ∷ [];
  })

require_latest : ControlState → Option ActiveControlEvent → Result PlanError ActiveControlEvent
require_latest state none =
    err (illegal_control_transition state undo "no reversible control event")
require_latest state (some latest) = ok latest

plan_undo : String → ControlState → Option ActiveControlEvent → Result PlanError PlannedControlEvent
unfolding require_state require_latest
plan_undo reason state latest? = do
  latest ← require_latest state latest?
  _ ← require_state state (paused ∷ demo_reviewed ∷ []) undo
  ok (record {
    action = control_compensated;
    actor = demo_reviewer;
    prior_state = latest.prior_state;
    target_event_id = some latest.event_id;
    payload =
        ("reason", str reason)
        ∷ ("target_event_id", str (uuid_text latest.event_id))
        ∷ ("prior_state", str (state_value latest.prior_state))
        ∷ [];
  })

plan_for :
    ControlProjection
    → String
    → Option DemoDisposition
    → ControlCommand
    → Result PlanError PlannedControlEvent
unfolding plan_pause plan_resume plan_record_demo_review plan_undo latest_reversible
plan_for p reason disposition pause = plan_pause reason p.state
plan_for p reason disposition resume = plan_resume reason p.state (latest_reversible p)
plan_for p reason disposition record_demo_review =
    plan_record_demo_review reason disposition p.state
plan_for p reason disposition undo = plan_undo reason p.state (latest_reversible p)

unfoldable pub plan_control_command :
    ControlProjection
    → ControlCommand
    → String
    → Option DemoDisposition
    → Result PlanError PlannedControlEvent
unfolding require_reason plan_for
plan_control_command p command reason disposition = do
  _ ← require_reason reason
  plan_for p reason disposition command
