-- ===== src/Domain/Control/Vocabulary.antt =====
-- The vocabulary of backend/app/domain/control.py: states, commands, actions and event records.
use organization_ai.Base.{
  ℕ, String, Option, none, some, List, ◌≡◌, refl, get_last?, str_eq, eq_iff, if◌then◌else◌, arith,
}
use organization_ai.Base.Json.{Uuid, Payload}
use organization_ai.Domain.Enums.{DecisionOutcome}

pub data ControlState : Type 0 where
  auto_approved awaiting_input awaiting_review paused demo_reviewed : ControlState

pub data ControlCommand : Type 0 where
  pause resume record_demo_review undo : ControlCommand

pub data ControlAction : Type 0 where
  case_paused case_resumed demo_review_recorded control_compensated : ControlAction

pub data ControlActor : Type 0 where
  demo_reviewer : ControlActor

pub data DemoDisposition : Type 0 where
  demo_allow demo_decline : DemoDisposition

unfoldable pub state_value : ControlState → String
state_value auto_approved = "AUTO_APPROVED"
state_value awaiting_input = "AWAITING_INPUT"
state_value awaiting_review = "AWAITING_REVIEW"
state_value paused = "PAUSED"
state_value demo_reviewed = "DEMO_REVIEWED"

unfoldable pub command_value : ControlCommand → String
command_value pause = "pause"
command_value resume = "resume"
command_value record_demo_review = "record_demo_review"
command_value undo = "undo"

unfoldable pub action_value : ControlAction → String
action_value case_paused = "CASE_PAUSED"
action_value case_resumed = "CASE_RESUMED"
action_value demo_review_recorded = "DEMO_REVIEW_RECORDED"
action_value control_compensated = "CONTROL_COMPENSATED"

unfoldable pub actor_value : ControlActor → String
actor_value demo_reviewer = "DEMO_REVIEWER"

unfoldable pub disposition_value : DemoDisposition → String
disposition_value demo_allow = "DEMO_ALLOW"
disposition_value demo_decline = "DEMO_DECLINE"

pub record StoredAuditEvent : Type 0 where
  pub event_id : Uuid
  pub sequence_number : ℕ
  pub action : String
  pub payload : Payload

pub record ActiveControlEvent : Type 0 where
  pub event_id : Uuid
  pub action : ControlAction
  pub prior_state : ControlState

pub record ControlProjection : Type 0 where
  pub state : ControlState
  pub active : List ActiveControlEvent

-- the property `latest_reversible`: `self.active[-1] if self.active else None`
unfoldable pub latest_reversible : ControlProjection → Option ActiveControlEvent
latest_reversible p = get_last? p.active

pub record PlannedControlEvent : Type 0 where
  pub action : ControlAction
  pub actor : ControlActor
  pub prior_state : ControlState
  pub target_event_id : Option Uuid
  pub payload : Payload

-- `_as_control_action`
unfoldable pub as_control_action : String → Option ControlAction
as_control_action action =
    if str_eq action "CASE_PAUSED"
    then some case_paused
    else if str_eq action "CASE_RESUMED"
    then some case_resumed
    else if str_eq action "DEMO_REVIEW_RECORDED"
    then some demo_review_recorded
    else if str_eq action "CONTROL_COMPENSATED"
    then some control_compensated
    else none

-- The match is exhaustive, so the `raise` behind it is not reached.
unfoldable pub base_control_state : DecisionOutcome → ControlState
base_control_state DecisionOutcome.auto_approved = auto_approved
base_control_state DecisionOutcome.missing_fact = awaiting_input
base_control_state DecisionOutcome.out_of_policy = awaiting_review
base_control_state DecisionOutcome.authority_exceeded = awaiting_review

pub as_control_action-value : (a : ControlAction) → as_control_action (action_value a) ≡ some a
unfolding as_control_action action_value
as_control_action-value case_paused = refl
as_control_action-value case_resumed = refl
as_control_action-value demo_review_recorded = refl
as_control_action-value control_compensated = refl

pub action_value-as :
    (text : String) (a : ControlAction) → as_control_action text ≡ some a → action_value a ≡ text
unfolding as_control_action action_value
action_value-as text a h = ground (
  arith,
  eq_iff text "CASE_PAUSED",
  eq_iff text "CASE_RESUMED",
  eq_iff text "DEMO_REVIEW_RECORDED",
  eq_iff text "CONTROL_COMPENSATED",
)
