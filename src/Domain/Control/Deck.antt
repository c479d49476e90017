-- ===== src/Domain/Control/Deck.antt =====
-- What the Control Deck of backend/app/domain/control.py promises, as a state machine of its own: a
-- case is as its decision left it, or held by one pause, or settled by one demo review. The guard
-- `plan_control_command` and the reducer's step are related to it.
use organization_ai.Base.{
  String, false, Option, ◌⊎◌, inl, inr, subst, none, some, [], ◌∷◌, ◌≡◌, ◌≢◌, refl, arith,
}
use organization_ai.Base.Json.{Uuid}
use organization_ai.Base.Text.{is_blank}
use organization_ai.Base.Result.{Result, ok, err, Result-cases}
use organization_ai.Domain.Enums.{DecisionOutcome}
use organization_ai.Domain.Control.Vocabulary.{
  ControlState, awaiting_review, paused, demo_reviewed, ControlCommand, pause, resume,
  record_demo_review, undo, ControlAction, case_paused, case_resumed, demo_review_recorded,
  control_compensated, DemoDisposition, ControlProjection, PlannedControlEvent, base_control_state,
}
use organization_ai.Domain.Control.Reduce.{apply_action}
use organization_ai.Domain.Control.Plan.{
  PlanError, illegal_control_transition, plan_control_command,
}

pub data Overlay : Type 0 where
  clear : Overlay
  held reviewed : Uuid → Overlay

abbrev pub projection_of : DecisionOutcome → Overlay → ControlProjection
projection_of o clear = record { state = base_control_state o; active = [] }
projection_of o (held t) = record {
  state = paused;
  active = record { event_id = t; action = case_paused; prior_state = base_control_state o } ∷ [];
}
projection_of o (reviewed t) = record {
  state = demo_reviewed;
  active =
      record { event_id = t; action = demo_review_recorded; prior_state = base_control_state o }
      ∷ [];
}

-- The transitions, with the command and the id of the event that records it.
pub data Step (o : DecisionOutcome) : Overlay → ControlCommand → Uuid → Overlay → Type 0 where
  pause_case : {id : Uuid} → o ≢ DecisionOutcome.auto_approved → Step o clear pause id (held id)
  resume_case : {t id : Uuid} → Step o (held t) resume id clear
  review_case :
      {id : Uuid}
      → base_control_state o ≡ awaiting_review
      → Step o clear record_demo_review id (reviewed id)
  undo_pause : {t id : Uuid} → Step o (held t) undo id clear
  undo_review : {t id : Uuid} → Step o (reviewed t) undo id clear

abbrev pub next_overlay : ControlCommand → Uuid → Overlay
next_overlay pause id = held id
next_overlay record_demo_review id = reviewed id
next_overlay _ id = clear

abbrev pub action_of : ControlCommand → ControlAction
action_of pause = case_paused
action_of resume = case_resumed
action_of record_demo_review = demo_review_recorded
action_of undo = control_compensated

abbrev pub HasDisposition : ControlCommand → Option DemoDisposition → Type 0
HasDisposition record_demo_review none = ⊥
HasDisposition _ _ = Unit

-- The guard accepts only what the machine can do.
pub plan-Step :
    (o : DecisionOutcome) (v : Overlay) (c : ControlCommand) (id : Uuid) (reason : String)
    (d : Option DemoDisposition) {e : PlannedControlEvent}
    → plan_control_command (projection_of o v) c reason d ≡ ok e
    → Step o v c id (next_overlay c id)
unfolding plan_control_command base_control_state
plan-Step o clear pause id reason d h = pause_case (ground arith)
plan-Step o clear record_demo_review id reason d h = review_case (ground arith)
plan-Step o clear resume id reason d h = absurd (ground arith)
plan-Step o clear undo id reason d h = absurd (ground arith)
plan-Step o (held t) pause id reason d h = absurd (ground arith)
plan-Step o (held t) resume id reason d h = resume_case
plan-Step o (held t) record_demo_review id reason d h = absurd (ground arith)
plan-Step o (held t) undo id reason d h = undo_pause
plan-Step o (reviewed t) undo id reason d h = undo_review
plan-Step o (reviewed t) c id reason d h = absurd (ground arith)

pub plan-action :
    (o : DecisionOutcome) (v : Overlay) (c : ControlCommand) (reason : String)
    (d : Option DemoDisposition) {e : PlannedControlEvent}
    → plan_control_command (projection_of o v) c reason d ≡ ok e
    → e.action ≡ action_of c
unfolding plan_control_command base_control_state
plan-action o v pause reason d h = ground arith
plan-action o v resume reason d h = ground arith
plan-action o v record_demo_review reason d h = ground arith
plan-action o v undo reason d h = ground arith

-- The reducer's step follows the machine's.
pub Step-apply_action :
    {o : DecisionOutcome} {v w : Overlay} {c : ControlCommand} {id : Uuid}
    → Step o v c id w
    → apply_action id (projection_of o v) (action_of c) ≡ ok (projection_of o w)
unfolding apply_action base_control_state
Step-apply_action (pause_case ne) = refl
Step-apply_action resume_case = refl
Step-apply_action (review_case e) = refl
Step-apply_action undo_pause = refl
Step-apply_action undo_review = refl

abbrev pub Returns : (PlannedControlEvent → Type 0) → Result PlanError PlannedControlEvent → Type 0
Returns P (ok e) = P e
Returns P (err _) = ⊥

abbrev pub IsIllegal : ControlState → ControlCommand → Result PlanError PlannedControlEvent → Type 0
IsIllegal s c (err (illegal_control_transition s' c' _)) = (s' ≡ s) × (c' ≡ c)
IsIllegal s c _ = ⊥

pub plan_of_Step :
    {o : DecisionOutcome} {v w : Overlay} {c : ControlCommand} {id : Uuid} (reason : String)
    (d : Option DemoDisposition)
    → is_blank reason ≡ false
    → HasDisposition c d
    → Step o v c id w
    → Returns
        (λ e. apply_action id (projection_of o v) e.action ≡ ok (projection_of o w))
        (plan_control_command (projection_of o v) c reason d)
unfolding plan_control_command base_control_state apply_action
plan_of_Step {o} reason d solid given (pause_case ne) = rw solid (ground arith)
plan_of_Step {o} reason d solid given resume_case = rw solid (ground arith)
plan_of_Step {o} reason (some d) solid given (review_case e) = rw solid (ground arith)
plan_of_Step {o} reason none solid given (review_case e) = absurd given
plan_of_Step {o} reason d solid given undo_pause = rw solid (ground arith)
plan_of_Step {o} reason d solid given undo_review = rw solid (ground arith)

IsIllegal-unless_Step :
    (o : DecisionOutcome) (v : Overlay) (c : ControlCommand) (id : Uuid) (reason : String)
    (d : Option DemoDisposition)
    → is_blank reason ≡ false
    → HasDisposition c d
    → ¬ Step o v c id (next_overlay c id)
    → IsIllegal (projection_of o v).state c (plan_control_command (projection_of o v) c reason d)
unfolding plan_control_command base_control_state
IsIllegal-unless_Step DecisionOutcome.auto_approved clear pause id reason d solid given no_step =
    ground arith
IsIllegal-unless_Step o clear pause id reason d solid given no_step =
    absurd (no_step (pause_case (cc)))
IsIllegal-unless_Step DecisionOutcome.auto_approved clear record_demo_review id reason d solid given
      no_step =
    ground arith
IsIllegal-unless_Step DecisionOutcome.missing_fact clear record_demo_review id reason d solid given
      no_step =
    ground arith
IsIllegal-unless_Step o clear record_demo_review id reason d solid given no_step =
    absurd (no_step (review_case refl))
IsIllegal-unless_Step o clear resume id reason d solid given no_step = ground arith
IsIllegal-unless_Step o clear undo id reason d solid given no_step = ground arith
IsIllegal-unless_Step o (held t) pause id reason d solid given no_step = ground arith
IsIllegal-unless_Step o (held t) resume id reason d solid given no_step =
    absurd (no_step resume_case)
IsIllegal-unless_Step o (held t) record_demo_review id reason d solid given no_step = ground arith
IsIllegal-unless_Step o (held t) undo id reason d solid given no_step = absurd (no_step undo_pause)
IsIllegal-unless_Step o (reviewed t) undo id reason d solid given no_step =
    absurd (no_step undo_review)
IsIllegal-unless_Step o (reviewed t) c id reason d solid given no_step = ground arith

-- For a case in the machine's state `v`, a command with a non-blank reason, and with a disposition
-- if it is a review: either the machine has that transition, the guard returns an event, and the
-- event's action takes the projection of `v` to the projection of the machine's next state; or the
-- machine has no such transition, and the guard raises `IllegalControlTransition` for that state and
-- command.
pub plan_refines_deck :
    (o : DecisionOutcome) (v : Overlay) (c : ControlCommand) (id : Uuid) (reason : String)
    (d : Option DemoDisposition)
    → is_blank reason ≡ false
    → HasDisposition c d
    → (Step o v c id (next_overlay c id)
        × Returns
            (λ e.
              apply_action id (projection_of o v) e.action
              ≡ ok (projection_of o (next_overlay c id)))
            (plan_control_command (projection_of o v) c reason d))
      ⊎ (¬ Step o v c id (next_overlay c id)
          × IsIllegal
              (projection_of o v).state
              c
              (plan_control_command (projection_of o v) c reason d))
plan_refines_deck o v c id reason d solid given =
    elim (Result-cases (plan_control_command (projection_of o v) c reason d)) [
      | inl (e, plans) ↦
          let step = plan-Step o v c id reason d plans in
          inl (step, plan_of_Step reason d solid given step)
      | inr (x, fails) ↦
          let no_step : ¬ Step o v c id (next_overlay c id) =
            λ step. subst (Returns _) fails (plan_of_Step reason d solid given step) in
          inr (no_step, IsIllegal-unless_Step o v c id reason d solid given no_step)
    ]
