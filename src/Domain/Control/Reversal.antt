-- ===== src/Domain/Control/Reversal.antt =====
-- Undoing and resuming in backend/app/domain/control.py, for any projection.
use organization_ai.Base.{
  String, false, Option, some, get_last?-append, drop_last-append, ◌≡◌, ap, refl, arith, List,
}
use organization_ai.Base.Json.{Uuid}
use organization_ai.Base.Text.{is_blank}
use organization_ai.Base.Result.{ok}
use organization_ai.Domain.Control.Vocabulary.{
  ControlState, paused, demo_reviewed, ControlCommand, pause, resume, record_demo_review, undo,
  ControlAction, case_paused, DemoDisposition, ActiveControlEvent, ControlProjection,
  PlannedControlEvent, latest_reversible,
}
use organization_ai.Domain.Control.Reduce.{push_active, pop_active, apply_action}
use organization_ai.Domain.Control.Plan.{plan_control_command}
use organization_ai.Domain.Control.Deck.{Returns}

-- The state that a reversible command leaves.
abbrev pub covered : ControlCommand → ControlState
covered pause = paused
covered _ = demo_reviewed

abbrev pub IsReversible : ControlCommand → Type 0
IsReversible pause = Unit
IsReversible record_demo_review = Unit
IsReversible _ = ⊥

-- What the guard makes of an undo right after an event `id` has been pushed on `p`.
abbrev pub Restores :
    ControlProjection → Uuid → Uuid → ControlProjection → PlannedControlEvent → Type 0
Restores p id id' q e =
    (e.target_event_id ≡ some id) × (e.prior_state ≡ p.state) × (apply_action id' q e.action ≡ ok p)

latest-push :
    (p : ControlProjection) (id : Uuid) (a : ControlAction) (s : ControlState)
    → latest_reversible (push_active id a s p)
      ≡ some (record { event_id = id; action = a; prior_state = p.state })
unfolding latest_reversible push_active
latest-push p id a s = get_last?-append p.active _

-- Popping the event that was pushed gives the projection back.
pop-push :
    (p : ControlProjection) (id : Uuid) (a : ControlAction) (s : ControlState)
    → pop_active
        (record { event_id = id; action = a; prior_state = p.state })
        (push_active id a s p)
      ≡ p
unfolding pop_active push_active
pop-push p id a s =
    ap (λ (l : List ActiveControlEvent). record { state = p.state; active = l })
      (drop_last-append p.active _)

undo_pushed :
    (p : ControlProjection) (id id' : Uuid) (a : ControlAction) (c : ControlCommand)
    (reason : String) (d : Option DemoDisposition)
    → IsReversible c
    → is_blank reason ≡ false
    → Returns
        (Restores p id id' (push_active id a (covered c) p))
        (plan_control_command (push_active id a (covered c) p) undo reason d)
unfolding plan_control_command apply_action
undo_pushed p id id' a pause reason d h solid =
    rw (solid, latest-push p id a paused) (refl, refl, rw (latest-push p id a paused, pop-push))
undo_pushed p id id' a record_demo_review reason d h solid =
    rw (solid, latest-push p id a demo_reviewed)
      (refl, refl, rw (latest-push p id a demo_reviewed, pop-push))
undo_pushed p id id' a resume reason d h solid = absurd h
undo_pushed p id id' a undo reason d h solid = absurd h

resume_pushed :
    (p : ControlProjection) (id id' : Uuid) (reason : String) (d : Option DemoDisposition)
    → is_blank reason ≡ false
    → Returns
        (Restores p id id' (push_active id case_paused paused p))
        (plan_control_command (push_active id case_paused paused p) resume reason d)
unfolding plan_control_command apply_action
resume_pushed p id id' reason d solid =
    rw (solid, latest-push p id case_paused paused)
      (refl, refl, rw (latest-push p id case_paused paused, pop-push))

planned_push :
    (p : ControlProjection) (c : ControlCommand) (id : Uuid) (reason : String)
    (d : Option DemoDisposition) {e : PlannedControlEvent} {q : ControlProjection}
    → IsReversible c
    → plan_control_command p c reason d ≡ ok e
    → apply_action id p e.action ≡ ok q
    → q ≡ push_active id e.action (covered c) p
unfolding plan_control_command apply_action
planned_push p pause id reason d h planned applied = ground arith
planned_push p record_demo_review id reason d h planned applied = ground arith
planned_push p resume id reason d h planned applied = absurd h
planned_push p undo id reason d h planned applied = absurd h

-- Whatever the projection `p`: if a pause or a demo review is planned in it and its event `id` is
-- applied, then an undo with a non-blank reason is planned next; it targets that event, records the
-- state of `p` as the prior state, and applying it gives back `p` whole, its stack included.
pub undo-Restores :
    (p : ControlProjection) (c : ControlCommand) (id id' : Uuid) (reason reason' : String)
    (d d' : Option DemoDisposition) {e : PlannedControlEvent} {q : ControlProjection}
    → IsReversible c
    → plan_control_command p c reason d ≡ ok e
    → apply_action id p e.action ≡ ok q
    → is_blank reason' ≡ false
    → Returns (Restores p id id' q) (plan_control_command q undo reason' d')
undo-Restores p c id id' reason reason' d d' {e} h planned applied solid =
    rw (planned_push p c id reason d h planned applied)
      (undo_pushed p id id' e.action c reason' d' h solid)

planned_pause :
    (p : ControlProjection) (reason : String) (d : Option DemoDisposition) {e : PlannedControlEvent}
    → plan_control_command p pause reason d ≡ ok e
    → e.action ≡ case_paused
unfolding plan_control_command
planned_pause p reason d h = ground arith

-- Whatever the projection `p`: if a pause is planned in it and its event `id` is applied, then a
-- resume with a non-blank reason is planned next; it targets that event, records the state of `p` as
-- the prior state, and applying it gives back `p` whole, its stack included.
pub resume-Restores :
    (p : ControlProjection) (id id' : Uuid) (reason reason' : String)
    (d d' : Option DemoDisposition) {e : PlannedControlEvent} {q : ControlProjection}
    → plan_control_command p pause reason d ≡ ok e
    → apply_action id p e.action ≡ ok q
    → is_blank reason' ≡ false
    → Returns (Restores p id id' q) (plan_control_command q resume reason' d')
resume-Restores p id id' reason reason' d d' {e} planned applied solid =
    rw (planned_push p pause id reason d tt planned applied, planned_pause p reason d planned)
      (resume_pushed p id id' reason' d' solid)
