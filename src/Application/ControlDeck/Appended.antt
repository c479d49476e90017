-- ===== src/Application/ControlDeck/Appended.antt =====
-- The event that `submit_control` of backend/app/application/control_deck.py appends.
use organization_ai.Base.{
  ℕ, ◌<◌, String, List, [], ◌∷◌, ◌++◌, map, All, ◌≡◌, refl, sym, ap, subst, arith,
}
use organization_ai.Base.Json.{Uuid}
use organization_ai.Base.Query.{max_by-bounds}
use organization_ai.Base.Sort.{sort_by-IsAscending}
use organization_ai.Base.Result.{Result, ok, err}
use organization_ai.Domain.Control.Vocabulary.{
  StoredAuditEvent, ControlProjection, PlannedControlEvent,
}
use organization_ai.Domain.Control.Reduce.{reduce_control_state}
use organization_ai.Domain.Control.Plan.{PlanError, plan_control_command}
use organization_ai.Domain.Control.Deck.{projection_of}
use organization_ai.Domain.Control.History.{History, recorded, History-replays}
use organization_ai.Persistence.Rows.{EventRow, StoredTrace}
use organization_ai.Application.Views.{row_sequence, stored_event}
use organization_ai.Application.Sound.{IsReplayable, IsReplayable-IsAscending}
use organization_ai.Application.History.{Effects}
use organization_ai.Application.ControlDeck.{ControlRequest, lift_plan, plan_on, control_event}

-- The trace with the event at the end of its events.
abbrev pub with_event : StoredTrace → EventRow → StoredTrace
with_event stored e = record {
  case_row = stored.case_row;
  decision = stored.decision;
  events = stored.events ++ e ∷ [];
}

map-snoc :
    (es : List EventRow) (e : EventRow)
    → map stored_event (es ++ e ∷ []) ≡ map stored_event es ++ stored_event e ∷ []
map-snoc [] e = refl
map-snoc (x ∷ es) e = ap (λ (l : List StoredAuditEvent). stored_event x ∷ l) (map-snoc es e)

All-stored :
    (n : ℕ) (es : List EventRow)
    → All (λ (e : EventRow). row_sequence e < n) es
    → All (λ (e : StoredAuditEvent). e.sequence_number < n) (map stored_event es)
All-stored n [] h = tt
All-stored n (e ∷ es) h = (h.0, All-stored n es h.1)

lift_plan-ok :
    (t : Uuid) (rq : ControlRequest) (p : ControlProjection)
    (r : Result PlanError PlannedControlEvent) {planned : PlannedControlEvent}
    → lift_plan t p rq.command r ≡ ok planned
    → r ≡ ok planned
unfolding lift_plan
lift_plan-ok t rq p (ok e) h = cc
lift_plan-ok t rq p (err (PlanError.illegal_control_transition _ _ detail)) h = absurd (cc)
lift_plan-ok t rq p (err (PlanError.value_error message)) h = absurd (cc)

module _ (rq : ControlRequest) (stored : StoredTrace) (r : IsReplayable stored) where
  -- A plan is made on the projection of the trace's events.
  pub plan_on-ok :
      {planned : PlannedControlEvent}
      → plan_on rq stored r.decision ≡ ok planned
      → (p : ControlProjection) × (reduce_control_state r.outcome (map stored_event stored.events)
          ≡ ok p)
        × (plan_control_command p rq.command rq.reason rq.disposition ≡ ok planned)
  unfolding plan_on
  plan_on-ok {planned} h =
      let (v, replays) = History-replays r.history in
      let plans : lift_plan rq.trace_id (projection_of r.outcome v) rq.command
            (plan_control_command (projection_of r.outcome v) rq.command rq.reason rq.disposition)
          ≡ ok planned =
        rw (r.has_outcome, replays) at h in
      (
        projection_of r.outcome v,
        replays,
        lift_plan-ok rq.trace_id rq (projection_of r.outcome v) _ plans,
      )

  module _ (fx : Effects) (fingerprint : String) (planned : PlannedControlEvent) where
    -- Its number is above all numbers of the trace.
    pub control_event_above :
        All
          (λ (row : EventRow).
            row.sequence_number < (control_event fx rq fingerprint stored planned).sequence_number)
          stored.events
    unfolding control_event
    control_event_above =
        rw (sort_by-IsAscending row_sequence stored.events (IsReplayable-IsAscending r))
          (max_by-bounds row_sequence stored.events _ (omega arith))

    pub IsReplayable-with_event :
        plan_on rq stored r.decision ≡ ok planned
        → IsReplayable (with_event stored (control_event fx rq fingerprint stored planned))
    unfolding control_event
    IsReplayable-with_event h =
        let (p, replays, plans) = plan_on-ok h in
        let e = control_event fx rq fingerprint stored planned in
        record {
          decision = r.decision;
          outcome = r.outcome;
          has_decision = r.has_decision;
          has_outcome = r.has_outcome;
          history = subst (History r.outcome) (sym (map-snoc stored.events e)) (
              recorded (stored_event e) rq.command rq.reason rq.disposition planned r.history
                replays plans refl
                (All-stored e.sequence_number stored.events control_event_above));
        }
