-- ===== src/Domain/Control/History.antt =====
-- The event chains that the service builds: system events, then one planned control event at a time.
use organization_ai.Base.{
  ℕ, ◌<◌, String, Option, none, List, [], ◌∷◌, ◌++◌, All, ◌≡◌, refl, sym, ◌∙◌, arith, ap, fun_ext,
}
use organization_ai.Base.Result.{PyError, Result, ok, ◌>>=◌, bind-ok, ok-injective}
use organization_ai.Base.Sort.{IsAscending, sort_by-IsAscending, IsAscending-append}
use organization_ai.Domain.Enums.{DecisionOutcome}
use organization_ai.Domain.Control.Vocabulary.{
  ControlAction, ControlCommand, DemoDisposition, StoredAuditEvent, ControlProjection,
  PlannedControlEvent, action_value, as_control_action, as_control_action-value,
}
use organization_ai.Domain.Control.Reduce.{
  initial_projection, apply_action, reduce_event, reduce_events, reduce_control_state,
  reduce_events-append,
}
use organization_ai.Domain.Control.Plan.{plan_control_command}
use organization_ai.Domain.Control.Deck.{
  Overlay, clear, projection_of, next_overlay, plan-Step, plan-action, Step-apply_action,
}

abbrev pub sequence : StoredAuditEvent → ℕ
sequence event = event.sequence_number

abbrev pub IsSystem : StoredAuditEvent → Type 0
IsSystem event = as_control_action event.action ≡ none

-- A chain of one decision: events with no control action, their numbers ascending, and behind them
-- events that the guard planned on the chain as it was, each numbered above all before it.
pub data History (o : DecisionOutcome) : List StoredAuditEvent → Type 0 where
  received : (es : List StoredAuditEvent) → All IsSystem es → IsAscending sequence es → History o es
  recorded :
      {es : List StoredAuditEvent} {p : ControlProjection} (event : StoredAuditEvent)
      (c : ControlCommand) (reason : String) (d : Option DemoDisposition)
      (planned : PlannedControlEvent)
      → History o es
      → reduce_control_state o es ≡ ok p
      → plan_control_command p c reason d ≡ ok planned
      → event.action ≡ action_value planned.action
      → All (λ e. e.sequence_number < event.sequence_number) es
      → History o (es ++ event ∷ [])

pub History-IsAscending :
    {o : DecisionOutcome} {es : List StoredAuditEvent} → History o es → IsAscending sequence es
History-IsAscending (received es system ascending) = ascending
History-IsAscending (recorded {es} event c reason d planned h replays plans action above) =
    IsAscending-append sequence es event (History-IsAscending h) above

reduce_event_system :
    (p : ControlProjection) (e : StoredAuditEvent) → IsSystem e → reduce_event p e ≡ ok p
unfolding reduce_event
reduce_event_system p e h = rw (h, reduce_event)

reduce_event_control :
    (p : ControlProjection) (e : StoredAuditEvent) (a : ControlAction)
    → e.action ≡ action_value a
    → reduce_event p e ≡ apply_action e.event_id p a
unfolding reduce_event
reduce_event_control p e a h = ground (arith, h, as_control_action-value a)

-- Events with no control action change nothing.
pub reduce_events-IsSystem :
    (p : ControlProjection) (es : List StoredAuditEvent)
    → All IsSystem es
    → reduce_events p es ≡ ok p
unfolding reduce_events
reduce_events-IsSystem p [] h = refl
reduce_events-IsSystem p (e ∷ es) h =
    rw (reduce_event_system p e h.0) (reduce_events-IsSystem p es h.1)

-- One more event at the end is one more step.
pub reduce-append :
    (o : DecisionOutcome) (es : List StoredAuditEvent) (event : StoredAuditEvent)
    → IsAscending sequence es
    → All (λ e. e.sequence_number < event.sequence_number) es
    → reduce_control_state o (es ++ event ∷ [])
      ≡ (reduce_control_state o es >>= λ p. reduce_event p event)
unfolding reduce_control_state reduce_events
reduce-append o es event ascending above =
    rw
      (
        sort_by-IsAscending sequence (es ++ event ∷ [])
            (IsAscending-append sequence es event ascending above),
        sort_by-IsAscending sequence es ascending,
        reduce_events-append (initial_projection o) es (event ∷ []),
      )
      (ap
        (λ (k : ControlProjection → Result PyError ControlProjection).
          reduce_events (initial_projection o) es >>= k)
        (fun_ext λ q. bind-ok (reduce_event q event)))

pub reduce-system :
    (o : DecisionOutcome) (es : List StoredAuditEvent)
    → All IsSystem es
    → IsAscending sequence es
    → reduce_control_state o es ≡ ok (projection_of o clear)
unfolding reduce_control_state
reduce-system o es system ascending =
    rw (sort_by-IsAscending sequence es ascending)
      (reduce_events-IsSystem (initial_projection o) es system)

-- A chain that stands for `v` stands for the machine's next state after a planned event.
pub reduce-recorded :
    (o : DecisionOutcome) (es : List StoredAuditEvent) (event : StoredAuditEvent) (v : Overlay)
    (c : ControlCommand) (reason : String) (d : Option DemoDisposition)
    {planned : PlannedControlEvent}
    → IsAscending sequence es
    → reduce_control_state o es ≡ ok (projection_of o v)
    → plan_control_command (projection_of o v) c reason d ≡ ok planned
    → event.action ≡ action_value planned.action
    → All (λ e. e.sequence_number < event.sequence_number) es
    → reduce_control_state o (es ++ event ∷ [])
      ≡ ok (projection_of o (next_overlay c event.event_id))
reduce-recorded o es event v c reason d {planned} ascending now plans action above =
    rw (reduce-append o es event ascending above, now)
      (reduce_event_control (projection_of o v) event planned.action action
        ∙ ap (apply_action event.event_id (projection_of o v)) (plan-action o v c reason d plans)
        ∙ Step-apply_action (plan-Step o v c event.event_id reason d plans))

-- Every chain that the service can build replays without a raise, to the decision's base state
-- with no active control event, or with exactly one active pause or review on top of it.
pub History-replays :
    {o : DecisionOutcome} {es : List StoredAuditEvent}
    → History o es
    → (v : Overlay) × (reduce_control_state o es ≡ ok (projection_of o v))
History-replays {o} (received es system ascending) = (clear, reduce-system o es system ascending)
History-replays {o} (recorded {es} {p} event c reason d planned h replays plans action above) =
    let (v, now) = History-replays h in
    let at_v : p ≡ projection_of o v = ok-injective (sym replays ∙ now) in
    let plans_at_v : plan_control_command (projection_of o v) c reason d ≡ ok planned =
      rw (← at_v) plans in
    (
      next_overlay c event.event_id,
      reduce-recorded o es event v c reason d (History-IsAscending h) now plans_at_v action above,
    )
