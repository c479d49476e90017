-- ===== src/Domain/Control/Reduce.antt =====
-- `reduce_control_state`: the replay of a stored event chain.
use organization_ai.Base.{Option, none, some, List, [], ◌∷◌, ◌++◌, drop_last, ◌≡◌, refl}
use organization_ai.Base.Json.{Uuid}
use organization_ai.Base.Result.{PyError, value_error, Result, ok, err, ◌>>=◌}
use organization_ai.Base.Sort.{sort_by}
use organization_ai.Domain.Enums.{DecisionOutcome}
use organization_ai.Domain.Control.Vocabulary.{
  ControlState, paused, demo_reviewed, ControlAction, case_paused, case_resumed,
  demo_review_recorded, control_compensated, StoredAuditEvent, ActiveControlEvent,
  ControlProjection, latest_reversible, as_control_action, base_control_state,
}

-- The local variables `state` and `active` of the loop are a projection.
unfoldable pub push_active :
    Uuid → ControlAction → ControlState → ControlProjection → ControlProjection
push_active event_id action next p = record {
  state = next;
  active = p.active ++ record { event_id = event_id; action = action; prior_state = p.state } ∷ [];
}

-- `state = active[-1].prior_state; active.pop()`
unfoldable pub pop_active : ActiveControlEvent → ControlProjection → ControlProjection
pop_active latest p = record { state = latest.prior_state; active = drop_last p.active }

unfoldable pub resume_active :
    Option ActiveControlEvent → ControlProjection → Result PyError ControlProjection
unfolding pop_active
resume_active none p =
    err (value_error "stored trace has CASE_RESUMED with no active pause to restore")
resume_active (some latest) p = elim latest.action [
  | case_paused ↦ ok (pop_active latest p)
  | _ ↦ err (value_error "stored trace has CASE_RESUMED with no active pause to restore")
]

unfoldable pub compensate_active :
    Option ActiveControlEvent → ControlProjection → Result PyError ControlProjection
unfolding pop_active
compensate_active none p =
    err (value_error "stored trace has CONTROL_COMPENSATED with no active control event")
compensate_active (some latest) p = ok (pop_active latest p)

unfoldable pub apply_action :
    Uuid → ControlProjection → ControlAction → Result PyError ControlProjection
unfolding push_active resume_active compensate_active latest_reversible
apply_action event_id p case_paused = ok (push_active event_id case_paused paused p)
apply_action event_id p demo_review_recorded =
    ok (push_active event_id demo_review_recorded demo_reviewed p)
apply_action event_id p case_resumed = resume_active (latest_reversible p) p
apply_action event_id p control_compensated = compensate_active (latest_reversible p) p

-- one round of the loop; an action outside the control vocabulary is skipped
unfoldable pub reduce_event :
    ControlProjection → StoredAuditEvent → Result PyError ControlProjection
reduce_event p event = elim (as_control_action event.action) [
  | none ↦ ok p
  | some action ↦ apply_action event.event_id p action
]

unfoldable pub reduce_events :
    ControlProjection → List StoredAuditEvent → Result PyError ControlProjection
reduce_events p [] = ok p
reduce_events p (event ∷ events) = do next ← reduce_event p event; reduce_events next events

abbrev pub initial_projection : DecisionOutcome → ControlProjection
initial_projection outcome = record { state = base_control_state outcome; active = [] }

unfoldable pub reduce_control_state :
    DecisionOutcome → List StoredAuditEvent → Result PyError ControlProjection
reduce_control_state outcome events =
    reduce_events (initial_projection outcome) (sort_by (λ event. event.sequence_number) events)

unfoldable pub derive_control_state :
    DecisionOutcome → List StoredAuditEvent → Result PyError ControlState
unfolding reduce_control_state
derive_control_state outcome events = do
  projection ← reduce_control_state outcome events
  ok projection.state

pub reduce_events-append :
    (p : ControlProjection) (xs ys : List StoredAuditEvent)
    → reduce_events p (xs ++ ys) ≡ (reduce_events p xs >>= λ q. reduce_events q ys)
unfolding reduce_events
reduce_events-append p [] ys = refl
reduce_events-append p (x ∷ xs) ys =
    bind_step (reduce_event p x) (λ q. reduce_events-append q xs ys)
  where
    bind_step :
        (r : Result PyError ControlProjection)
        → ((q : ControlProjection)
            → reduce_events q (xs ++ ys) ≡ (reduce_events q xs >>= λ q'. reduce_events q' ys))
        → (r >>= λ q. reduce_events q (xs ++ ys))
          ≡ ((r >>= λ q. reduce_events q xs) >>= λ q. reduce_events q ys)
    bind_step (ok q) ih = ih q
    bind_step (err e) ih = refl
