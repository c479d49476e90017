-- ===== src/Examples/Control.antt =====
-- The Control Deck's theorems at concrete chains.
use mathlib.Core.List.{Permᴰ}
use organization_ai.Base.{◌≤◌, length, ◌⊎◌, none, false, List, [], ◌∷◌, ◌++◌, ◌≡◌, refl, arith}
use organization_ai.Base.Json.{str}
use organization_ai.Base.Sort.{sort_by}
use organization_ai.Base.Text.{is_blank}
use organization_ai.Base.Result.{ok, err}
use organization_ai.Domain.Enums.{out_of_policy, auto_approved}
use organization_ai.Domain.Control.Vocabulary.{
  ControlProjection, StoredAuditEvent, PlannedControlEvent, pause, resume, undo, case_paused,
  demo_reviewer, awaiting_review, action_value, state_value, as_control_action, base_control_state,
}
use organization_ai.Domain.Control.Reduce.{
  apply_action, reduce_events, reduce_event, reduce_control_state,
}
use organization_ai.Domain.Control.Plan.{PlanError, plan_control_command}
use organization_ai.Domain.Control.Deck.{
  Overlay, clear, held, Step, projection_of, Returns, IsIllegal, plan_refines_deck,
}
use organization_ai.Domain.Control.Reversal.{Restores, undo-Restores, resume-Restores}
use organization_ai.Domain.Control.Order.{reduce_control_state-Permᴰ}
use organization_ai.Domain.Control.Live.{Accepts, deck_progress, deck_returns, auto_approved_final}
use organization_ai.Base.Sort.Order.{IsDistinct}
use organization_ai.Domain.Control.History.{sequence, History, received, recorded, History-replays}

abbrev start : ControlProjection
start = projection_of out_of_policy clear

abbrev pause_plan : PlannedControlEvent
pause_plan = record {
  action = case_paused;
  actor = demo_reviewer;
  prior_state = awaiting_review;
  target_event_id = none;
  payload = ("reason", str "hold") ∷ ("prior_state", str "AWAITING_REVIEW") ∷ [];
}

abbrev on_hold : ControlProjection
on_hold = projection_of out_of_policy (held 4)

start_plans : plan_control_command start pause "hold" none ≡ ok pause_plan
unfolding plan_control_command is_blank base_control_state state_value
start_plans = refl

start_applies : apply_action 4 start case_paused ≡ ok on_hold
unfolding apply_action base_control_state
start_applies = refl

reason_solid : is_blank "hold" ≡ false
unfolding is_blank
reason_solid = refl

plan_refines_deck_example :
    (Step out_of_policy clear pause 4 (held 4)
      × Returns
          (λ e.
            apply_action 4 (projection_of out_of_policy clear) e.action
            ≡ ok (projection_of out_of_policy (held 4)))
          (plan_control_command (projection_of out_of_policy clear) pause "hold" none))
    ⊎ (¬ Step out_of_policy clear pause 4 (held 4)
        × IsIllegal
            (projection_of out_of_policy clear).state
            pause
            (plan_control_command (projection_of out_of_policy clear) pause "hold" none))
plan_refines_deck_example =
    plan_refines_deck out_of_policy clear pause 4 "hold" none reason_solid tt

undo-Restores_example :
    Returns (Restores start 4 5 on_hold) (plan_control_command on_hold undo "hold" none)
undo-Restores_example =
    undo-Restores start pause 4 5 "hold" "hold" none none tt start_plans start_applies reason_solid

resume-Restores_example :
    Returns (Restores start 4 5 on_hold) (plan_control_command on_hold resume "hold" none)
resume-Restores_example =
    resume-Restores start 4 5 "hold" "hold" none none start_plans start_applies reason_solid

abbrev system_events : List StoredAuditEvent
system_events =
    record { event_id = 1; sequence_number = 1; action = "CASE_RECEIVED"; payload = [] }
    ∷ record { event_id = 2; sequence_number = 2; action = "CASE_NORMALIZED"; payload = [] }
    ∷ record { event_id = 3; sequence_number = 3; action = "DECISION_RECORDED"; payload = [] }
    ∷ []

abbrev pause_event : StoredAuditEvent
pause_event = record {
  event_id = 4;
  sequence_number = 4;
  action = "CASE_PAUSED";
  payload = pause_plan.payload;
}

system-History : History out_of_policy system_events
unfolding as_control_action
system-History = received system_events (refl, (refl, (refl, tt))) (omega arith)

system_reduces : reduce_control_state out_of_policy system_events ≡ ok start
unfolding reduce_control_state reduce_events reduce_event sort_by as_control_action
system_reduces = refl

pause-History : History out_of_policy (system_events ++ pause_event ∷ [])
unfolding action_value
pause-History =
    recorded pause_event pause "hold" none pause_plan system-History system_reduces start_plans refl
      (omega arith)

History-replays_example :
    (v : Overlay) × (reduce_control_state out_of_policy (system_events ++ pause_event ∷ [])
      ≡ ok (projection_of out_of_policy v))
History-replays_example = History-replays pause-History

-- The pause comes before the event that it follows.
abbrev received_event : StoredAuditEvent
received_event = record {
  event_id = 1;
  sequence_number = 1;
  action = "CASE_RECEIVED";
  payload = [];
}

two_events-IsDistinct : IsDistinct sequence (received_event ∷ pause_event ∷ [])
two_events-IsDistinct = ((omega arith, tt), (tt, tt))

reduce_control_state-Permᴰ_example :
    reduce_control_state out_of_policy (received_event ∷ pause_event ∷ [])
    ≡ reduce_control_state out_of_policy (pause_event ∷ received_event ∷ [])
reduce_control_state-Permᴰ_example =
    reduce_control_state-Permᴰ out_of_policy (Permᴰ.swap refl refl) two_events-IsDistinct

deck_progress_example :
    Accepts out_of_policy (system_events ++ pause_event ∷ []) pause "hold" 5
    ⊎ Accepts out_of_policy (system_events ++ pause_event ∷ []) undo "hold" 5
deck_progress_example =
    deck_progress out_of_policy (system_events ++ pause_event ∷ []) pause-History 5 "hold"
      reason_solid (cc)

deck_returns_example :
    (rest : List StoredAuditEvent) × (length rest ≤ 1)
    × History out_of_policy ((system_events ++ pause_event ∷ []) ++ rest)
    × (reduce_control_state out_of_policy ((system_events ++ pause_event ∷ []) ++ rest) ≡ ok start)
deck_returns_example =
    deck_returns out_of_policy (system_events ++ pause_event ∷ []) pause-History 5 "hold"
      reason_solid

approved-History : History auto_approved system_events
unfolding as_control_action
approved-History = received system_events (refl, (refl, (refl, tt))) (omega arith)

auto_approved_final_example :
    (reduce_control_state auto_approved system_events ≡ ok (projection_of auto_approved clear))
    × ((x : PlanError) × (plan_control_command (projection_of auto_approved clear) pause "hold" none
          ≡ err x))
auto_approved_final_example = auto_approved_final system_events pause "hold" none approved-History
