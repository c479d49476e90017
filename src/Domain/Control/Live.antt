-- ===== src/Domain/Control/Live.antt =====
-- What can still be done with a case under backend/app/domain/control.py, whatever was done before.
use organization_ai.Base.{
  ◌+◌, ◌≤◌, ◌<◌, String, false, none, List, [], ◌∷◌, ◌++◌, append-[], length, All, ◌≡◌, ◌≢◌, refl,
  sym, ap, ◌∙◌, subst, arith, Option, ◌⊎◌, inl, inr,
}
use organization_ai.Base.Json.{Uuid}
use organization_ai.Base.Query.{max_by, max_by-bounds}
use organization_ai.Base.Text.{is_blank}
use organization_ai.Base.Result.{Result, ok, err, ok-injective, Result-cases}
use organization_ai.Domain.Enums.{DecisionOutcome}
use organization_ai.Domain.Control.Vocabulary.{
  ControlCommand, pause, undo, DemoDisposition, StoredAuditEvent, ControlProjection,
  PlannedControlEvent, action_value, base_control_state,
}
use organization_ai.Domain.Control.Reduce.{reduce_control_state}
use organization_ai.Domain.Control.Plan.{PlanError, plan_control_command}
use organization_ai.Domain.Control.Deck.{
  Overlay, clear, held, reviewed, projection_of, next_overlay, Step, pause_case, review_case,
  undo_pause, undo_review, plan-Step, HasDisposition, Returns, plan_of_Step,
}
use organization_ai.Domain.Control.History.{
  sequence, History, received, recorded, History-IsAscending, History-replays, reduce-system,
  reduce-recorded,
}

-- The event that records a plan behind a chain.
abbrev pub next_event : List StoredAuditEvent → Uuid → PlannedControlEvent → StoredAuditEvent
next_event es id planned = record {
  event_id = id;
  sequence_number = max_by sequence es + 1;
  action = action_value planned.action;
  payload = planned.payload;
}

next_event_above :
    (es : List StoredAuditEvent) (id : Uuid) (planned : PlannedControlEvent)
    → All
        (λ (e : StoredAuditEvent). e.sequence_number < (next_event es id planned).sequence_number)
        es
next_event_above es id planned = max_by-bounds sequence es _ (omega arith)

Returns-ok :
    (P : PlannedControlEvent → Type 0) (r : Result PlanError PlannedControlEvent)
    → Returns P r
    → (e : PlannedControlEvent) × (r ≡ ok e)
Returns-ok P (ok e) h = (e, refl)
Returns-ok P (err x) h = absurd h

-- The guard plans the command on the chain, and the chain with the event recorded is in the machine's
-- next state.
abbrev pub Accepts :
    DecisionOutcome → List StoredAuditEvent → ControlCommand → String → Uuid → Type 0
Accepts o es c reason id =
    (p : ControlProjection) × (planned : PlannedControlEvent) × (reduce_control_state o es ≡ ok p)
    × (plan_control_command p c reason none ≡ ok planned)
    × History o (es ++ next_event es id planned ∷ [])
    × (reduce_control_state o (es ++ next_event es id planned ∷ [])
        ≡ ok (projection_of o (next_overlay c id)))

module _ (o : DecisionOutcome) (es : List StoredAuditEvent) (history : History o es) (id : Uuid)
    (reason : String) (solid : is_blank reason ≡ false) where
  Accepts-Step :
      (v w : Overlay) (c : ControlCommand)
      → reduce_control_state o es ≡ ok (projection_of o v)
      → HasDisposition c none
      → Step o v c id w
      → Accepts o es c reason id
  Accepts-Step v w c now given step =
      let (planned, plans) = Returns-ok _ _ (plan_of_Step reason none solid given step) in
      let e = next_event es id planned in
      (
        projection_of o v,
        planned,
        now,
        plans,
        recorded e c reason none planned history now plans refl (next_event_above es id planned),
        reduce-recorded o es e v c reason none (History-IsAscending history) now plans refl
            (next_event_above es id planned),
      )

  -- A case that was not approved automatically, whatever commands its chain has recorded: it accepts a
  -- pause, or an undo that leads back to the state that its decision left. No case is stuck.
  pub deck_progress :
      o ≢ DecisionOutcome.auto_approved → Accepts o es pause reason id ⊎ Accepts o es undo reason id
  deck_progress open_case = let (v, now) = History-replays history in go v now
    where
      go :
          (v : Overlay)
          → reduce_control_state o es ≡ ok (projection_of o v)
          → Accepts o es pause reason id ⊎ Accepts o es undo reason id
      go clear now = inl (Accepts-Step clear (held id) pause now tt (pause_case open_case))
      go (held t) now = inr (Accepts-Step (held t) clear undo now tt undo_pause)
      go (reviewed t) now = inr (Accepts-Step (reviewed t) clear undo now tt undo_review)

  -- A case, whatever commands its chain has recorded: with at most one more event the chain replays to the
  -- state that its decision left, with no active event.
  pub deck_returns :
      (rest : List StoredAuditEvent) × (length rest ≤ 1)
      × History o (es ++ rest)
      × (reduce_control_state o (es ++ rest) ≡ ok (projection_of o clear))
  deck_returns = let (v, now) = History-replays history in go v now
    where
      go :
          (v : Overlay)
          → reduce_control_state o es ≡ ok (projection_of o v)
          → (rest : List StoredAuditEvent) × (length rest ≤ 1)
            × History o (es ++ rest)
            × (reduce_control_state o (es ++ rest) ≡ ok (projection_of o clear))
      go clear now = (
        [],
        omega arith,
        subst (History o) (sym (append-[] es)) history,
        ap (reduce_control_state o) (append-[] es) ∙ now,
      )
      go (held t) now =
          let (p, planned, at, plans, longer, back) =
            Accepts-Step (held t) clear undo now tt undo_pause in
          (next_event es id planned ∷ [], omega arith, longer, back)
      go (reviewed t) now =
          let (p, planned, at, plans, longer, back) =
            Accepts-Step (reviewed t) clear undo now tt undo_review in
          (next_event es id planned ∷ [], omega arith, longer, back)

no-Step_auto_approved :
    {c : ControlCommand} {id : Uuid} {w : Overlay}
    → ¬ Step DecisionOutcome.auto_approved clear c id w
unfolding base_control_state
no-Step_auto_approved (pause_case ne) = ne refl
no-Step_auto_approved (review_case e) = absurd (cc)

refuses_auto_approved :
    (c : ControlCommand) (reason : String) (d : Option DemoDisposition)
    → (x : PlanError) × (plan_control_command
          (projection_of DecisionOutcome.auto_approved clear)
          c
          reason
          d
        ≡ err x)
refuses_auto_approved c reason d =
    elim (Result-cases
      (plan_control_command (projection_of DecisionOutcome.auto_approved clear) c reason d)) [
        | inl (e, plans) ↦ absurd (
            no-Step_auto_approved
              (plan-Step DecisionOutcome.auto_approved clear c 0 reason d plans))
        | inr raised ↦ raised
      ]

-- A case that was approved automatically stays as its decision left it: its chain replays to that state
-- with no active event, and every command on it is refused, whatever its reason and disposition.
pub auto_approved_final :
    (es : List StoredAuditEvent) (c : ControlCommand) (reason : String) (d : Option DemoDisposition)
    → History DecisionOutcome.auto_approved es
    → (reduce_control_state DecisionOutcome.auto_approved es
        ≡ ok (projection_of DecisionOutcome.auto_approved clear))
      × ((x : PlanError) × (plan_control_command
              (projection_of DecisionOutcome.auto_approved clear)
              c
              reason
              d
            ≡ err x))
auto_approved_final _ c reason d (received es system ascending) = (
  reduce-system DecisionOutcome.auto_approved es system ascending,
  refuses_auto_approved c reason d,
)
auto_approved_final _ c reason d
      (recorded {es} {p} event c' reason' d' planned h replays plans action above) =
    let (now, refused) = auto_approved_final es c' reason' d' h in
    let (x, raised) = refused in
    let at : p ≡ projection_of DecisionOutcome.auto_approved clear =
      ok-injective (sym replays ∙ now) in
    let plans_at : plan_control_command (projection_of DecisionOutcome.auto_approved clear) c'
          reason' d'
        ≡ ok planned =
      rw (← at) plans in
    absurd (cc)
