-- ===== src/Application/ControlDeck/Expected.antt =====
-- The exceptions that backend/app/application/control_deck.py is meant to raise, and the replay of a
-- receipt and the choice of an event, which raise no other.
use organization_ai.Base.{
  ℕ, true, false, List, [], ◌∷◌, map, leb, ◌≡◌, ◌⊎◌, refl, ap, sym, subst, Bool-cases, inl, inr,
  if◌then◌else◌, Bool, String, Option, none, some,
}
use organization_ai.Base.Query.{select}
use organization_ai.Base.Text.{is_blank}
use organization_ai.Base.Result.{PyError, Result, ok, err, err-injective}
use organization_ai.Domain.Control.Vocabulary.{
  ControlProjection, PlannedControlEvent, StoredAuditEvent,
}
use organization_ai.Domain.Control.Plan.{PlanError, plan_control_command}
use organization_ai.Domain.Control.Deck.{
  HasDisposition, projection_of, Returns, IsIllegal, plan_refines_deck,
}
use organization_ai.Domain.Control.History.{History, History-replays}
use organization_ai.Domain.Control.Prefix.{up_to, History-up_to}
use organization_ai.Persistence.Rows.{EventRow, StoredTrace}
use organization_ai.Persistence.Engine.{
  Constraint, event_idempotency, constraint_name, IntegrityError,
}
use organization_ai.Application.Views.{
  TraceReadModel, ServiceError, trace_already_recorded, python_error, integrity_error, stored_event,
  to_trace_model, lift,
}
use organization_ai.Application.Sound.{IsReplayable, to_trace_model-Shows}
use organization_ai.Application.ControlDeck.{
  ControlRequest, to_idempotency_result, lift_plan, plan_on,
}

-- The error names a constraint, and not the unique index on the keys if a key was given.
abbrev pub IsOtherRefusal : Option String → IntegrityError → Type 0
IsOtherRefusal none e = (k : Constraint) × (e.diag_constraint_name ≡ constraint_name k)
IsOtherRefusal (some key) e =
    (k : Constraint) × (e.diag_constraint_name ≡ constraint_name k) × (k ≡ event_idempotency → ⊥)

-- A view, or one of the exceptions that a control with this key is meant to raise: the trace is not
-- found, the command is illegal, the key has another intent, or the database refuses the event for
-- another reason than the key.
abbrev pub IsAnswer : Option String → Result ServiceError TraceReadModel → Type 0
IsAnswer key (ok view) = Unit
IsAnswer key (err (trace_already_recorded _)) = ⊥
IsAnswer key (err (python_error _)) = ⊥
IsAnswer key (err (integrity_error e)) = IsOtherRefusal key e
IsAnswer key (err _) = Unit

map-select :
    (n : ℕ) (es : List EventRow)
    → map stored_event (select (λ (row : EventRow). leb row.sequence_number n) es)
      ≡ up_to n (map stored_event es)
unfolding select
map-select n [] = refl
map-select n (e ∷ es) = elim (Bool-cases (leb e.sequence_number n)) [
  | inl kept ↦ rw (kept) (ap (λ (l : List StoredAuditEvent). stored_event e ∷ l) (map-select n es))
  | inr left ↦ rw (left) (map-select n es)
]

-- The trace as it was up to a number.
abbrev trace_up_to : ℕ → StoredTrace → StoredTrace
trace_up_to n stored = record {
  case_row = stored.case_row;
  decision = stored.decision;
  events = select (λ (row : EventRow). leb row.sequence_number n) stored.events;
}

IsReplayable-trace_up_to :
    (n : ℕ) (stored : StoredTrace) → IsReplayable stored → IsReplayable (trace_up_to n stored)
IsReplayable-trace_up_to n stored r = record {
  decision = r.decision;
  outcome = r.outcome;
  has_decision = r.has_decision;
  has_outcome = r.has_outcome;
  history =
      subst (History r.outcome) (sym (map-select n stored.events)) (History-up_to n r.history);
}

pub to_idempotency_result-IsAnswer :
    (key : Option String) (stored : StoredTrace) (receipt : EventRow)
    → IsReplayable stored
    → IsAnswer key (lift (to_idempotency_result stored receipt))
unfolding to_idempotency_result to_trace_model
to_idempotency_result-IsAnswer key stored receipt r =
    let (view, shown, shows) =
      to_trace_model-Shows (trace_up_to receipt.sequence_number stored)
        (IsReplayable-trace_up_to receipt.sequence_number stored r) in
    subst (λ (m : Result PyError TraceReadModel). IsAnswer key (lift m)) (sym shown) tt

pub IsAnswer-by :
    (key : Option String) {x y : Result ServiceError TraceReadModel}
    → x ≡ y
    → IsAnswer key y
    → IsAnswer key x
IsAnswer-by key same h = subst (IsAnswer key) (sym same) h

pub IsAnswer-if :
    (key : Option String) (b : Bool) (x y : Result ServiceError TraceReadModel)
    → IsAnswer key x
    → IsAnswer key y
    → IsAnswer key (if b then x else y)
IsAnswer-if key true x y hx hy = hx
IsAnswer-if key false x y hx hy = hy

lift_plan-IsAnswer :
    (rq : ControlRequest) (p : ControlProjection) (r : Result PlanError PlannedControlEvent)
    {e : ServiceError}
    → (Returns (λ _. Unit {0}) r ⊎ IsIllegal p.state rq.command r)
    → lift_plan rq.trace_id p rq.command r ≡ err e
    → IsAnswer rq.idempotency_key (err e)
unfolding lift_plan
lift_plan-IsAnswer rq p (ok planned) {e} h fails = absurd (cc)
lift_plan-IsAnswer rq p (err (PlanError.illegal_control_transition _ _ detail)) {e} h fails =
    subst (λ (x : ServiceError). IsAnswer rq.idempotency_key (err x)) (err-injective fails) tt
lift_plan-IsAnswer rq p (err (PlanError.value_error message)) {e} (inl h) fails = absurd h
lift_plan-IsAnswer rq p (err (PlanError.value_error message)) {e} (inr h) fails = absurd h

Returns-any :
    (P : PlannedControlEvent → Type 0) (r : Result PlanError PlannedControlEvent)
    → Returns P r
    → Returns (λ _. Unit {0}) r
Returns-any P (ok planned) h = tt
Returns-any P (err e) h = h

module _ (rq : ControlRequest) (solid : is_blank rq.reason ≡ false)
    (given : HasDisposition rq.command rq.disposition) where
  pub plan_on-IsAnswer :
      (stored : StoredTrace) (r : IsReplayable stored) {e : ServiceError}
      → plan_on rq stored r.decision ≡ err e
      → IsAnswer rq.idempotency_key (err e)
  unfolding plan_on
  plan_on-IsAnswer stored r {e} h =
      let (v, replays) = History-replays r.history in
      let plan =
        plan_control_command (projection_of r.outcome v) rq.command rq.reason rq.disposition in
      let fails : lift_plan rq.trace_id (projection_of r.outcome v) rq.command plan ≡ err e =
        rw (r.has_outcome, replays) at h in
      lift_plan-IsAnswer rq (projection_of r.outcome v) plan
        (elim (plan_refines_deck r.outcome v rq.command 0 rq.reason rq.disposition solid given) [
          | inl (step, returns) ↦ inl (Returns-any _ plan returns)
          | inr (no_step, illegal) ↦ inr illegal
        ])
        fails
