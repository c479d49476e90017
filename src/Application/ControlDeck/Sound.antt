-- ===== src/Application/ControlDeck/Sound.antt =====
-- `submit_control` of backend/app/application/control_deck.py keeps every stored trace replayable.
use organization_ai.Base.{
  ℕ, false, String, Option, some, List, ◌≡◌, ◌==◌, ==_iff, inl, inr, refl, ap, sym, ◌∙◌, subst,
  Bool-cases,
}
use organization_ai.Base.Json.{Uuid}
use organization_ai.Base.Query.{any}
use organization_ai.Base.Result.{Result, ok}
use organization_ai.Policy.Evaluator.{assert_present}
use organization_ai.Persistence.Rows.{DecisionRow, EventRow, Database, StoredTrace}
use organization_ai.Persistence.Repository.{find_trace, find_trace_for_update, add_control_event}
use organization_ai.Persistence.Untouched.{IsForeign, find_trace-untouched}
use organization_ai.Persistence.Appended.{find_trace-add_control_event}
use organization_ai.Persistence.Engine.{Engine}
use organization_ai.Application.Views.{TraceReadModel, ServiceError, lift}
use organization_ai.Application.Sound.{IsReplayable, IsSound}
use organization_ai.Application.History.{Effects}
use organization_ai.Application.ControlDeck.{
  ControlRequest, plan_on, control_event, control_locked, submit_control,
}
use organization_ai.Application.ControlDeck.Appended.{
  with_event, control_event_above, IsReplayable-with_event,
}
use organization_ai.Application.ControlDeck.Atomic.{
  fingerprint_of, Appends, WritesOneEvent, submit_control-WritesOneEvent,
}

pub IsForeign-add_control_event :
    (e : EventRow) (t : Uuid) → (e.trace_id == t) ≡ false → IsForeign (add_control_event e) t
unfolding add_control_event any
IsForeign-add_control_event e t other = record {
  cases = refl;
  decisions = refl;
  events = rw (other) refl;
}

pub decision_same :
    {stored : StoredTrace} {d : DecisionRow} (r : IsReplayable stored)
    → stored.decision ≡ some d
    → d ≡ r.decision
decision_same r h = cc (r.has_decision)

pub assert_present-some :
    {o : Option DecisionRow} {d : DecisionRow} → o ≡ some d → lift (assert_present o) ≡ ok d
unfolding assert_present
assert_present-some h = ap (λ (o : Option DecisionRow). lift (assert_present o)) h

pub submit_control-locked :
    (engine : Engine) (sha256 : List ℕ → String) (fx : Effects) (others : Database → Database)
    (rq : ControlRequest) (db : Database)
    → submit_control engine sha256 fx others rq db
      ≡ control_locked engine sha256 fx others rq
          (fingerprint_of sha256 rq)
          (find_trace db rq.trace_id)
          db
unfolding submit_control find_trace_for_update
submit_control-locked engine sha256 fx others rq db = refl

module _ (fx : Effects) (fingerprint : String) (rq : ControlRequest) (db others : Database)
    (r : Result ServiceError TraceReadModel × Database) (sound : IsSound db)
    (locked : find_trace others rq.trace_id ≡ find_trace db rq.trace_id)
    (a : Appends fx fingerprint rq db others r) where
  abbrev pub appended : EventRow
  appended = control_event fx rq fingerprint a.stored a.planned

  pub replayable : IsReplayable a.stored
  replayable = sound rq.trace_id a.stored a.found

  plans : plan_on rq a.stored replayable.decision ≡ ok a.planned
  plans =
      subst (λ (d : DecisionRow). plan_on rq a.stored d ≡ ok a.planned)
        (decision_same replayable a.has_decision) a.plans

  pub of_trace : appended.trace_id ≡ rq.trace_id
  unfolding control_event
  of_trace = refl

  -- The trace is found again with the event at its end.
  pub find_trace-appended : find_trace r.1 rq.trace_id ≡ some (with_event a.stored appended)
  find_trace-appended = rw (a.inserted) (
      find_trace-add_control_event others rq.trace_id a.stored appended (locked ∙ a.found) of_trace
        (control_event_above rq a.stored replayable fx fingerprint a.planned))

  pub IsReplayable_appended : IsReplayable (with_event a.stored appended)
  IsReplayable_appended =
      IsReplayable-with_event rq a.stored replayable fx fingerprint a.planned plans

  pub IsSound-appended : IsSound others → IsSound r.1
  IsSound-appended sound' t stored there = elim (Bool-cases (rq.trace_id == t)) [
    | inl same ↦
        let at : rq.trace_id ≡ t = (==_iff rq.trace_id t).0 same in
        subst IsReplayable (cc (find_trace-appended, at)) IsReplayable_appended
    | inr other ↦ sound' t stored (
        sym (
          ap (λ (tables : Database). find_trace tables t) a.inserted
          ∙ find_trace-untouched others (add_control_event appended) t
              (IsForeign-add_control_event appended t (rw (of_trace) other)))
        ∙ there)
  ]

IsSound-WritesOneEvent :
    (fx : Effects) (fingerprint : String) (rq : ControlRequest) (db others : Database)
    (r : Result ServiceError TraceReadModel × Database)
    → IsSound db
    → IsSound others
    → find_trace others rq.trace_id ≡ find_trace db rq.trace_id
    → WritesOneEvent fx fingerprint rq db others r
    → IsSound r.1
IsSound-WritesOneEvent fx fingerprint rq db others r sound sound' locked (inl a) =
    IsSound-appended fx fingerprint rq db others r sound locked a sound'
IsSound-WritesOneEvent fx fingerprint rq db others r sound sound' locked (inr (inl same)) =
    subst IsSound (sym same) sound
IsSound-WritesOneEvent fx fingerprint rq db others r sound sound' locked (inr (inr same)) =
    subst IsSound (sym same) sound'

-- If every trace of the tables could be replayed before the call, and every trace as other
-- transactions leave them, and these leave the locked trace as it is, then every trace can be
-- replayed after the call, whether it returns or raises.
pub submit_control-IsSound :
    (engine : Engine) (sha256 : List ℕ → String) (fx : Effects) (others : Database → Database)
    (rq : ControlRequest) (db : Database)
    → IsSound db
    → IsSound (others db)
    → find_trace (others db) rq.trace_id ≡ find_trace db rq.trace_id
    → IsSound (submit_control engine sha256 fx others rq db).1
submit_control-IsSound engine sha256 fx others rq db sound sound' locked =
    IsSound-WritesOneEvent fx (fingerprint_of sha256 rq) rq db (others db)
      (submit_control engine sha256 fx others rq db) sound sound' locked
      (submit_control-WritesOneEvent engine sha256 fx others rq db)
