-- ===== src/Application/History/Sound.antt =====
-- `submit_trace` of backend/app/application/temporary_history.py keeps every stored trace replayable.
use organization_ai.Base.{
  false, some, ◌≡◌, ◌==◌, ==_iff, inl, inr, refl, sym, ◌∙◌, subst, Bool-cases,
}
use organization_ai.Base.Json.{Uuid}
use organization_ai.Base.Query.{any}
use organization_ai.Base.Result.{Result, ok, err}
use organization_ai.Domain.Models.{CaseSubmission, NormalizedCase, DecisionDraft}
use organization_ai.Domain.Enums.{outcome_of-value}
use organization_ai.Persistence.Rows.{Database}
use organization_ai.Persistence.Repository.{insert_rows, add_trace}
use organization_ai.Persistence.Untouched.{IsForeign, find_trace-untouched}
use organization_ai.Persistence.Engine.{Engine}
use organization_ai.Persistence.Engine.Keys.{IsConsistent}
use organization_ai.Application.Views.{TraceReadModel, ServiceError}
use organization_ai.Application.Sound.{IsReplayable, IsSound}
use organization_ai.Application.History.{
  Effects, build_events, case_row, decision_row, trace_rows, submit_trace,
}
use organization_ai.Application.History.Atomic.{InsertsTrace, submit_trace-InsertsTrace}
use organization_ai.Application.History.Stored.{new_events, History-new, find_trace-new}

module _ (fx : Effects) (s : CaseSubmission) (n : NormalizedCase) (d : DecisionDraft) where
  IsReplayable-new : IsReplayable (record {
    case_row = case_row fx s n;
    decision = some (decision_row fx d);
    events = new_events fx s d;
  })
  unfolding decision_row
  IsReplayable-new = record {
    decision = decision_row fx d;
    outcome = d.outcome;
    has_decision = refl;
    has_outcome = outcome_of-value d.outcome;
    history = History-new fx s n d;
  }

  pub IsForeign-new : (t : Uuid) → (fx.new_id 0 == t) ≡ false → IsForeign (trace_rows fx s n d) t
  unfolding trace_rows add_trace case_row decision_row build_events any
  IsForeign-new t other = record {
    cases = rw (other) refl;
    decisions = rw (other) refl;
    events = rw (other) refl;
  }

  pub IsSound-insert_rows :
      (db : Database)
      → IsSound db
      → IsConsistent db
      → IsConsistent (insert_rows db (trace_rows fx s n d))
      → IsSound (insert_rows db (trace_rows fx s n d))
  IsSound-insert_rows db sound before after t stored found = elim (Bool-cases (fx.new_id 0 == t)) [
    | inl same ↦
        let at : fx.new_id 0 ≡ t = (==_iff (fx.new_id 0) t).0 same in
        subst IsReplayable (cc (find_trace-new fx s n d db before after, at)) IsReplayable-new
    | inr other ↦
        sound t stored
          (sym (find_trace-untouched db (trace_rows fx s n d) t (IsForeign-new t other)) ∙ found)
  ]

IsSound-InsertsTrace :
    (fx : Effects) (s : CaseSubmission) (db others : Database)
    (r : Result ServiceError TraceReadModel × Database)
    → IsSound db
    → IsSound others
    → IsConsistent others
    → InsertsTrace fx s db others r
    → IsSound r.1
IsSound-InsertsTrace fx s db others (ok view, tables) sound sound' consistent
      (n, d, normal, decided, inserted, kept) =
    subst IsSound (sym inserted) (IsSound-insert_rows fx s n d others sound' consistent kept)
IsSound-InsertsTrace fx s db others (err e, tables) sound sound' consistent (inl same) =
    subst IsSound (sym same) sound
IsSound-InsertsTrace fx s db others (err e, tables) sound sound' consistent (inr same) =
    subst IsSound (sym same) sound'

-- If every trace of the tables could be replayed before the call, and every trace as other
-- transactions leave them, without a violated constraint, then every trace can be replayed after it,
-- whether the call returns or raises.
pub submit_trace-IsSound :
    (engine : Engine) (fx : Effects) (others : Database → Database) (s : CaseSubmission)
    (db : Database)
    → IsSound db
    → IsSound (others db)
    → IsConsistent (others db)
    → IsSound (submit_trace engine fx others s db).1
submit_trace-IsSound engine fx others s db sound sound' consistent =
    IsSound-InsertsTrace fx s db (others db) (submit_trace engine fx others s db) sound sound'
      consistent (submit_trace-InsertsTrace engine fx others s db)
