-- ===== src/Persistence/Added.antt =====
-- A trace that backend/app/persistence/repositories/temporary_history.py has added, and is read back.
use organization_ai.Base.{false, some, List, All, ◌≡◌, ◌==◌, ==_iff, refl, subst, All-map}
use organization_ai.Base.Query.{any}
use organization_ai.Base.Query.Absent.{find-added, select-added}
use organization_ai.Base.Sort.{IsAscending, sort_by-IsAscending}
use organization_ai.Persistence.Rows.{CaseRow, DecisionRow, EventRow, Database}
use organization_ai.Persistence.Repository.{
  add_trace, insert_rows, find_trace, find_case, load, decision_of, events_of,
}
use organization_ai.Persistence.Engine.{
  case_key, decision_trace_unique, event_trace_known, violates,
}
use organization_ai.Persistence.Engine.Keys.{IsConsistent, any-has_duplicate, events_known}

-- The rows stand under one trace id, and the events in the order of their numbers.
pub record IsTrace (c : CaseRow) (d : DecisionRow) (es : List EventRow) : Type 0 where
  pub decision : d.trace_id ≡ c.trace_id
  pub events : All (λ (e : EventRow). e.trace_id ≡ c.trace_id) es
  pub ascending : IsAscending (λ (e : EventRow). e.sequence_number) es

-- Into tables that violate no constraint, before or after, a trace is inserted under a new id.
module _ (db : Database) (c : CaseRow) (d : DecisionRow) (es : List EventRow)
    (before : IsConsistent db) (after : IsConsistent (insert_rows db (add_trace c d es)))
    (trace : IsTrace c d es) where
  new_case_id : any (λ (row : CaseRow). row.trace_id == c.trace_id) db.cases ≡ false
  unfolding violates insert_rows add_trace
  new_case_id =
      any-has_duplicate (λ (a b : CaseRow). a.trace_id == b.trace_id) db.cases c (after case_key)

  new_decision_id : any (λ (row : DecisionRow). row.trace_id == d.trace_id) db.decisions ≡ false
  unfolding violates insert_rows add_trace
  new_decision_id =
      any-has_duplicate (λ (a b : DecisionRow). a.trace_id == b.trace_id) db.decisions d
        (after decision_trace_unique)

  new_event_ids : any (λ (row : EventRow). row.trace_id == c.trace_id) db.events ≡ false
  unfolding violates
  new_event_ids = events_known db.cases db.events c.trace_id new_case_id (before event_trace_known)

  pub find_trace-add_trace :
      find_trace (insert_rows db (add_trace c d es)) c.trace_id
      ≡ some (record { case_row = c; decision = some d; events = es })
  unfolding find_trace find_case load decision_of events_of insert_rows add_trace
  find_trace-add_trace =
      rw
        (
          find-added (λ (row : CaseRow). row.trace_id == c.trace_id) db.cases c new_case_id
              ((==_iff c.trace_id c.trace_id).1 refl),
          find-added (λ (row : DecisionRow). row.trace_id == c.trace_id) db.decisions d
              (subst (λ t. any (λ (row : DecisionRow). row.trace_id == t) db.decisions ≡ false)
                trace.decision new_decision_id)
              ((==_iff d.trace_id c.trace_id).1 trace.decision),
          select-added (λ (row : EventRow). row.trace_id == c.trace_id) db.events es new_event_ids
              (All-map es (λ (e : EventRow). (==_iff e.trace_id c.trace_id).1) trace.events),
          sort_by-IsAscending (λ (row : EventRow). row.sequence_number) es trace.ascending,
        )
        refl
