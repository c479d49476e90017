-- ===== src/Persistence/Untouched.antt =====
-- Stored traces of backend/app/persistence/repositories/temporary_history.py that added rows do not
-- belong to.
use organization_ai.Base.{false, ◌≡◌, ◌==◌, refl, sym, ap, ◌∙◌, Option-cases, inl, inr}
use organization_ai.Base.Json.{Uuid}
use organization_ai.Base.Query.{any}
use organization_ai.Base.Query.Absent.{find-untouched, select-untouched}
use organization_ai.Base.Sort.{sort_by}
use organization_ai.Persistence.Rows.{CaseRow, DecisionRow, EventRow, Database}
use organization_ai.Persistence.Repository.{
  Pending, insert_rows, find_trace, find_case, decision_of, events_of,
}
use organization_ai.Persistence.Appended.{find_trace-none, find_trace-some, loaded-IsLoaded}

-- No row has the trace id.
pub record IsForeign (new : Pending) (t : Uuid) : Type 0 where
  pub cases : any (λ (row : CaseRow). row.trace_id == t) new.cases ≡ false
  pub decisions : any (λ (row : DecisionRow). row.trace_id == t) new.decisions ≡ false
  pub events : any (λ (row : EventRow). row.trace_id == t) new.events ≡ false

module _ (db : Database) (new : Pending) (t : Uuid) (foreign : IsForeign new t) where
  find_case-untouched : find_case (insert_rows db new) t ≡ find_case db t
  unfolding find_case insert_rows
  find_case-untouched =
      find-untouched (λ (row : CaseRow). row.trace_id == t) db.cases new.cases foreign.cases

  decision_of-untouched : decision_of (insert_rows db new) t ≡ decision_of db t
  unfolding decision_of insert_rows
  decision_of-untouched =
      find-untouched (λ (row : DecisionRow). row.trace_id == t) db.decisions new.decisions
        foreign.decisions

  events_of-untouched : events_of (insert_rows db new) t ≡ events_of db t
  unfolding events_of insert_rows
  events_of-untouched =
      ap (sort_by (λ (row : EventRow). row.sequence_number)) (
        select-untouched (λ (row : EventRow). row.trace_id == t) db.events new.events
          foreign.events)

  pub find_trace-untouched : find_trace (insert_rows db new) t ≡ find_trace db t
  find_trace-untouched = elim (Option-cases (find_case db t)) [
    | inl gone ↦
        find_trace-none (insert_rows db new) t (find_case-untouched ∙ gone)
        ∙ sym (find_trace-none db t gone)
    | inr (c, there) ↦
        let same = (loaded-IsLoaded db t there).trace_id in
        find_trace-some (insert_rows db new) t (find_case-untouched ∙ there)
        ∙ rw (same, decision_of-untouched, events_of-untouched) refl
        ∙ sym (find_trace-some db t there)
  ]
