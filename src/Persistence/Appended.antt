-- ===== src/Persistence/Appended.antt =====
-- A stored trace of backend/app/persistence/repositories/temporary_history.py to which one more event
-- is added.
use organization_ai.Base.{
  ◌<◌, none, some, [], ◌∷◌, ◌++◌, All, append-[], ◌≡◌, ◌==◌, ==_iff, refl, sym, ap, subst, ◌∙◌,
  Option-cases, inl, inr,
}
use organization_ai.Base.Json.{Uuid}
use organization_ai.Base.Query.{select, find_holds, select-append}
use organization_ai.Base.Sort.{All-sort_by, sort_by-append}
use organization_ai.Persistence.Rows.{CaseRow, EventRow, Database, StoredTrace}
use organization_ai.Persistence.Repository.{
  add_control_event, insert_rows, find_trace, find_case, load, decision_of, events_of,
}

-- What a trace that is found is made of.
pub record IsLoaded (db : Database) (t : Uuid) (stored : StoredTrace) : Type 0 where
  pub case_row : find_case db t ≡ some stored.case_row
  pub decision : decision_of db t ≡ stored.decision
  pub events : events_of db t ≡ stored.events
  pub trace_id : stored.case_row.trace_id ≡ t

abbrev pub loaded : Database → CaseRow → StoredTrace
loaded db c = record {
  case_row = c;
  decision = decision_of db c.trace_id;
  events = events_of db c.trace_id;
}

pub find_trace-none : (db : Database) (t : Uuid) → find_case db t ≡ none → find_trace db t ≡ none
unfolding find_trace load
find_trace-none db t gone = rw (gone) refl

pub find_trace-some :
    (db : Database) (t : Uuid) {c : CaseRow}
    → find_case db t ≡ some c
    → find_trace db t ≡ some (loaded db c)
unfolding find_trace load
find_trace-some db t there = rw (there) refl

pub loaded-IsLoaded :
    (db : Database) (t : Uuid) {c : CaseRow} → find_case db t ≡ some c → IsLoaded db t (loaded db c)
unfolding find_case
loaded-IsLoaded db t {c} there =
    let same : c.trace_id ≡ t =
      (==_iff c.trace_id t).0 (find_holds (λ (row : CaseRow). row.trace_id == t) db.cases there) in
    record {
      case_row = there;
      decision = ap (decision_of db) (sym same);
      events = ap (events_of db) (sym same);
      trace_id = same;
    }

pub find_trace-IsLoaded :
    (db : Database) (t : Uuid) {stored : StoredTrace}
    → find_trace db t ≡ some stored
    → IsLoaded db t stored
find_trace-IsLoaded db t {stored} h = elim (Option-cases (find_case db t)) [
  | inl gone ↦ absurd (cc (find_trace-none db t gone))
  | inr (c, there) ↦
      let same : loaded db c ≡ stored = cc (find_trace-some db t there) in
      subst (IsLoaded db t) same (loaded-IsLoaded db t there)
]

module _ (db : Database) (t : Uuid) (stored : StoredTrace) (e : EventRow)
    (found : find_trace db t ≡ some stored) (of_trace : e.trace_id ≡ t)
    (above : All (λ (row : EventRow). row.sequence_number < e.sequence_number) stored.events) where
  is_loaded : IsLoaded db t stored
  is_loaded = find_trace-IsLoaded db t found

  events_of-add_control_event :
      events_of (insert_rows db (add_control_event e)) t ≡ stored.events ++ e ∷ []
  unfolding events_of insert_rows add_control_event select
  events_of-add_control_event =
      let rows = select (λ (row : EventRow). row.trace_id == t) db.events in
      let all_above : All (λ (row : EventRow). row.sequence_number < e.sequence_number) rows =
        All-sort_by (λ (row : EventRow). row.sequence_number)
          (λ (row : EventRow). row.sequence_number < e.sequence_number) rows
          (rw (is_loaded.events) above) in
      rw
        (
          select-append (λ (row : EventRow). row.trace_id == t) db.events (e ∷ []),
          (==_iff e.trace_id t).1 of_trace,
          sort_by-append (λ (row : EventRow). row.sequence_number) rows e all_above,
          is_loaded.events,
        )
        refl

  pub find_trace-add_control_event :
      find_trace (insert_rows db (add_control_event e)) t
      ≡ some (record {
        case_row = stored.case_row;
        decision = stored.decision;
        events = stored.events ++ e ∷ [];
      })
  unfolding find_case decision_of insert_rows add_control_event
  find_trace-add_control_event =
      find_trace-some (insert_rows db (add_control_event e)) t {c = stored.case_row}
        (rw (append-[] db.cases) is_loaded.case_row)
      ∙ rw
          (
            is_loaded.trace_id,
            events_of-add_control_event,
            append-[] db.decisions,
            is_loaded.decision,
          )
          refl
