-- ===== src/Persistence/Repository.antt =====
-- backend/app/persistence/repositories/temporary_history.py: the queries, and the rows that a session
-- holds until it is flushed. `FOR UPDATE` changes no row: it only makes other controls of the trace
-- wait, so `find_trace_for_update` reads as `find_trace` does.
use organization_ai.Base.{
  Bool, ◌&&◌, String, Option, none, some, List, [], ◌∷◌, ◌++◌, str_eq, ◌==◌, false,
}
use organization_ai.Base.Json.{Uuid}
use organization_ai.Base.Query.{select, find, any}
use organization_ai.Base.Sort.{sort_by}
use organization_ai.Persistence.Rows.{CaseRow, DecisionRow, EventRow, Database, StoredTrace}

-- `idempotency_key = key`, which a null key never satisfies
unfoldable pub has_key : String → Option String → Bool
has_key key none = false
has_key key (some k) = str_eq k key

unfoldable pub case_id_exists : Database → String → Bool
unfolding any
case_id_exists db case_id = any (λ (row : CaseRow). str_eq row.case_id case_id) db.cases

unfoldable pub find_case : Database → Uuid → Option CaseRow
unfolding find
find_case db trace_id = find (λ (row : CaseRow). row.trace_id == trace_id) db.cases

-- the relationship `decision`
unfoldable pub decision_of : Database → Uuid → Option DecisionRow
unfolding find
decision_of db trace_id = find (λ (row : DecisionRow). row.trace_id == trace_id) db.decisions

-- the relationship `events`, ordered by the sequence number
unfoldable pub events_of : Database → Uuid → List EventRow
unfolding select
events_of db trace_id =
    sort_by (λ (row : EventRow). row.sequence_number)
      (select (λ (row : EventRow). row.trace_id == trace_id) db.events)

unfoldable pub load : Database → Option CaseRow → Option StoredTrace
unfolding decision_of events_of
load db none = none
load db (some row) = some (record {
  case_row = row;
  decision = decision_of db row.trace_id;
  events = events_of db row.trace_id;
})

unfoldable pub find_trace : Database → Uuid → Option StoredTrace
unfolding find_case load
find_trace db trace_id = load db (find_case db trace_id)

unfoldable pub find_trace_for_update : Database → Uuid → Option StoredTrace
unfolding find_trace
find_trace_for_update = find_trace

unfoldable pub find_control_receipt : Database → Uuid → String → Option EventRow
unfolding find has_key
find_control_receipt db trace_id key =
    find (λ (row : EventRow). (row.trace_id == trace_id) && has_key key row.idempotency_key)
      db.events

-- The rows that `session.add` has registered.
pub record Pending : Type 0 where
  pub cases : List CaseRow
  pub decisions : List DecisionRow
  pub events : List EventRow

unfoldable pub add_trace : CaseRow → DecisionRow → List EventRow → Pending
add_trace c d es = record { cases = c ∷ []; decisions = d ∷ []; events = es }

unfoldable pub add_control_event : EventRow → Pending
add_control_event e = record { cases = []; decisions = []; events = e ∷ [] }

-- The tables with the pending rows inserted.
unfoldable pub insert_rows : Database → Pending → Database
insert_rows db new = record {
  cases = db.cases ++ new.cases;
  decisions = db.decisions ++ new.decisions;
  events = db.events ++ new.events;
}
