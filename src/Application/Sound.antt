-- ===== src/Application/Sound.antt =====
-- Tables of backend/app/persistence/models/temporary_history.py of which every stored trace can be
-- replayed by backend/app/application/temporary_history.py.
use organization_ai.Base.{Option, some, map, ◌≡◌, refl, ap, ◌∙◌}
use organization_ai.Base.Json.{Uuid}
use organization_ai.Base.Sort.{IsAscending}
use organization_ai.Base.Result.{ok}
use organization_ai.Domain.Enums.{DecisionOutcome, outcome_of}
use organization_ai.Domain.Control.Reduce.{reduce_control_state}
use organization_ai.Domain.Control.Deck.{Overlay, projection_of}
use organization_ai.Domain.Control.History.{History, History-IsAscending, History-replays}
use organization_ai.Persistence.Rows.{DecisionRow, Database, StoredTrace}
use organization_ai.Persistence.Repository.{find_trace}
use organization_ai.Application.Views.{TraceReadModel, row_sequence, stored_event, to_trace_model}
use organization_ai.Application.Replay.{view_of, IsAscending-stored, to_trace_model-replayed}
use organization_ai.Application.History.{read_trace}

-- The trace has a decision with one of the four outcomes, and its events are a history of it.
pub record IsReplayable (stored : StoredTrace) : Type 0 where
  pub decision : DecisionRow
  pub outcome : DecisionOutcome
  pub has_decision : stored.decision ≡ some decision
  pub has_outcome : outcome_of decision.outcome ≡ ok outcome
  pub history : History outcome (map stored_event stored.events)

abbrev pub IsSound : Database → Type 0
IsSound db = (t : Uuid) (stored : StoredTrace) → find_trace db t ≡ some stored → IsReplayable stored

pub IsReplayable-IsAscending :
    {stored : StoredTrace} → IsReplayable stored → IsAscending row_sequence stored.events
IsReplayable-IsAscending {stored} r =
    IsAscending-stored stored.events (History-IsAscending r.history)

-- What is shown of a trace: its snapshots, all its events, and the state of the machine that its
-- events have brought it to.
abbrev pub Shows : StoredTrace → TraceReadModel → Type 0
Shows stored view =
    (d : DecisionRow) × (o : DecisionOutcome) × (v : Overlay) × (stored.decision ≡ some d)
    × (outcome_of d.outcome ≡ ok o)
    × (reduce_control_state o (map stored_event stored.events) ≡ ok (projection_of o v))
    × (view ≡ view_of stored.case_row d stored.events (projection_of o v).state)

pub to_trace_model-Shows :
    (stored : StoredTrace)
    → IsReplayable stored
    → (view : TraceReadModel) × (to_trace_model stored stored.events ≡ ok view) × Shows stored view
to_trace_model-Shows stored r =
    let (v, replays) = History-replays r.history in
    let same : stored ≡ record {
      case_row = stored.case_row;
      decision = some r.decision;
      events = stored.events;
    } =
      ap
        (λ (d : Option DecisionRow). record {
          case_row = stored.case_row;
          decision = d;
          events = stored.events;
        })
        r.has_decision in
    (
      view_of stored.case_row r.decision stored.events (projection_of r.outcome v).state,
      ap (λ (s : StoredTrace). to_trace_model s stored.events) same
          ∙ to_trace_model-replayed stored.case_row r.decision stored.events r.has_outcome
              (IsReplayable-IsAscending r) replays,
      (r.decision, r.outcome, v, r.has_decision, r.has_outcome, replays, refl),
    )

-- In tables of which every trace can be replayed, reading a stored trace returns, and shows it.
pub read_trace-Shows :
    (db : Database) (t : Uuid) (stored : StoredTrace)
    → IsSound db
    → find_trace db t ≡ some stored
    → (view : TraceReadModel) × (read_trace t db ≡ ok view) × Shows stored view
unfolding read_trace
read_trace-Shows db t stored sound found =
    let (view, shown, shows) = to_trace_model-Shows stored (sound t stored found) in
    (view, rw (found, read_trace, shown) refl, shows)
