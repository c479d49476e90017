-- ===== src/Application/History/Stored.antt =====
-- What `submit_trace` of backend/app/application/temporary_history.py stores, and `read_trace` reads.
use organization_ai.Base.{false, some, List, map, All, ◌≡◌, refl, arith}
use organization_ai.Base.Sort.{IsAscending}
use organization_ai.Base.Result.{ok}
use organization_ai.Domain.Enums.{outcome_value, outcome_of-value, rule_value}
use organization_ai.Domain.Models.{CaseSubmission, NormalizedCase, DecisionDraft}
use organization_ai.Domain.Control.Vocabulary.{base_control_state, as_control_action}
use organization_ai.Domain.Control.History.{IsSystem, sequence, History, received, reduce-system}
use organization_ai.Policy.Normalization.{normalize_case}
use organization_ai.Policy.Evaluator.{evaluate_case}
use organization_ai.Policy.Profile.{tmp_dev_001_profile}
use organization_ai.Persistence.Rows.{audit_action_value, EventRow, Database}
use organization_ai.Persistence.Repository.{case_id_exists, insert_rows, find_trace}
use organization_ai.Persistence.Added.{IsTrace, find_trace-add_trace}
use organization_ai.Persistence.Engine.{Engine}
use organization_ai.Persistence.Engine.Keys.{IsConsistent}
use organization_ai.Application.Views.{TraceReadModel, stored_event, to_trace_model}
use organization_ai.Application.Replay.{view_of, IsAscending-stored, to_trace_model-replayed}
use organization_ai.Application.History.{
  Effects, build_events, case_row, decision_row, trace_rows, after_flush, read_back, record_trace,
  submit_trace, read_trace,
}

-- The events of a new trace.
abbrev pub new_events : Effects → CaseSubmission → DecisionDraft → List EventRow
new_events fx s d =
    build_events fx 2 1 (fx.new_id 0) s.case_id (outcome_value d.outcome)
      (rule_value d.applied_rule_id)

-- The view of a new trace: its control state is the one that its outcome starts with.
abbrev pub new_view : Effects → CaseSubmission → NormalizedCase → DecisionDraft → TraceReadModel
new_view fx s n d =
    view_of (case_row fx s n) (decision_row fx d) (new_events fx s d) (base_control_state d.outcome)

module _ (fx : Effects) (s : CaseSubmission) (n : NormalizedCase) (d : DecisionDraft) where
  IsTrace-new : IsTrace (case_row fx s n) (decision_row fx d) (new_events fx s d)
  unfolding case_row decision_row build_events
  IsTrace-new = record {
    decision = refl;
    events = (refl, (refl, (refl, tt)));
    ascending = ((omega arith, (omega arith, tt)), ((omega arith, tt), (tt, tt)));
  }

  new_events-IsSystem : All IsSystem (map stored_event (new_events fx s d))
  unfolding build_events as_control_action audit_action_value
  new_events-IsSystem = (refl, (refl, (refl, tt)))

  new_events-IsAscending : IsAscending sequence (map stored_event (new_events fx s d))
  unfolding build_events
  new_events-IsAscending = ((omega arith, (omega arith, tt)), ((omega arith, tt), (tt, tt)))

  pub History-new : History d.outcome (map stored_event (new_events fx s d))
  History-new = received _ new_events-IsSystem new_events-IsAscending

  new_view-read :
      to_trace_model
        (record {
          case_row = case_row fx s n;
          decision = some (decision_row fx d);
          events = new_events fx s d;
        })
        (new_events fx s d)
      ≡ ok (new_view fx s n d)
  unfolding decision_row
  new_view-read =
      to_trace_model-replayed (case_row fx s n) (decision_row fx d) (new_events fx s d)
        (outcome_of-value d.outcome) (IsAscending-stored (new_events fx s d) new_events-IsAscending)
        (reduce-system d.outcome _ new_events-IsSystem new_events-IsAscending)

  module _ (db : Database) (before : IsConsistent db)
      (after : IsConsistent (insert_rows db (trace_rows fx s n d))) where
    pub find_trace-new :
        find_trace (insert_rows db (trace_rows fx s n d)) (fx.new_id 0)
        ≡ some (record {
          case_row = case_row fx s n;
          decision = some (decision_row fx d);
          events = new_events fx s d;
        })
    unfolding trace_rows case_row
    find_trace-new =
        find_trace-add_trace db (case_row fx s n) (decision_row fx d) (new_events fx s d) before
          after IsTrace-new

    read_trace-new :
        read_trace (fx.new_id 0) (insert_rows db (trace_rows fx s n d)) ≡ ok (new_view fx s n d)
    unfolding read_trace
    read_trace-new = rw (find_trace-new, read_trace, new_view-read) refl

    pub read_back-new :
        read_back (insert_rows db (trace_rows fx s n d)) (fx.new_id 0) ≡ ok (new_view fx s n d)
    unfolding read_back
    read_back-new = rw (find_trace-new, read_back, new_view-read) refl

pub submit_trace_recorded :
    (engine : Engine) (fx : Effects) (others : Database → Database) (s : CaseSubmission)
    {n : NormalizedCase} {d : DecisionDraft} (db : Database)
    → normalize_case s ≡ ok n
    → evaluate_case n tmp_dev_001_profile ≡ ok d
    → submit_trace engine fx others s db ≡ record_trace engine fx others s n d db
unfolding submit_trace
submit_trace_recorded engine fx others s db normal decided = rw (normal, submit_trace, decided) refl

-- A submission that normalizes to `n` and is decided by `d`, whose case id has no trace yet and whose
-- rows violate no constraint of the tables as other transactions leave them: it returns the view of
-- the new trace, in the control state that the outcome of `d` starts with; its three tables are those
-- with the rows of the trace added; and `read_trace` on them gives the same view again.
pub submit_trace-read_trace :
    (engine : Engine) (fx : Effects) (others : Database → Database) (s : CaseSubmission)
    {n : NormalizedCase} {d : DecisionDraft} (db : Database)
    → normalize_case s ≡ ok n
    → evaluate_case n tmp_dev_001_profile ≡ ok d
    → case_id_exists db s.case_id ≡ false
    → IsConsistent (others db)
    → IsConsistent (insert_rows (others db) (trace_rows fx s n d))
    → (submit_trace engine fx others s db
        ≡ (ok (new_view fx s n d), insert_rows (others db) (trace_rows fx s n d)))
      × (read_trace (fx.new_id 0) (submit_trace engine fx others s db).1 ≡ ok (new_view fx s n d))
unfolding record_trace after_flush
submit_trace-read_trace engine fx others s {n} {d} db normal decided fresh before after =
    let stored : submit_trace engine fx others s db
        ≡ (ok (new_view fx s n d), insert_rows (others db) (trace_rows fx s n d)) =
      rw
        (
          submit_trace_recorded engine fx others s db normal decided,
          fresh,
          record_trace,
          engine.flush_accepts (others db) (trace_rows fx s n d) after,
          after_flush,
          read_back-new fx s n d (others db) before after,
        )
        refl in
    (stored, rw stored (read_trace-new fx s n d (others db) before after))
