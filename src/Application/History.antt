-- ===== src/Application/History.antt =====
-- backend/app/application/temporary_history.py: `submit_trace` and `read_trace`.
pub mod Atomic
pub mod Duplicate
pub mod Stored
pub mod Sound
pub mod Whole
use organization_ai.Base.{ℕ, ◌+◌, Bool, String, none, some, List, [], ◌∷◌, if◌then◌else◌}
use organization_ai.Base.Json.{Json, str, Uuid}
use organization_ai.Base.Result.{Result, ok, err}
use organization_ai.Domain.Enums.{
  outcome_value, rule_value, source_value, data_class_value, validation_value,
}
use organization_ai.Domain.Models.{
  Datetime, CaseSubmission, NormalizedCase, TemporaryProfile, DecisionDraft,
}
use organization_ai.Policy.Profile.{tmp_dev_001_profile}
use organization_ai.Policy.Normalization.{normalize_case}
use organization_ai.Policy.Evaluator.{evaluate_case}
use organization_ai.Persistence.Rows.{
  CaseRow, DecisionRow, EventRow, Database, system, actor_type_value, case_received,
  case_normalized, decision_recorded, audit_action_value,
}
use organization_ai.Persistence.Repository.{Pending, case_id_exists, find_trace, add_trace}
use organization_ai.Persistence.Engine.{IntegrityError, names_constraint, Engine}
use organization_ai.Application.Views.{
  TraceReadModel, ServiceError, trace_already_recorded, trace_not_found, integrity_error,
  to_trace_model, lift,
}

-- The injected functions of a call: the times that `clock()` returns in turn, the ids that
-- `id_factory()` returns in turn, and pydantic's `model_dump(mode="json")`.
pub record Effects : Type 0 where
  pub clock : ℕ → Datetime
  pub new_id : ℕ → Uuid
  pub dump_case : CaseSubmission → Json
  pub dump_profile : TemporaryProfile → Json

-- `_is_duplicate_case_id`
unfoldable pub is_duplicate_case_id : IntegrityError → Bool
unfolding names_constraint
is_duplicate_case_id = names_constraint "uq_temporary_case_snapshots_case_id"

-- `_build_events`, after `ids` calls of `id_factory` and `times` calls of `clock`
unfoldable pub build_events : Effects → ℕ → ℕ → Uuid → String → String → String → List EventRow
build_events fx ids times trace_id case_id outcome applied_rule_id =
    record {
      event_id = fx.new_id ids;
      trace_id = trace_id;
      sequence_number = 1;
      previous_event_id = none;
      actor_type = actor_type_value system;
      action = audit_action_value case_received;
      payload = ("case_id", str case_id) ∷ [];
      recorded_at = fx.clock times;
      idempotency_key = none;
      command_fingerprint = none;
    }
    ∷ record {
      event_id = fx.new_id (ids + 1);
      trace_id = trace_id;
      sequence_number = 2;
      previous_event_id = some (fx.new_id ids);
      actor_type = actor_type_value system;
      action = audit_action_value case_normalized;
      payload = ("case_id", str case_id) ∷ [];
      recorded_at = fx.clock (times + 1);
      idempotency_key = none;
      command_fingerprint = none;
    }
    ∷ record {
      event_id = fx.new_id (ids + 2);
      trace_id = trace_id;
      sequence_number = 3;
      previous_event_id = some (fx.new_id (ids + 1));
      actor_type = actor_type_value system;
      action = audit_action_value decision_recorded;
      payload = ("outcome", str outcome) ∷ ("applied_rule_id", str applied_rule_id) ∷ [];
      recorded_at = fx.clock (times + 2);
      idempotency_key = none;
      command_fingerprint = none;
    }
    ∷ []

unfoldable pub case_row : Effects → CaseSubmission → NormalizedCase → CaseRow
case_row fx submission normalized = record {
  trace_id = fx.new_id 0;
  case_id = submission.case_id;
  recorded_at = fx.clock 0;
  submission_snapshot = fx.dump_case submission;
  normalized_snapshot = fx.dump_case normalized;
  profile_id = tmp_dev_001_profile.profile_id;
  profile_source = source_value tmp_dev_001_profile.profile_source;
  data_class = data_class_value tmp_dev_001_profile.data_class;
  workflow_validation_status = validation_value tmp_dev_001_profile.workflow_validation_status;
}

unfoldable pub decision_row : Effects → DecisionDraft → DecisionRow
decision_row fx draft = record {
  decision_id = fx.new_id 1;
  trace_id = fx.new_id 0;
  profile_snapshot = fx.dump_profile tmp_dev_001_profile;
  profile_id = draft.profile_id;
  outcome = outcome_value draft.outcome;
  applied_rule_id = rule_value draft.applied_rule_id;
  reason = draft.reason;
  question = draft.question;
  decided_at = fx.clock 0;
}

-- All the rows of a new trace.
unfoldable pub trace_rows : Effects → CaseSubmission → NormalizedCase → DecisionDraft → Pending
unfolding case_row decision_row build_events add_trace
trace_rows fx submission normalized draft =
    add_trace (case_row fx submission normalized) (decision_row fx draft) (
      build_events fx 2 1 (fx.new_id 0) submission.case_id (outcome_value draft.outcome)
        (rule_value draft.applied_rule_id))

-- The end of a `with session.begin()` block: a return commits what was flushed, a raise rolls back.
abbrev pub commit_or_roll_back {ℓ} :
    {A : Type ℓ} → Result ServiceError A → Database → Database → Result ServiceError A × Database
commit_or_roll_back (ok a) flushed before = (ok a, flushed)
commit_or_roll_back (err e) flushed before = (err e, before)

unfoldable pub read_back : Database → Uuid → Result ServiceError TraceReadModel
unfolding find_trace
read_back db trace_id = elim (find_trace db trace_id) [
  | none ↦ err (trace_not_found trace_id)
  | some stored ↦ lift (to_trace_model stored stored.events)
]

-- What follows the flush: the trace is read back, or the `IntegrityError` handler runs.
unfoldable pub after_flush :
    Uuid
    → String
    → Database
    → Result IntegrityError Database
    → Result ServiceError TraceReadModel × Database
unfolding read_back is_duplicate_case_id
after_flush trace_id case_id before (ok flushed) =
    commit_or_roll_back (read_back flushed trace_id) flushed before
after_flush trace_id case_id before (err e) =
    if is_duplicate_case_id e
    then (err (trace_already_recorded case_id), before)
    else (err (integrity_error e), before)

-- Other transactions may commit between the first query and the flush: `others` is what they make of
-- the tables. The result comes with the tables as they are committed at the end of the call.
module _ (engine : Engine) (fx : Effects) (others : Database → Database) where
  unfoldable pub record_trace :
      CaseSubmission
      → NormalizedCase
      → DecisionDraft
      → Database
      → Result ServiceError TraceReadModel × Database
  unfolding case_id_exists trace_rows after_flush
  record_trace submission normalized draft db =
      if case_id_exists db submission.case_id
      then (err (trace_already_recorded submission.case_id), db)
      else after_flush (fx.new_id 0) submission.case_id (others db)
          (engine.flush (others db) (trace_rows fx submission normalized draft))

  unfoldable pub submit_trace :
      CaseSubmission → Database → Result ServiceError TraceReadModel × Database
  unfolding record_trace
  submit_trace submission db = elim (normalize_case submission) [
    | err e ↦ (lift (err e), db)
    | ok normalized ↦ elim (evaluate_case normalized tmp_dev_001_profile) [
      | err e ↦ (lift (err e), db)
      | ok draft ↦ record_trace submission normalized draft db
    ]
  ]

-- It only reads, so the tables stay.
unfoldable pub read_trace : Uuid → Database → Result ServiceError TraceReadModel
unfolding find_trace
read_trace trace_id db = elim (find_trace db trace_id) [
  | none ↦ err (trace_not_found trace_id)
  | some stored ↦ lift (to_trace_model stored stored.events)
]
