-- ===== src/Application/History/Whole.antt =====
-- What `submit_trace` of backend/app/application/temporary_history.py has stored when it returns, row
-- by row and table by table.
use organization_ai.Base.{ℕ, String, Option, none, some, [], ◌∷◌, ◌++◌, ◌≡◌, ◌⊎◌, refl, sym, subst}
use organization_ai.Base.Json.{str, Uuid, Payload}
use organization_ai.Base.Result.{Result, ok, err}
use organization_ai.Domain.Enums.{
  outcome_value, rule_value, source_value, data_class_value, validation_value,
}
use organization_ai.Domain.Models.{CaseSubmission, NormalizedCase, DecisionDraft}
use organization_ai.Policy.Normalization.{normalize_case}
use organization_ai.Policy.Evaluator.{evaluate_case}
use organization_ai.Policy.Profile.{tmp_dev_001_profile}
use organization_ai.Persistence.Rows.{
  CaseRow, DecisionRow, EventRow, Database, actor_type_value, audit_action_value,
}
use organization_ai.Persistence.Repository.{insert_rows}
use organization_ai.Persistence.Engine.{Engine}
use organization_ai.Persistence.Engine.Keys.{IsConsistent}
use organization_ai.Application.Views.{TraceReadModel, ServiceError}
use organization_ai.Application.History.{
  Effects, case_row, decision_row, build_events, trace_rows, submit_trace,
}
use organization_ai.Application.History.Atomic.{InsertsTrace, submit_trace-InsertsTrace}

-- The case as submitted and as normalized, with the profile that it was decided under.
pub record IsCaseOf (fx : Effects) (s : CaseSubmission) (n : NormalizedCase) (row : CaseRow)
    : Type 0 where
  pub trace_id : row.trace_id ≡ fx.new_id 0
  pub case_id : row.case_id ≡ s.case_id
  pub submission_snapshot : row.submission_snapshot ≡ fx.dump_case s
  pub normalized_snapshot : row.normalized_snapshot ≡ fx.dump_case n
  pub profile_id : row.profile_id ≡ "TMP-DEV-001"
  pub profile_source : row.profile_source ≡ "TEMPORARY_DEVELOPMENT"
  pub data_class : row.data_class ≡ "SYNTHETIC"
  pub workflow_validation_status : row.workflow_validation_status ≡ "UNVALIDATED"

-- The draft, whole.
pub record IsDecisionOf (fx : Effects) (d : DecisionDraft) (row : DecisionRow) : Type 0 where
  pub trace_id : row.trace_id ≡ fx.new_id 0
  pub profile_snapshot : row.profile_snapshot ≡ fx.dump_profile tmp_dev_001_profile
  pub profile_id : row.profile_id ≡ d.profile_id
  pub outcome : row.outcome ≡ outcome_value d.outcome
  pub applied_rule_id : row.applied_rule_id ≡ rule_value d.applied_rule_id
  pub reason : row.reason ≡ d.reason
  pub question : row.question ≡ d.question

-- An event of the system, of this number and action, that comes after the given one.
pub record IsSystemEvent (trace : Uuid) (number : ℕ) (previous : Option Uuid) (named : String)
    (holds : Payload) (row : EventRow) : Type 0 where
  pub trace_id : row.trace_id ≡ trace
  pub sequence_number : row.sequence_number ≡ number
  pub previous_event_id : row.previous_event_id ≡ previous
  pub actor_type : row.actor_type ≡ "SYSTEM"
  pub action : row.action ≡ named
  pub payload : row.payload ≡ holds
  pub idempotency_key : row.idempotency_key ≡ none
  pub command_fingerprint : row.command_fingerprint ≡ none

-- One case, one decision and three linked events more than before, and no other row.
pub record IsWholeTrace (fx : Effects) (s : CaseSubmission) (n : NormalizedCase) (d : DecisionDraft)
    (before after : Database) : Type 0 where
  pub case_row : CaseRow
  pub decision : DecisionRow
  pub received : EventRow
  pub normalized : EventRow
  pub decided : EventRow
  pub cases : after.cases ≡ before.cases ++ case_row ∷ []
  pub decisions : after.decisions ≡ before.decisions ++ decision ∷ []
  pub events : after.events ≡ before.events ++ received ∷ normalized ∷ decided ∷ []
  pub of_case : IsCaseOf fx s n case_row
  pub of_draft : IsDecisionOf fx d decision
  pub first :
      IsSystemEvent (fx.new_id 0) 1 none "CASE_RECEIVED" (("case_id", str s.case_id) ∷ []) received
  pub second :
      IsSystemEvent
        (fx.new_id 0)
        2
        (some received.event_id)
        "CASE_NORMALIZED"
        (("case_id", str s.case_id) ∷ [])
        normalized
  pub third :
      IsSystemEvent
        (fx.new_id 0)
        3
        (some normalized.event_id)
        "DECISION_RECORDED"
        (("outcome", str (outcome_value d.outcome))
          ∷ ("applied_rule_id", str (rule_value d.applied_rule_id))
          ∷ [])
        decided

-- The three events of a new trace.
abbrev system_event : Uuid → ℕ → Option Uuid → String → Payload → Uuid → ℕ → EventRow
system_event trace number previous named holds id at = record {
  event_id = id;
  trace_id = trace;
  sequence_number = number;
  previous_event_id = previous;
  actor_type = "SYSTEM";
  action = named;
  payload = holds;
  recorded_at = at;
  idempotency_key = none;
  command_fingerprint = none;
}

system_event-IsSystemEvent :
    (trace : Uuid) (number : ℕ) (previous : Option Uuid) (named : String) (holds : Payload)
    (id : Uuid) (at : ℕ)
    → IsSystemEvent trace number previous named holds
        (system_event trace number previous named holds id at)
system_event-IsSystemEvent trace number previous named holds id at = record {
  trace_id = refl;
  sequence_number = refl;
  previous_event_id = refl;
  actor_type = refl;
  action = refl;
  payload = refl;
  idempotency_key = refl;
  command_fingerprint = refl;
}

IsWholeTrace-insert_rows :
    (fx : Effects) (s : CaseSubmission) (n : NormalizedCase) (d : DecisionDraft) (db : Database)
    → IsWholeTrace fx s n d db (insert_rows db (trace_rows fx s n d))
unfolding insert_rows trace_rows case_row decision_row build_events source_value data_class_value
    validation_value actor_type_value audit_action_value
IsWholeTrace-insert_rows fx s n d db = record {
  case_row = case_row fx s n;
  decision = decision_row fx d;
  received =
      system_event (fx.new_id 0) 1 none "CASE_RECEIVED" (("case_id", str s.case_id) ∷ [])
        (fx.new_id 2) (fx.clock 1);
  normalized =
      system_event (fx.new_id 0) 2 (some (fx.new_id 2)) "CASE_NORMALIZED"
        (("case_id", str s.case_id) ∷ []) (fx.new_id 3) (fx.clock 2);
  decided =
      system_event (fx.new_id 0) 3 (some (fx.new_id 3)) "DECISION_RECORDED"
        (("outcome", str (outcome_value d.outcome))
          ∷ ("applied_rule_id", str (rule_value d.applied_rule_id))
          ∷ [])
        (fx.new_id 4) (fx.clock 3);
  cases = refl;
  decisions = refl;
  events = refl;
  of_case = record {
    trace_id = refl;
    case_id = refl;
    submission_snapshot = refl;
    normalized_snapshot = refl;
    profile_id = refl;
    profile_source = refl;
    data_class = refl;
    workflow_validation_status = refl;
  };
  of_draft = record {
    trace_id = refl;
    profile_snapshot = refl;
    profile_id = refl;
    outcome = refl;
    applied_rule_id = refl;
    reason = refl;
    question = refl;
  };
  first = system_event-IsSystemEvent (fx.new_id 0) 1 none "CASE_RECEIVED" _ _ _;
  second = system_event-IsSystemEvent (fx.new_id 0) 2 _ "CASE_NORMALIZED" _ _ _;
  third = system_event-IsSystemEvent (fx.new_id 0) 3 _ "DECISION_RECORDED" _ _ _;
}

-- A call returned and has stored the whole trace of a case and its draft, and nothing else; or it
-- raised, and the tables are as they were before it or as others left them.
abbrev pub WritesWholeTrace :
    Effects
    → CaseSubmission
    → Database
    → Database
    → Result ServiceError TraceReadModel × Database
    → Type 0
WritesWholeTrace fx s db others (ok view, tables) =
    (n : NormalizedCase) × (d : DecisionDraft) × (normalize_case s ≡ ok n)
    × (evaluate_case n tmp_dev_001_profile ≡ ok d)
    × IsWholeTrace fx s n d others tables
    × IsConsistent tables
WritesWholeTrace fx s db others (err e, tables) = (tables ≡ db) ⊎ (tables ≡ others)

stored-WritesWholeTrace :
    (fx : Effects) (s : CaseSubmission) (db others : Database)
    (r : Result ServiceError TraceReadModel × Database)
    → InsertsTrace fx s db others r
    → WritesWholeTrace fx s db others r
stored-WritesWholeTrace fx s db others (ok view, tables) (n, d, normal, decided, inserted, kept) = (
  n,
  d,
  normal,
  decided,
  subst (IsWholeTrace fx s n d others) (sym inserted) (IsWholeTrace-insert_rows fx s n d others),
  subst IsConsistent (sym inserted) kept,
)
stored-WritesWholeTrace fx s db others (err e, tables) h = h

-- Whatever the submission and the tables, and whatever other transactions commit meanwhile: if the call
-- returns, then the submission normalizes and is decided, and the tables have exactly one case, one
-- decision and three events more, all of the new trace: the case with both snapshots and the profile,
-- the whole draft, and the events CASE_RECEIVED, CASE_NORMALIZED and DECISION_RECORDED, numbered 1, 2, 3
-- and linked each to the one before; no constraint is violated. If it raises, it has changed nothing.
pub submit_trace-WritesWholeTrace :
    (engine : Engine) (fx : Effects) (others : Database → Database) (s : CaseSubmission)
    (db : Database)
    → WritesWholeTrace fx s db (others db) (submit_trace engine fx others s db)
submit_trace-WritesWholeTrace engine fx others s db =
    stored-WritesWholeTrace fx s db (others db) (submit_trace engine fx others s db)
      (submit_trace-InsertsTrace engine fx others s db)
