-- ===== src/Application/Widths.antt =====
-- Every text that the services of backend/app/application write fits its column.
use organization_ai.Base.{
  ℕ, String, Option, none, some, List, length, ◌≡◌, refl, sym, subst, inl, inr, arith, All,
}
use organization_ai.Base.Query.{find}
use organization_ai.Base.Text.{codes}
use organization_ai.Base.Result.{Result, ok, err}
use organization_ai.Domain.Enums.{
  DecisionOutcome, TemporaryRuleId, outcome_value, rule_value, source_value, data_class_value,
  validation_value,
}
use organization_ai.Domain.Models.{CaseSubmission, NormalizedCase, DecisionDraft}
use organization_ai.Domain.Control.Vocabulary.{
  ControlAction, ControlActor, action_value, actor_value,
}
use organization_ai.Policy.Profile.{tmp_dev_001_profile, tmp_dev_001_profile-IsValid}
use organization_ai.Policy.Evaluator.{evaluate_case}
use organization_ai.Policy.Evaluator.Decision.{evaluate_case-Decides}
use organization_ai.Persistence.Rows.{actor_type_value, audit_action_value, Database}
use organization_ai.Persistence.Repository.{add_trace, add_control_event, insert_rows}
use organization_ai.Persistence.Engine.{Engine}
use organization_ai.Persistence.Widths.{
  width_of, Fits, FitsIfGiven, CaseFits, DecisionFits, EventFits, FitsColumns,
  FitsColumns-insert_rows, Fits-command_fingerprint,
}
use organization_ai.Migrations.Declared.{decision_table, event_table}
use organization_ai.Application.Views.{TraceReadModel, ServiceError}
use organization_ai.Application.Fingerprint.{command_fingerprint}
use organization_ai.Application.History.{
  Effects, build_events, case_row, decision_row, trace_rows, submit_trace,
}
use organization_ai.Application.History.Atomic.{InsertsTrace, submit_trace-InsertsTrace}
use organization_ai.Application.History.Stored.{new_events}
use organization_ai.Application.ControlDeck.{ControlRequest, if_key, control_event, submit_control}
use organization_ai.Application.ControlDeck.Atomic.{
  fingerprint_of, WritesOneEvent, submit_control-WritesOneEvent,
}

Fits-outcome : (o : DecisionOutcome) → Fits decision_table "outcome" (outcome_value o)
unfolding width_of find outcome_value
Fits-outcome DecisionOutcome.auto_approved = refl
Fits-outcome DecisionOutcome.missing_fact = refl
Fits-outcome DecisionOutcome.out_of_policy = refl
Fits-outcome DecisionOutcome.authority_exceeded = refl

Fits-rule : (r : TemporaryRuleId) → Fits decision_table "applied_rule_id" (rule_value r)
unfolding width_of find rule_value
Fits-rule TemporaryRuleId.tmp_req_01 = refl
Fits-rule TemporaryRuleId.tmp_cat_01 = refl
Fits-rule TemporaryRuleId.tmp_evd_01 = refl
Fits-rule TemporaryRuleId.tmp_aut_01 = refl
Fits-rule TemporaryRuleId.tmp_aut_02 = refl

Fits-action : (a : ControlAction) → Fits event_table "action" (action_value a)
unfolding width_of find action_value
Fits-action ControlAction.case_paused = refl
Fits-action ControlAction.case_resumed = refl
Fits-action ControlAction.demo_review_recorded = refl
Fits-action ControlAction.control_compensated = refl

Fits-actor : (a : ControlActor) → Fits event_table "actor_type" (actor_value a)
unfolding width_of find actor_value
Fits-actor ControlActor.demo_reviewer = refl

-- A draft of the evaluator carries the profile's id.
draft_profile :
    (n : NormalizedCase) {d : DecisionDraft}
    → evaluate_case n tmp_dev_001_profile ≡ ok d
    → d.profile_id ≡ tmp_dev_001_profile.profile_id
draft_profile n decided =
    let decides = evaluate_case-Decides n tmp_dev_001_profile tmp_dev_001_profile-IsValid in
    let (proper, rule) = rw (decided) at decides in proper.profile

module _ (fx : Effects) (s : CaseSubmission) (n : NormalizedCase) (d : DecisionDraft) where
  CaseFits-new : CaseFits (case_row fx s n)
  unfolding case_row width_of find source_value data_class_value validation_value
  CaseFits-new = record {
    profile_id = refl;
    profile_source = refl;
    data_class = refl;
    workflow_validation_status = refl;
  }

  DecisionFits-new : evaluate_case n tmp_dev_001_profile ≡ ok d → DecisionFits (decision_row fx d)
  unfolding decision_row width_of find
  DecisionFits-new decided = record {
    profile_id =
        subst (Fits decision_table "profile_id") {x = tmp_dev_001_profile.profile_id}
          (sym (draft_profile n decided)) refl;
    outcome = Fits-outcome d.outcome;
    applied_rule_id = Fits-rule d.applied_rule_id;
  }

  EventFits-new : All EventFits (new_events fx s d)
  unfolding build_events actor_type_value audit_action_value width_of find
  EventFits-new = (
    record { actor_type = refl; action = refl; idempotency_key = tt; command_fingerprint = tt },
    (
      record { actor_type = refl; action = refl; idempotency_key = tt; command_fingerprint = tt },
      (
        record { actor_type = refl; action = refl; idempotency_key = tt; command_fingerprint = tt },
        tt,
      ),
    ),
  )

  FitsColumns-trace_rows :
      (db : Database)
      → FitsColumns db
      → evaluate_case n tmp_dev_001_profile ≡ ok d
      → FitsColumns (insert_rows db (trace_rows fx s n d))
  unfolding trace_rows add_trace
  FitsColumns-trace_rows db h decided =
      FitsColumns-insert_rows db (trace_rows fx s n d) h (CaseFits-new, tt)
        (DecisionFits-new decided, tt) EventFits-new

FitsColumns-InsertsTrace :
    (fx : Effects) (s : CaseSubmission) (db others : Database)
    (r : Result ServiceError TraceReadModel × Database)
    → FitsColumns db
    → FitsColumns others
    → InsertsTrace fx s db others r
    → FitsColumns r.1
FitsColumns-InsertsTrace fx s db others (ok view, tables) h h'
      (n, d, normal, decided, inserted, kept) =
    subst FitsColumns (sym inserted) (FitsColumns-trace_rows fx s n d others h' decided)
FitsColumns-InsertsTrace fx s db others (err e, tables) h h' (inl same) =
    subst FitsColumns (sym same) h
FitsColumns-InsertsTrace fx s db others (err e, tables) h h' (inr same) =
    subst FitsColumns (sym same) h'

-- If every text of the tables fits the width that its column is declared with, before the call and as
-- other transactions leave them, then every text fits after the call, whatever is submitted.
pub submit_trace-FitsColumns :
    (engine : Engine) (fx : Effects) (others : Database → Database) (s : CaseSubmission)
    (db : Database)
    → FitsColumns db
    → FitsColumns (others db)
    → FitsColumns (submit_trace engine fx others s db).1
submit_trace-FitsColumns engine fx others s db h h' =
    FitsColumns-InsertsTrace fx s db (others db) (submit_trace engine fx others s db) h h'
      (submit_trace-InsertsTrace engine fx others s db)

FitsIfGiven-if_key :
    (key : Option String) (fingerprint : String)
    → Fits event_table "command_fingerprint" fingerprint
    → FitsIfGiven event_table "command_fingerprint" (if_key key fingerprint)
FitsIfGiven-if_key none fingerprint h = tt
FitsIfGiven-if_key (some key) fingerprint h = h

module _ (sha256 : List ℕ → String)
    (hex_length : (bytes : List ℕ) → length (codes (sha256 bytes)) ≡ 64) (rq : ControlRequest)
    (key_fits : FitsIfGiven event_table "idempotency_key" rq.idempotency_key) where
  fingerprint_fits : Fits event_table "command_fingerprint" (fingerprint_of sha256 rq)
  unfolding command_fingerprint
  fingerprint_fits =
      Fits-command_fingerprint (fingerprint_of sha256 rq) (rw (hex_length _) (omega arith))

  FitsColumns-WritesOneEvent :
      (fx : Effects) (db others : Database) (r : Result ServiceError TraceReadModel × Database)
      → FitsColumns db
      → FitsColumns others
      → WritesOneEvent fx (fingerprint_of sha256 rq) rq db others r
      → FitsColumns r.1
  unfolding control_event add_control_event
  FitsColumns-WritesOneEvent fx db others r h h' (inl a) = subst FitsColumns (sym a.inserted) (
      FitsColumns-insert_rows others
        (add_control_event (control_event fx rq (fingerprint_of sha256 rq) a.stored a.planned)) h'
        tt tt
        (
          record {
            actor_type = Fits-actor a.planned.actor;
            action = Fits-action a.planned.action;
            idempotency_key = key_fits;
            command_fingerprint =
                FitsIfGiven-if_key rq.idempotency_key (fingerprint_of sha256 rq) fingerprint_fits;
          },
          tt,
        ))
  FitsColumns-WritesOneEvent fx db others r h h' (inr (inl same)) = subst FitsColumns (sym same) h
  FitsColumns-WritesOneEvent fx db others r h h' (inr (inr same)) = subst FitsColumns (sym same) h'

  pub submit_control-FitsColumns :
      (engine : Engine) (fx : Effects) (others : Database → Database) (db : Database)
      → FitsColumns db
      → FitsColumns (others db)
      → FitsColumns (submit_control engine sha256 fx others rq db).1
  submit_control-FitsColumns engine fx others db h h' =
      FitsColumns-WritesOneEvent fx db (others db) (submit_control engine sha256 fx others rq db) h
        h' (submit_control-WritesOneEvent engine sha256 fx others rq db)
