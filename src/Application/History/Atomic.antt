-- ===== src/Application/History/Atomic.antt =====
-- `submit_trace` of backend/app/application/temporary_history.py inserts the rows of a trace or nothing.
use organization_ai.Base.{◌≡◌, ◌⊎◌, inl, inr, refl, Bool-cases}
use organization_ai.Base.Json.{Uuid}
use organization_ai.Base.Result.{Result, ok, err, Result-cases}
use organization_ai.Domain.Models.{CaseSubmission, NormalizedCase, DecisionDraft}
use organization_ai.Policy.Normalization.{normalize_case}
use organization_ai.Policy.Evaluator.{evaluate_case}
use organization_ai.Policy.Profile.{tmp_dev_001_profile}
use organization_ai.Persistence.Rows.{Database}
use organization_ai.Persistence.Repository.{case_id_exists, insert_rows}
use organization_ai.Persistence.Engine.{IntegrityError, Engine}
use organization_ai.Persistence.Engine.Keys.{IsConsistent}
use organization_ai.Application.Views.{TraceReadModel, ServiceError}
use organization_ai.Application.History.{
  Effects, trace_rows, after_flush, read_back, is_duplicate_case_id, record_trace, submit_trace,
}

-- A call returned and the tables have the rows of a case and its draft more, which violates no
-- constraint; or it raised, and the tables are as they were before it or as others left them.
abbrev pub InsertsTrace :
    Effects
    → CaseSubmission
    → Database
    → Database
    → Result ServiceError TraceReadModel × Database
    → Type 0
InsertsTrace fx s db others (ok view, tables) =
    (n : NormalizedCase) × (d : DecisionDraft) × (normalize_case s ≡ ok n)
    × (evaluate_case n tmp_dev_001_profile ≡ ok d)
    × (tables ≡ insert_rows others (trace_rows fx s n d))
    × IsConsistent (insert_rows others (trace_rows fx s n d))
InsertsTrace fx s db others (err e, tables) = (tables ≡ db) ⊎ (tables ≡ others)

module _ (engine : Engine) (fx : Effects) (others : Database → Database) (s : CaseSubmission)
    (db : Database) where
  after_flush-InsertsTrace :
      (n : NormalizedCase) (d : DecisionDraft) (trace_id : Uuid)
      (r : Result IntegrityError Database)
      → normalize_case s ≡ ok n
      → evaluate_case n tmp_dev_001_profile ≡ ok d
      → engine.flush (others db) (trace_rows fx s n d) ≡ r
      → InsertsTrace fx s db (others db) (after_flush trace_id s.case_id (others db) r)
  unfolding after_flush
  after_flush-InsertsTrace n d trace_id (ok flushed) normal decided flushes =
      let (inserted, kept) = engine.flush_inserts (others db) (trace_rows fx s n d) flushes in
      elim (Result-cases (read_back flushed trace_id)) [
        | inl (view, reads) ↦ rw (reads) (n, d, normal, decided, inserted, kept)
        | inr (e, fails) ↦ rw (fails) (inr refl)
      ]
  after_flush-InsertsTrace n d trace_id (err e) normal decided flushes =
      elim (Bool-cases (is_duplicate_case_id e)) [
        | inl holds ↦ rw (holds) (inr refl)
        | inr fails ↦ rw (fails) (inr refl)
      ]

  record_trace-InsertsTrace :
      (n : NormalizedCase) (d : DecisionDraft)
      → normalize_case s ≡ ok n
      → evaluate_case n tmp_dev_001_profile ≡ ok d
      → InsertsTrace fx s db (others db) (record_trace engine fx others s n d db)
  unfolding record_trace
  record_trace-InsertsTrace n d normal decided = elim (Bool-cases (case_id_exists db s.case_id)) [
    | inl holds ↦ rw (holds, record_trace) (inl refl)
    | inr fails ↦
        rw (fails, record_trace) (after_flush-InsertsTrace n d (fx.new_id 0) _ normal decided refl)
  ]

  -- Whatever the submission and the tables, and whatever other transactions commit meanwhile: if the
  -- call returns, then the submission normalizes and is decided, the tables have the rows of the case,
  -- its draft and its events more, and no constraint is violated; if it raises, then it has changed
  -- nothing.
  pub submit_trace-InsertsTrace :
      InsertsTrace fx s db (others db) (submit_trace engine fx others s db)
  unfolding submit_trace
  submit_trace-InsertsTrace = elim (Result-cases (normalize_case s)) [
    | inr (e, fails) ↦ rw (fails, submit_trace) (inl refl)
    | inl (n, normal) ↦ elim (Result-cases (evaluate_case n tmp_dev_001_profile)) [
      | inr (e, fails) ↦ rw (normal, submit_trace, fails) (inl refl)
      | inl (d, decided) ↦
          rw (normal, submit_trace, decided) (record_trace-InsertsTrace n d normal decided)
    ]
  ]
