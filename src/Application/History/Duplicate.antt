-- ===== src/Application/History/Duplicate.antt =====
-- What `submit_trace` of backend/app/application/temporary_history.py does with a case id that has a
-- trace already.
use organization_ai.Base.{true, false, ◌≡◌, ◌∙◌, refl, ap, Bool-cases, inl, inr, str_eq}
use organization_ai.Base.Result.{Result, ok, err}
use organization_ai.Domain.Models.{CaseSubmission, NormalizedCase, DecisionDraft}
use organization_ai.Policy.Normalization.{normalize_case}
use organization_ai.Policy.Evaluator.{evaluate_case}
use organization_ai.Policy.Profile.{tmp_dev_001_profile}
use organization_ai.Persistence.Rows.{CaseRow, Database}
use organization_ai.Persistence.Repository.{case_id_exists, insert_rows, add_trace}
use organization_ai.Persistence.Engine.{
  Constraint, case_id_unique, constraint_name, violates, IntegrityError, names_constraint, Engine,
}
use organization_ai.Persistence.Engine.Keys.{any-has_duplicate}
use organization_ai.Application.Views.{ServiceError, trace_already_recorded}
use organization_ai.Application.History.{
  Effects, case_row, trace_rows, after_flush, is_duplicate_case_id, record_trace, submit_trace,
}
use organization_ai.Application.History.Stored.{submit_trace_recorded}

-- The handler recognizes the constraint by its name.
pub is_duplicate-named :
    (e : IntegrityError)
    → e.diag_constraint_name ≡ constraint_name case_id_unique
    → is_duplicate_case_id e ≡ true
unfolding is_duplicate_case_id names_constraint constraint_name
is_duplicate-named e named = rw (named) refl

module _ (engine : Engine) (fx : Effects) (others : Database → Database) (s : CaseSubmission)
    (n : NormalizedCase) (d : DecisionDraft) (db : Database)
    (taken : case_id_exists (others db) s.case_id ≡ true)
    (only : (k : Constraint)
      → violates (insert_rows (others db) (trace_rows fx s n d)) k ≡ true
      → k ≡ case_id_unique) where
  taken_before : violates (insert_rows (others db) (trace_rows fx s n d)) case_id_unique ≡ false → ⊥
  unfolding violates insert_rows trace_rows add_trace case_row case_id_exists
  taken_before free =
      let fresh =
        any-has_duplicate (λ (a b : CaseRow). str_eq a.case_id b.case_id) (others db).cases
          (case_row fx s n) free in
      cc (taken, fresh)

  after_flush-duplicate :
      (r : Result IntegrityError Database)
      → engine.flush (others db) (trace_rows fx s n d) ≡ r
      → after_flush (fx.new_id 0) s.case_id (others db) r
        ≡ (err (trace_already_recorded s.case_id), others db)
  unfolding after_flush
  after_flush-duplicate (ok flushed) flushes = absurd (
      taken_before
        ((engine.flush_inserts (others db) (trace_rows fx s n d) flushes).1 case_id_unique))
  after_flush-duplicate (err e) flushes =
      let (k, broken, named) = engine.flush_rejects (others db) (trace_rows fx s n d) flushes in
      rw (is_duplicate-named e (named ∙ ap constraint_name (only k broken))) refl

  record_trace-duplicate :
      (record_trace engine fx others s n d db).0 ≡ err (trace_already_recorded s.case_id)
  unfolding record_trace
  record_trace-duplicate = elim (Bool-cases (case_id_exists db s.case_id)) [
    | inl holds ↦ rw (holds, record_trace) refl
    | inr fails ↦
        rw (fails, record_trace)
          (ap (λ (r : Result ServiceError _ × Database). r.0) (after_flush-duplicate _ refl))
  ]

-- A case id has a trace when the rows of the submission are flushed, whether it had one when the call
-- looked for it or another transaction has stored it since; the rows violate no other constraint. Then
-- the call raises `TraceAlreadyRecordedError` for the case id.
pub submit_trace_duplicate :
    (engine : Engine) (fx : Effects) (others : Database → Database) (s : CaseSubmission)
    {n : NormalizedCase} {d : DecisionDraft} (db : Database)
    → normalize_case s ≡ ok n
    → evaluate_case n tmp_dev_001_profile ≡ ok d
    → case_id_exists (others db) s.case_id ≡ true
    → ((k : Constraint)
        → violates (insert_rows (others db) (trace_rows fx s n d)) k ≡ true
        → k ≡ case_id_unique)
    → (submit_trace engine fx others s db).0 ≡ err (trace_already_recorded s.case_id)
submit_trace_duplicate engine fx others s {n} {d} db normal decided taken only =
    ap (λ (r : Result ServiceError _ × Database). r.0)
      (submit_trace_recorded engine fx others s db normal decided)
    ∙ record_trace-duplicate engine fx others s n d db taken only
