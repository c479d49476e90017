-- ===== src/Api/Routes/Created.antt =====
-- Which responses the trace endpoints of backend/app/api/routes/temporary_history.py give.
use organization_ai.Base.{
  ℕ, false, String, Option, none, some, List, [], ◌∷◌, ◌≡◌, inl, inr, refl, ap, sym, ◌∙◌, subst,
  Bool-cases,
}
use organization_ai.Base.Json.{Json, Uuid, uuid_text}
use organization_ai.Base.Text.{format}
use organization_ai.Base.Result.{PyError, Result, ok, err, Result-cases, Gives}
use organization_ai.Domain.Models.{Expense, CaseSubmission, NormalizedCase, DecisionDraft}
use organization_ai.Domain.Models.Validity.{CaseIsValid}
use organization_ai.Policy.Normalization.Laws.{clean, normalize_case-clean}
use organization_ai.Policy.Evaluator.{evaluate_case}
use organization_ai.Policy.Evaluator.Decision.{evaluate_case-Decides}
use organization_ai.Policy.Profile.{tmp_dev_001_profile, tmp_dev_001_profile-IsValid}
use organization_ai.Persistence.Rows.{Database, StoredTrace}
use organization_ai.Persistence.Repository.{case_id_exists}
use organization_ai.Persistence.Engine.{
  Constraint, case_id_unique, constraint_name, IntegrityError, Engine,
}
use organization_ai.Persistence.Engine.Keys.{IsConsistent}
use organization_ai.Application.Views.{
  TraceReadModel, ServiceError, trace_already_recorded, trace_not_found, integrity_error,
  illegal_control_action, control_idempotency_conflict, python_error,
}
use organization_ai.Application.Sound.{Shows}
use organization_ai.Application.History.{
  Effects, case_row, trace_rows, after_flush, is_duplicate_case_id, record_trace, submit_trace,
  read_back,
}
use organization_ai.Application.History.Duplicate.{is_duplicate-named}
use organization_ai.Application.History.Stored.{new_view, read_back-new, submit_trace_recorded}
use organization_ai.Api.Requests.{has_nul}
use organization_ai.Api.Errors.{response}
use organization_ai.Api.Routes.{
  HttpResponse, shown, refused, unhandled, respond, create_trace, location_of,
}

-- The error names a constraint, and not the unique one on the case ids.
abbrev pub IsOtherThanDuplicate : IntegrityError → Type 0
IsOtherThanDuplicate e =
    (k : Constraint) × (e.diag_constraint_name ≡ constraint_name k) × (k ≡ case_id_unique → ⊥)

-- PostgreSQL cannot store the character NUL in a text.
abbrev HasNoNul : Option String → Type 0
HasNoNul none = Unit
HasNoNul (some value) = has_nul value ≡ false

abbrev HasStorableDescription : Option Expense → Type 0
HasStorableDescription none = Unit
HasStorableDescription (some e) = HasNoNul e.description

-- All texts of a submission can be stored.
abbrev pub IsStorable : CaseSubmission → Type 0
IsStorable s =
    (has_nul s.case_id ≡ false)
    × HasNoNul s.requester_role
    × HasNoNul s.purpose
    × HasStorableDescription s.expense

-- What submitting a valid case can end in.
abbrev IsCreation : Uuid → Result ServiceError TraceReadModel → Type 0
IsCreation t (ok view) = view.trace_id ≡ t
IsCreation t (err (trace_already_recorded _)) = Unit
IsCreation t (err (integrity_error e)) = IsOtherThanDuplicate e
IsCreation t (err _) = ⊥

-- 201 with the new trace's `Location`, 409, or a refusal of the database that is not for the case id.
abbrev pub IsCreated : Uuid → HttpResponse → Type 0
IsCreated t (shown status location view) =
    (status ≡ 201)
    × (location ≡ some (format ("/api/temporary/decision-traces/" ∷ uuid_text t ∷ [])))
IsCreated t (refused r) = r.status_code ≡ 409
IsCreated t (unhandled (integrity_error e)) = IsOtherThanDuplicate e
IsCreated t (unhandled _) = ⊥

IsCreation-by :
    (t : Uuid) {x y : Result ServiceError TraceReadModel} → x ≡ y → IsCreation t y → IsCreation t x
IsCreation-by t same h = subst (IsCreation t) (sym same) h

module _ (engine : Engine) (fx : Effects) (others : Database → Database) (s : CaseSubmission)
    (db : Database) (consistent : IsConsistent (others db)) where
  after_flush-IsCreation :
      (n : NormalizedCase) (d : DecisionDraft) (r : Result IntegrityError Database)
      → engine.flush (others db) (trace_rows fx s n d) ≡ r
      → IsCreation (fx.new_id 0) (after_flush (fx.new_id 0) s.case_id (others db) r).0
  unfolding after_flush case_row
  after_flush-IsCreation n d (ok flushed) flushes =
      let (inserted, kept) = engine.flush_inserts (others db) (trace_rows fx s n d) flushes in
      let reads : read_back flushed (fx.new_id 0) ≡ ok (new_view fx s n d) =
        ap (λ (tables : Database). read_back tables (fx.new_id 0)) inserted
        ∙ read_back-new fx s n d (others db) consistent kept in
      IsCreation-by (fx.new_id 0) {y = ok (new_view fx s n d)} (rw (reads) refl) refl
  after_flush-IsCreation n d (err e) flushes = elim (Bool-cases (is_duplicate_case_id e)) [
    | inl holds ↦
        IsCreation-by (fx.new_id 0) {y = err (trace_already_recorded s.case_id)} (rw (holds) refl)
          tt
    | inr fails ↦
        let (k, violated, named) = engine.flush_rejects (others db) (trace_rows fx s n d) flushes in
        IsCreation-by (fx.new_id 0) {y = err (integrity_error e)} (rw (fails) refl) (
          k,
          named,
          λ duplicate.
              let holds = is_duplicate-named e (named ∙ ap constraint_name duplicate) in
              absurd (cc),
        )
  ]

  record_trace-IsCreation :
      (n : NormalizedCase) (d : DecisionDraft)
      → IsCreation (fx.new_id 0) (record_trace engine fx others s n d db).0
  unfolding record_trace
  record_trace-IsCreation n d = elim (Bool-cases (case_id_exists db s.case_id)) [
    | inl holds ↦
        IsCreation-by (fx.new_id 0) {y = err (trace_already_recorded s.case_id)}
          (rw (holds, record_trace) refl) tt
    | inr fails ↦
        IsCreation-by (fx.new_id 0) (rw (fails, record_trace) refl)
          (after_flush-IsCreation n d _ refl)
  ]

  submit_trace-IsCreation :
      CaseIsValid s → IsCreation (fx.new_id 0) (submit_trace engine fx others s db).0
  submit_trace-IsCreation valid =
      elim (Result-cases (evaluate_case (clean s) tmp_dev_001_profile)) [
        | inl (d, decided) ↦
            IsCreation-by (fx.new_id 0)
              (ap (λ (r : Result ServiceError TraceReadModel × Database). r.0)
                (submit_trace_recorded engine fx others s db (normalize_case-clean s valid)
                  decided))
              (record_trace-IsCreation (clean s) d)
        | inr (e, fails) ↦ absurd (
            subst (Gives _) fails
              (evaluate_case-Decides (clean s) tmp_dev_001_profile tmp_dev_001_profile-IsValid))
      ]

respond-IsCreated :
    (repr : String → String) (t : Uuid) (answer : Result ServiceError TraceReadModel)
    → IsCreation t answer
    → IsCreated t (respond repr 201 location_of answer)
unfolding respond response
respond-IsCreated repr t (ok view) h = (
  refl,
  ap (λ (u : Uuid). some (format ("/api/temporary/decision-traces/" ∷ uuid_text u ∷ []))) h,
)
respond-IsCreated repr t (err (trace_already_recorded case_id)) h = refl
respond-IsCreated repr t (err (integrity_error e)) h = h
respond-IsCreated repr t (err (trace_not_found u)) h = absurd h
respond-IsCreated repr t (err (illegal_control_action u state command detail)) h = absurd h
respond-IsCreated repr t (err (control_idempotency_conflict u key)) h = absurd h
respond-IsCreated repr t (err (python_error e)) h = absurd h

-- A submission that has passed its validators and whose texts have no NUL, on tables that violate no
-- constraint as other transactions leave them: the endpoint answers 201 with the `Location` of the new
-- trace, or 409. The one exception that can leave it is an integrity error that names a constraint
-- other than the one on the case ids, so a case id that another transaction has taken meanwhile is
-- answered, too.
pub create_trace-IsCreated :
    (engine : Engine) (sha256 : List ℕ → String) (repr : String → String)
    (errors : PyError → List Json) (fx : Effects) (others : Database → Database)
    (s : CaseSubmission) (db : Database)
    → CaseIsValid s
    → IsStorable s
    → IsConsistent (others db)
    → IsCreated (fx.new_id 0) (create_trace engine sha256 repr errors fx others s db).0
unfolding create_trace
create_trace-IsCreated engine sha256 repr errors fx others s db valid storable consistent =
    respond-IsCreated repr (fx.new_id 0) (submit_trace engine fx others s db).0
      (submit_trace-IsCreation engine fx others s db consistent valid)

-- 404 where the trace id is unknown, and otherwise 200 with a view that shows the stored trace.
abbrev pub IsRead : Option StoredTrace → HttpResponse → Type 0
IsRead none (refused r) = r.status_code ≡ 404
IsRead (some stored) (shown status location view) = (status ≡ 200) × Shows stored view
IsRead _ _ = ⊥
