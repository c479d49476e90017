-- ===== src/Policy/Normalization.antt =====
-- backend/app/policy/normalization.py
pub mod Laws
use organization_ai.Base.{
  String, Bool, true, false, ◌||◌, Option, none, some, List, [], ◌∷◌, map, str_eq, if◌then◌else◌,
}
use organization_ai.Base.Text.{is_blank, format}
use organization_ai.Base.Result.{PyError, value_error, Result, ok, err, ◌>>=◌}
use organization_ai.Domain.Models.{Expense, CaseSubmission, NormalizedCase, new_expense, new_case}
use organization_ai.Policy.Facts.{
  Fact, absent, text, category, amount, date, evidence, optional, is_none,
}

abbrev pub question_by_field_path : List (String × String)
question_by_field_path =
    ("purpose", "What is the synthetic purpose of this expense?")
    ∷ ("expense.category", "Which temporary expense category applies to this synthetic expense?")
    ∷ ("expense.description", "What is the synthetic expense description?")
    ∷ ("expense.amount_vnd", "What is the positive integer synthetic expense amount in VND?")
    ∷ ("expense.expense_date", "What is the synthetic expense date?")
    ∷ (
      "expense.evidence_status",
      "Is the declared synthetic expense evidence status PRESENT or NOT_PROVIDED?",
    )
    ∷ []

-- `mapping[key]`, `none` for a missing key
unfoldable pub lookup_text : String → List (String × String) → Option String
lookup_text k [] = none
lookup_text k ((j, v) ∷ m) = if str_eq k j then some v else lookup_text k m

-- `tuple(QUESTION_BY_FIELD_PATH)`
unfoldable pub missing_field_paths : List String
missing_field_paths = map (λ entry. entry.0) question_by_field_path

unfoldable pub blank_to_none : Option String → Option String
blank_to_none none = none
blank_to_none (some value) = if is_blank value then none else some value

unfoldable pub normalize_expense : Option Expense → Result PyError (Option Expense)
unfolding blank_to_none
normalize_expense none = ok none
normalize_expense (some e) = do
  expense ← new_expense (record e { description = blank_to_none e.description })
  ok (some expense)

unfoldable pub normalize_case : CaseSubmission → Result PyError NormalizedCase
unfolding normalize_expense
normalize_case submission = do
  expense ← normalize_expense submission.expense
  new_case (record submission { purpose = blank_to_none submission.purpose; expense = expense })

-- `case.expense.f if case.expense is not None else None`
unfoldable pub expense_fact : (Expense → Fact) → Option Expense → Fact
expense_fact f none = absent
expense_fact f (some e) = f e

unfoldable pub field_value : NormalizedCase → String → Result PyError Fact
unfolding expense_fact format
field_value c path =
    if str_eq path "purpose"
    then ok (optional text c.purpose)
    else if str_eq path "expense.category"
    then ok (expense_fact (λ e. optional category e.category) c.expense)
    else if str_eq path "expense.description"
    then ok (expense_fact (λ e. optional text e.description) c.expense)
    else if str_eq path "expense.amount_vnd"
    then ok (expense_fact (λ e. optional amount e.amount_vnd) c.expense)
    else if str_eq path "expense.expense_date"
    then ok (expense_fact (λ e. optional date e.expense_date) c.expense)
    else if str_eq path "expense.evidence_status"
    then ok (expense_fact (λ e. optional evidence e.evidence_status) c.expense)
    else err (value_error (format ("Unknown field path: " ∷ path ∷ [])))

-- the loop of `first_missing_field`
unfoldable pub first_none : NormalizedCase → List String → Result PyError (Option String)
unfolding is_none
first_none c [] = ok none
first_none c (path ∷ paths) = do
  value ← field_value c path
  if is_none value then ok (some path) else first_none c paths

unfoldable pub first_missing_field : NormalizedCase → Result PyError (Option String)
unfolding first_none field_value missing_field_paths
first_missing_field c = first_none c missing_field_paths

unfoldable pub question_for_field_path : String → Result PyError String
unfolding lookup_text format
question_for_field_path path = elim (lookup_text path question_by_field_path) [
  | some question ↦ ok question
  | none ↦ err (value_error (format ("No question defined for field path: " ∷ path ∷ [])))
]
