-- ===== src/Policy/Normalization/Laws.antt =====
-- What `normalize_case` of backend/app/policy/normalization.py changes, and what it keeps.
use organization_ai.Base.{String, true, false, Option, none, some, ◌≡◌, refl, arith}
use organization_ai.Base.Text.{is_blank}
use organization_ai.Base.Result.{ok, Gives}
use organization_ai.Domain.Models.{Expense, CaseSubmission}
use organization_ai.Domain.Models.Validity.{
  CaseIsValid, OptionIsValid, new_expense_iff, new_case_iff,
}
use organization_ai.Policy.Normalization.{blank_to_none, normalize_expense, normalize_case}

-- Blank text becomes `None`, any other text is kept as it is.
abbrev pub Cleaned : Option String → Option String → Type 0
Cleaned none o = o ≡ none
Cleaned (some t) o = (is_blank t ≡ true → o ≡ none) × (is_blank t ≡ false → o ≡ some t)

pub record KeepsExpense (e f : Expense) : Type 0 where
  pub category : f.category ≡ e.category
  pub description : Cleaned e.description f.description
  pub amount_vnd : f.amount_vnd ≡ e.amount_vnd
  pub expense_date : f.expense_date ≡ e.expense_date
  pub evidence_status : f.evidence_status ≡ e.evidence_status

abbrev pub KeepsOption : Option Expense → Option Expense → Type 0
KeepsOption none none = Unit
KeepsOption (some e) (some f) = KeepsExpense e f
KeepsOption _ _ = ⊥

pub record Keeps (s n : CaseSubmission) : Type 0 where
  pub case_id : n.case_id ≡ s.case_id
  pub submitted_at : n.submitted_at ≡ s.submitted_at
  pub requester_role : n.requester_role ≡ s.requester_role
  pub purpose : Cleaned s.purpose n.purpose
  pub expense : KeepsOption s.expense n.expense

abbrev pub clean_expense : Expense → Expense
clean_expense e = record e { description = blank_to_none e.description }

abbrev pub clean_option : Option Expense → Option Expense
clean_option none = none
clean_option (some e) = some (clean_expense e)

abbrev pub clean : CaseSubmission → CaseSubmission
clean s = record s { purpose = blank_to_none s.purpose; expense = clean_option s.expense }

blank_to_none-Cleaned : (o : Option String) → Cleaned o (blank_to_none o)
unfolding blank_to_none
blank_to_none-Cleaned none = refl
blank_to_none-Cleaned (some t) = ground arith

clean_option-Keeps : (e : Option Expense) → KeepsOption e (clean_option e)
clean_option-Keeps none = tt
clean_option-Keeps (some e) = record {
  category = refl;
  description = blank_to_none-Cleaned e.description;
  amount_vnd = refl;
  expense_date = refl;
  evidence_status = refl;
}

clean-Keeps : (s : CaseSubmission) → Keeps s (clean s)
clean-Keeps s = record {
  case_id = refl;
  submitted_at = refl;
  requester_role = refl;
  purpose = blank_to_none-Cleaned s.purpose;
  expense = clean_option-Keeps s.expense;
}

normalize_expense_clean :
    (e : Option Expense) → OptionIsValid e → normalize_expense e ≡ ok (clean_option e)
unfolding normalize_expense
normalize_expense_clean none h = refl
normalize_expense_clean (some e) h = rw ((new_expense_iff (clean_expense e)).1 h)

clean_option-IsValid : (e : Option Expense) → OptionIsValid e → OptionIsValid (clean_option e)
clean_option-IsValid none h = tt
clean_option-IsValid (some e) h = h

pub normalize_case-clean : (s : CaseSubmission) → CaseIsValid s → normalize_case s ≡ ok (clean s)
unfolding normalize_case
normalize_case-clean s h =
    rw (normalize_expense_clean s.expense h.1) ((new_case_iff (clean s)).1 h.0)

-- Of a submission that was constructed, normalization never raises. The normalized case is valid
-- again, its blank purpose and description have become `None`, and every other field, a purpose or
-- description that is not blank included, is the submission's.
pub normalize_case-Keeps :
    (s : CaseSubmission) → CaseIsValid s → Gives (λ n. CaseIsValid n × Keeps s n) (normalize_case s)
normalize_case-Keeps s h =
    rw (normalize_case-clean s h) ((h.0, clean_option-IsValid s.expense h.1), clean-Keeps s)
