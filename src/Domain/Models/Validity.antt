-- ===== src/Domain/Models/Validity.antt =====
-- Which field values the models of backend/app/domain/models.py accept.
use organization_ai.Base.{false, Option, none, some, ◌≡◌, ◌↔◌, arith}
use organization_ai.Base.Int.{ℤ, pos, ◌<ℤ◌}
use organization_ai.Base.Text.{is_blank}
use organization_ai.Base.Result.{PyError, Result, ok}
use organization_ai.Domain.Models.{
  PyObject, none_object, bool_object, int_object, str_object, float_object, validate_amount,
  Expense, CaseSubmission, TemporaryProfile, DecisionDraft, reject_non_positive_amount, new_expense,
  new_case, new_profile, new_draft,
}

abbrev pub IsPositive : Option ℤ → Type 0
IsPositive none = Unit
IsPositive (some n) = pos 0 <ℤ n

abbrev pub ExpenseIsValid : Expense → Type 0
ExpenseIsValid e = IsPositive e.amount_vnd

abbrev pub OptionIsValid : Option Expense → Type 0
OptionIsValid none = Unit
OptionIsValid (some e) = ExpenseIsValid e

-- What a constructed `CaseSubmission` satisfies, its expense included.
abbrev pub CaseIsValid : CaseSubmission → Type 0
CaseIsValid c = (is_blank c.case_id ≡ false) × OptionIsValid c.expense

abbrev pub ProfileIsValid : TemporaryProfile → Type 0
ProfileIsValid p = (is_blank p.profile_id ≡ false) × (pos 0 <ℤ p.auto_approve_limit_vnd)

abbrev pub DraftIsValid : DecisionDraft → Type 0
DraftIsValid d = (is_blank d.reason ≡ false) × (is_blank d.profile_id ≡ false)

pub reject_non_positive_amount_iff :
    (a : Option ℤ) → (reject_non_positive_amount a ≡ ok a) ↔ IsPositive a
unfolding reject_non_positive_amount
reject_non_positive_amount_iff none = ground arith
reject_non_positive_amount_iff (some n) = ground arith

pub new_expense_iff : (e : Expense) → (new_expense e ≡ ok e) ↔ ExpenseIsValid e
unfolding new_expense
new_expense_iff e = ground arith

pub new_case_iff : (c : CaseSubmission) → (new_case c ≡ ok c) ↔ (is_blank c.case_id ≡ false)
unfolding new_case
new_case_iff c = ground arith

pub new_profile_iff : (p : TemporaryProfile) → (new_profile p ≡ ok p) ↔ ProfileIsValid p
unfolding new_profile
new_profile_iff p = ground arith

pub new_draft_iff : (d : DecisionDraft) → (new_draft d ≡ ok d) ↔ DraftIsValid d
unfolding new_draft
new_draft_iff d = ground arith

-- The amounts that may be given: nothing, or a positive integer that is no `bool`.
abbrev pub Accepts : PyObject → Option ℤ → Type 0
Accepts none_object none = Unit
Accepts (int_object n) (some m) = (m ≡ n) × (pos 0 <ℤ n)
Accepts _ _ = ⊥

module _ (parse_optional_int : PyObject → Result PyError (Option ℤ))
    (parse_int : (n : ℤ) → parse_optional_int (int_object n) ≡ ok (some n))
    (parse_none : parse_optional_int none_object ≡ ok none) where
  -- The two validators of `amount_vnd`, around a field parser that reads integers and `None` as
  -- they are, accept exactly `None` and the positive integers: no `bool`, text or float passes,
  -- whatever that parser makes of it.
  pub validate_amount_iff :
      (value : PyObject) (a : Option ℤ)
      → (validate_amount parse_optional_int value ≡ ok a) ↔ Accepts value a
  unfolding validate_amount
  validate_amount_iff none_object none = rw parse_none (ground arith)
  validate_amount_iff none_object (some m) = rw parse_none (ground arith)
  validate_amount_iff (int_object n) none = rw parse_int (ground arith)
  validate_amount_iff (int_object n) (some m) = rw parse_int (ground arith)
  validate_amount_iff (bool_object b) a = ground arith
  validate_amount_iff (str_object s) a = ground arith
  validate_amount_iff (float_object x) a = ground arith
