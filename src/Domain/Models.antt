-- ===== src/Domain/Models.antt =====
-- backend/app/domain/models.py: the record shapes and their field validators. A call of a model's
-- class is a function from the given field values to the checked record, or a raise: pydantic runs
-- the validators and stores what they return. Dates and times are only stored, so they are numbers.
pub mod Validity
use organization_ai.Base.{ℕ, String, Bool, Option, none, some, List, ◌≡◌, if◌then◌else◌}
use organization_ai.Base.Int.{ℤ, pos, leb_ℤ}
use organization_ai.Base.Text.{is_blank}
use organization_ai.Base.Result.{PyError, value_error, Result, ok, err, ◌>>=◌}
use organization_ai.Domain.Enums.{
  TemporaryCategory, EvidenceStatus, DecisionOutcome, TemporaryRuleId, ProfileSource, DataClass,
  WorkflowValidationStatus,
}

-- `datetime.date`, as a day number
abbrev pub Date : Type 0
Date = ℕ

-- `datetime.datetime`, as microseconds
abbrev pub Datetime : Type 0
Datetime = ℕ

-- What a `mode="before"` validator is given: `bool` is a subclass of `int`.
pub data PyObject : Type 0 where
  none_object : PyObject
  bool_object : Bool → PyObject
  int_object : ℤ → PyObject
  str_object : String → PyObject
  float_object : ℕ → PyObject

pub record Expense : Type 0 where
  pub category : Option TemporaryCategory
  pub description : Option String
  pub amount_vnd : Option ℤ
  pub expense_date : Option Date
  pub evidence_status : Option EvidenceStatus

-- `isinstance(value, bool) or not isinstance(value, int)`
unfoldable pub require_integer : String → PyObject → Result PyError PyObject
require_integer message (int_object n) = ok (int_object n)
require_integer message _ = err (value_error message)

unfoldable pub reject_boolean_or_non_integer_amount : PyObject → Result PyError PyObject
unfolding require_integer
reject_boolean_or_non_integer_amount none_object = ok none_object
reject_boolean_or_non_integer_amount value = require_integer "amount_vnd must be an integer" value

unfoldable pub reject_non_positive_amount : Option ℤ → Result PyError (Option ℤ)
reject_non_positive_amount none = ok none
reject_non_positive_amount (some value) =
    if leb_ℤ value (pos 0)
    then err (value_error "amount_vnd must be a positive integer")
    else ok (some value)

-- The validators of `amount_vnd`, around pydantic's own reading of an `int | None` field.
module _ (parse_optional_int : PyObject → Result PyError (Option ℤ)) where
  unfoldable pub validate_amount : PyObject → Result PyError (Option ℤ)
  unfolding reject_boolean_or_non_integer_amount reject_non_positive_amount
  validate_amount value = do
    checked ← reject_boolean_or_non_integer_amount value
    amount ← parse_optional_int checked
    reject_non_positive_amount amount

-- `Expense(…)` on values of the declared types: an `int` or `None` passes the first validator.
unfoldable pub new_expense : Expense → Result PyError Expense
unfolding reject_non_positive_amount
new_expense e = do
  amount ← reject_non_positive_amount e.amount_vnd
  ok (record e { amount_vnd = amount })

pub record CaseSubmission : Type 0 where
  pub case_id : String
  pub submitted_at : Datetime
  pub requester_role : Option String
  pub purpose : Option String
  pub expense : Option Expense

-- the body shared by the validators of `case_id`, `profile_id` and `reason`
unfoldable pub require_non_blank : String → String → Result PyError String
require_non_blank message value = if is_blank value then err (value_error message) else ok value

-- `CaseSubmission(…)`, and `NormalizedCase(…)`, which inherits the validator
unfoldable pub new_case : CaseSubmission → Result PyError CaseSubmission
unfolding require_non_blank
new_case c = do
  case_id ← require_non_blank "case_id must not be blank" c.case_id
  ok (record c { case_id = case_id })

-- A subclass that adds nothing.
abbrev pub NormalizedCase : Type 0
NormalizedCase = CaseSubmission

pub record TemporaryProfile : Type 0 where
  pub profile_id : String
  pub profile_source : ProfileSource
  pub data_class : DataClass
  pub workflow_validation_status : WorkflowValidationStatus
  pub allowed_categories : List TemporaryCategory
  pub required_evidence_status : EvidenceStatus
  pub auto_approve_limit_vnd : ℤ

unfoldable pub reject_boolean_or_non_integer_limit : PyObject → Result PyError PyObject
unfolding require_integer
reject_boolean_or_non_integer_limit value =
    require_integer "auto_approve_limit_vnd must be an integer" value

unfoldable pub reject_non_positive_limit : ℤ → Result PyError ℤ
reject_non_positive_limit value =
    if leb_ℤ value (pos 0)
    then err (value_error "auto_approve_limit_vnd must be a positive integer")
    else ok value

unfoldable pub new_profile : TemporaryProfile → Result PyError TemporaryProfile
unfolding require_non_blank reject_non_positive_limit
new_profile p = do
  profile_id ← require_non_blank "profile_id must not be blank" p.profile_id
  limit ← reject_non_positive_limit p.auto_approve_limit_vnd
  ok (record p { profile_id = profile_id; auto_approve_limit_vnd = limit })

pub record DecisionDraft : Type 0 where
  pub outcome : DecisionOutcome
  pub applied_rule_id : TemporaryRuleId
  pub reason : String
  pub question : Option String
  pub profile_id : String

unfoldable pub new_draft : DecisionDraft → Result PyError DecisionDraft
unfolding require_non_blank
new_draft d = do
  reason ← require_non_blank "reason must not be blank" d.reason
  profile_id ← require_non_blank "profile_id must not be blank" d.profile_id
  ok (record d { reason = reason; profile_id = profile_id })
