-- ===== src/Policy/Evaluator.antt =====
-- backend/app/policy/evaluator.py
pub mod Drafts
pub mod Rules
pub mod Decision
pub mod Unique
pub mod Agreement
use organization_ai.Base.{
  String, Bool, true, false, not, ◌||◌, Option, none, some, List, [], ◌∷◌, if◌then◌else◌,
}
use organization_ai.Base.Int.{ℤ, ltb_ℤ}
use organization_ai.Base.Text.{format}
use organization_ai.Base.Text.Decimal.{int_text}
use organization_ai.Base.Result.{PyError, key_error, assertion_error, Result, ok, err, ◌>>=◌}
use organization_ai.Domain.Enums.{
  TemporaryCategory, EvidenceStatus, DecisionOutcome, tmp_req_01, tmp_cat_01, tmp_evd_01,
  tmp_aut_01, tmp_aut_02, category_value, evidence_value, same_category, same_evidence,
}
use organization_ai.Domain.Models.{
  Expense, NormalizedCase, TemporaryProfile, DecisionDraft, new_draft,
}
use organization_ai.Policy.Facts.{
  Fact, text, category, amount, date, evidence, optional, is_missing,
}
use organization_ai.Policy.Normalization.{question_by_field_path, lookup_text}

abbrev pub auto_approved_reason : String
auto_approved_reason = "Approved under temporary development profile; no payment was made."

abbrev pub evaluator_only_missing_fact_questions : List (String × String)
evaluator_only_missing_fact_questions =
    ("requester_role", "What is the synthetic requester role for this request?")
    ∷ ("expense", "What synthetic expense should this request cover?")
    ∷ []

-- The loop over a tuple of facts: the first path whose value is missing.
unfoldable pub first_missing : List (String × Fact) → Option String
unfolding is_missing
first_missing [] = none
first_missing ((path, value) ∷ facts) = if is_missing value then some path else first_missing facts

abbrev pub request_facts : NormalizedCase → List (String × Fact)
request_facts c =
    ("purpose", optional text c.purpose) ∷ ("requester_role", optional text c.requester_role) ∷ []

abbrev pub expense_facts : Expense → List (String × Fact)
expense_facts e =
    ("expense.category", optional category e.category)
    ∷ ("expense.description", optional text e.description)
    ∷ ("expense.amount_vnd", optional amount e.amount_vnd)
    ∷ ("expense.expense_date", optional date e.expense_date)
    ∷ ("expense.evidence_status", optional evidence e.evidence_status)
    ∷ []

unfoldable pub first_missing_expense_fact : Option Expense → Option String
unfolding first_missing
first_missing_expense_fact none = some "expense"
first_missing_expense_fact (some e) = first_missing (expense_facts e)

unfoldable pub first_missing_fact : NormalizedCase → Option String
unfolding first_missing first_missing_expense_fact
first_missing_fact c = elim (first_missing (request_facts c)) [
  | some path ↦ some path
  | none ↦ first_missing_expense_fact c.expense
]

-- `mapping[path]`
unfoldable pub question_at : String → List (String × String) → Result PyError String
question_at path questions = elim (lookup_text path questions) [
  | some question ↦ ok question
  | none ↦ err (key_error path)
]

-- The conditional expression: the shared wording if it has the path, else the evaluator's own.
unfoldable pub missing_fact_question : String → Result PyError String
unfolding question_at lookup_text
missing_fact_question path = elim (lookup_text path question_by_field_path) [
  | some question ↦ ok question
  | none ↦ question_at path evaluator_only_missing_fact_questions
]

unfoldable pub missing_draft : TemporaryProfile → String → String → DecisionDraft
missing_draft profile path question = record {
  outcome = DecisionOutcome.missing_fact;
  applied_rule_id = tmp_req_01;
  reason = format (
      "Required synthetic business fact '" ∷ path
      ∷ "' is missing under temporary development profile " ∷ profile.profile_id ∷ "." ∷ []);
  question = some question;
  profile_id = profile.profile_id;
}

unfoldable pub missing_fact_draft : TemporaryProfile → String → Result PyError DecisionDraft
unfolding missing_fact_question missing_draft
missing_fact_draft profile path = do
  question ← missing_fact_question path
  new_draft (missing_draft profile path question)

unfoldable pub category_draft : TemporaryProfile → TemporaryCategory → DecisionDraft
category_draft profile c = record {
  outcome = DecisionOutcome.out_of_policy;
  applied_rule_id = tmp_cat_01;
  reason = format (
      "Expense category '"
      ∷ category_value c
      ∷ "' is outside temporary development profile "
      ∷ profile.profile_id
      ∷ "."
      ∷ []);
  question = some "Do you authorize this temporary exception?";
  profile_id = profile.profile_id;
}

unfoldable pub evidence_draft : TemporaryProfile → EvidenceStatus → DecisionDraft
evidence_draft profile s = record {
  outcome = DecisionOutcome.missing_fact;
  applied_rule_id = tmp_evd_01;
  reason = format (
      "The declared expense evidence status is '"
      ∷ evidence_value s
      ∷ "', but temporary development profile "
      ∷ profile.profile_id
      ∷ " requires '"
      ∷ evidence_value profile.required_evidence_status
      ∷ "'."
      ∷ []);
  question = some "Can you provide the expense proof or reference?";
  profile_id = profile.profile_id;
}

unfoldable pub authority_draft : TemporaryProfile → ℤ → DecisionDraft
authority_draft profile n = record {
  outcome = DecisionOutcome.authority_exceeded;
  applied_rule_id = tmp_aut_02;
  reason = format (
      "Amount "
      ∷ int_text n
      ∷ " VND exceeds temporary development profile "
      ∷ profile.profile_id
      ∷ " delegated limit of "
      ∷ int_text profile.auto_approve_limit_vnd
      ∷ " VND."
      ∷ []);
  question =
      some
        (format ("Do you approve this named synthetic request for " ∷ int_text n ∷ " VND?" ∷ []));
  profile_id = profile.profile_id;
}

unfoldable pub approved_draft : TemporaryProfile → DecisionDraft
approved_draft profile = record {
  outcome = DecisionOutcome.auto_approved;
  applied_rule_id = tmp_aut_01;
  reason = auto_approved_reason;
  question = none;
  profile_id = profile.profile_id;
}

-- `assert value is not None`
unfoldable pub assert_present {ℓ} : {A : Type ℓ} → Option A → Result PyError A
assert_present none = err assertion_error
assert_present (some a) = ok a

-- `category in allowed_categories`
unfoldable pub category_in : TemporaryCategory → List TemporaryCategory → Bool
unfolding same_category
category_in c [] = false
category_in c (member ∷ members) = same_category c member || category_in c members

-- The rules behind the first, on the facts that they read.
unfoldable pub apply_rules :
    TemporaryProfile → TemporaryCategory → EvidenceStatus → ℤ → Result PyError DecisionDraft
unfolding category_in same_evidence category_draft evidence_draft authority_draft approved_draft
apply_rules profile c s n =
    if not (category_in c profile.allowed_categories)
    then new_draft (category_draft profile c)
    else if not (same_evidence s profile.required_evidence_status)
    then new_draft (evidence_draft profile s)
    else if ltb_ℤ profile.auto_approve_limit_vnd n
    then new_draft (authority_draft profile n)
    else new_draft (approved_draft profile)

unfoldable pub evaluate_present : Option Expense → TemporaryProfile → Result PyError DecisionDraft
unfolding assert_present apply_rules
evaluate_present expense? profile = do
  expense ← assert_present expense?
  c ← assert_present expense.category
  _ ← assert_present expense.description
  n ← assert_present expense.amount_vnd
  _ ← assert_present expense.expense_date
  s ← assert_present expense.evidence_status
  apply_rules profile c s n

unfoldable pub evaluate_case : NormalizedCase → TemporaryProfile → Result PyError DecisionDraft
unfolding first_missing_fact missing_fact_draft evaluate_present
evaluate_case c profile = elim (first_missing_fact c) [
  | some path ↦ missing_fact_draft profile path
  | none ↦ evaluate_present c.expense profile
]
