-- ===== src/Examples/Policy.antt =====
-- The policy theorems at concrete cases.
use organization_ai.Base.{none, some, Option, ◌≡◌, ◌↔◌, refl, arith}
use organization_ai.Base.Int.{ℤ, pos}
use organization_ai.Base.Text.{is_blank}
use organization_ai.Base.Result.{PyError, value_error, Result, ok, err, ◌>>=◌, Gives}
use organization_ai.Domain.Enums.{
  category_value, evidence_value, DecisionOutcome, test_allowed, present, tmp_aut_01,
}
use organization_ai.Domain.Models.{
  new_draft, PyObject, none_object, bool_object, int_object, Expense, CaseSubmission,
  validate_amount,
}
use organization_ai.Domain.Models.Validity.{CaseIsValid, Accepts, validate_amount_iff}
use organization_ai.Policy.Profile.{tmp_dev_001_profile, tmp_dev_001_profile-IsValid}
use organization_ai.Policy.Normalization.{blank_to_none, normalize_case, first_missing_field}
use organization_ai.Policy.Normalization.Laws.{Keeps, normalize_case-Keeps}
use organization_ai.Policy.Evaluator.{
  evaluate_present, apply_rules, evaluate_case, first_missing_fact,
}
use organization_ai.Policy.Evaluator.Drafts.{IsProper}
use organization_ai.Policy.Evaluator.Rules.{Decides, IsSolid}
use organization_ai.Policy.Evaluator.Decision.{evaluate_case-Decides}
use organization_ai.Policy.Evaluator.Unique.{approval_iff}
use organization_ai.Policy.Evaluator.Agreement.{evaluate-normalize, first_missing_field-eq_fact}

abbrev lunch : Expense
lunch = record {
  category = some test_allowed;
  description = some "lunch";
  amount_vnd = some (pos 900);
  expense_date = some 738000;
  evidence_status = some present;
}

abbrev request : CaseSubmission
request = record {
  case_id = "case-1";
  submitted_at = 0;
  requester_role = some "member";
  purpose = some "  ";
  expense = some lunch;
}

abbrev complete_request : CaseSubmission
complete_request = record request { purpose = some "club meeting" }

request-IsValid : CaseIsValid request
unfolding is_blank
request-IsValid = (refl, omega arith)

evaluate_request :
    (evaluate_case complete_request tmp_dev_001_profile
      ≡ ok (record {
        outcome = DecisionOutcome.auto_approved;
        applied_rule_id = tmp_aut_01;
        reason = "Approved under temporary development profile; no payment was made.";
        question = none;
        profile_id = "TMP-DEV-001";
      }))
    × (first_missing_fact request ≡ some "purpose")
unfolding evaluate_case is_blank evaluate_present category_value evidence_value new_draft
    apply_rules
evaluate_request = (refl, refl)

evaluate_case-Decides_example :
    Gives
      (λ d. IsProper tmp_dev_001_profile d × Decides tmp_dev_001_profile request d.applied_rule_id)
      (evaluate_case request tmp_dev_001_profile)
evaluate_case-Decides_example =
    evaluate_case-Decides request tmp_dev_001_profile tmp_dev_001_profile-IsValid

approval_iff_example :
    Gives
      (λ d.
        (d.outcome ≡ DecisionOutcome.auto_approved)
        ↔ Decides tmp_dev_001_profile complete_request tmp_aut_01)
      (evaluate_case complete_request tmp_dev_001_profile)
approval_iff_example = approval_iff complete_request tmp_dev_001_profile tmp_dev_001_profile-IsValid

normalize_case-Keeps_example : Gives (λ n. CaseIsValid n × Keeps request n) (normalize_case request)
normalize_case-Keeps_example = normalize_case-Keeps request request-IsValid

evaluate-normalize_example :
    (normalize_case request >>= λ n. evaluate_case n tmp_dev_001_profile)
    ≡ evaluate_case request tmp_dev_001_profile
evaluate-normalize_example = evaluate-normalize request tmp_dev_001_profile request-IsValid

purpose_kept : blank_to_none complete_request.purpose ≡ complete_request.purpose
unfolding blank_to_none is_blank
purpose_kept = refl

description_kept : blank_to_none lunch.description ≡ lunch.description
unfolding blank_to_none is_blank
description_kept = refl

role-IsSolid : IsSolid complete_request.requester_role
unfolding is_blank
role-IsSolid = refl

first_missing_field-eq_fact_example :
    first_missing_field complete_request ≡ ok (first_missing_fact complete_request)
first_missing_field-eq_fact_example =
    first_missing_field-eq_fact complete_request lunch purpose_kept description_kept role-IsSolid
      refl

-- A lax field parser, which would read `True` as 1.
abbrev lax_parse : PyObject → Result PyError (Option ℤ)
lax_parse none_object = ok none
lax_parse (int_object n) = ok (some n)
lax_parse (bool_object _) = ok (some (pos 1))
lax_parse _ = err (value_error "not an integer")

validate_amount_iff_example :
    (validate_amount lax_parse (int_object (pos 900)) ≡ ok (some (pos 900)))
    ↔ Accepts (int_object (pos 900)) (some (pos 900))
validate_amount_iff_example =
    validate_amount_iff lax_parse (λ n. refl) refl (int_object (pos 900)) (some (pos 900))
