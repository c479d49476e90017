-- ===== src/Policy/Evaluator/Agreement.antt =====
-- How the two layers of backend/app/policy agree: the evaluator on a case and on its normalized form,
-- and the first missing field of either layer.
use organization_ai.Base.{
  String, Option, none, some, ◌≡◌, refl, arith, sym, ap, ◌∙◌, Option-cases, inl, inr,
}
use organization_ai.Base.Int.{ℤ}
use organization_ai.Base.Result.{ok, ◌>>=◌}
use organization_ai.Domain.Enums.{TemporaryCategory, EvidenceStatus}
use organization_ai.Domain.Models.{Expense, CaseSubmission, NormalizedCase, TemporaryProfile, Date}
use organization_ai.Domain.Models.Validity.{CaseIsValid}
use organization_ai.Policy.Facts.{
  text, category, amount, date, evidence, optional, is_none, is_missing,
}
use organization_ai.Policy.Normalization.{blank_to_none, normalize_case, first_missing_field}
use organization_ai.Policy.Normalization.Laws.{
  clean, clean_option, clean_expense, normalize_case-clean,
}
use organization_ai.Policy.Evaluator.{
  first_missing, first_missing_expense_fact, first_missing_fact, evaluate_case,
}
use organization_ai.Policy.Evaluator.Rules.{
  IsComplete, IsSolid, text-IsSolid, IsComplete-of_none, category_not_missing, evidence_not_missing,
}
use organization_ai.Policy.Evaluator.Decision.{
  evaluate_case_missing, evaluate_case_present, evaluate_present_complete, all_given,
}

is_missing_cleaned :
    (o : Option String)
    → is_missing (optional text (blank_to_none o)) ≡ is_missing (optional text o)
unfolding is_missing blank_to_none
is_missing_cleaned none = refl
is_missing_cleaned (some t) = ground arith

first_missing_expense_fact_clean :
    (e : Option Expense)
    → first_missing_expense_fact (clean_option e) ≡ first_missing_expense_fact e
unfolding first_missing_expense_fact first_missing
first_missing_expense_fact_clean none = refl
first_missing_expense_fact_clean (some e) = rw (is_missing_cleaned e.description)

-- Blank text is missing already, so cleaning it away moves no case to another first missing fact.
first_missing_fact-clean :
    (s : CaseSubmission) → first_missing_fact (clean s) ≡ first_missing_fact s
unfolding first_missing_fact first_missing
first_missing_fact-clean s =
    ground (arith, is_missing_cleaned s.purpose, first_missing_expense_fact_clean s.expense)

IsSolid-clean : (o : Option String) → IsSolid o → IsSolid (blank_to_none o)
unfolding blank_to_none
IsSolid-clean none h = h
IsSolid-clean (some t) h = rw h h

IsComplete-clean :
    {s : CaseSubmission} {e : Expense} {k : TemporaryCategory} {v : EvidenceStatus} {n : ℤ}
    → IsComplete s e k v n
    → IsComplete (clean s) (clean_expense e) k v n
IsComplete-clean {s} {e} f = record {
  purpose = IsSolid-clean s.purpose f.purpose;
  role = f.role;
  expense = ap clean_option f.expense;
  category = f.category;
  description = IsSolid-clean e.description f.description;
  amount = f.amount;
  date = f.date;
  evidence = f.evidence;
}

evaluate_case-clean :
    (s : CaseSubmission) (p : TemporaryProfile) → evaluate_case (clean s) p ≡ evaluate_case s p
evaluate_case-clean s p = elim (Option-cases (first_missing_fact s)) [
  | inr (path, missing) ↦
      evaluate_case_missing (clean s) p path (first_missing_fact-clean s ∙ missing)
      ∙ sym (evaluate_case_missing s p path missing)
  | inl given ↦
      let (request, expense) = all_given s given in
      let (e, k, v, n, full) = IsComplete-of_none s s.expense refl request expense in
      evaluate_case_present (clean s) p (first_missing_fact-clean s ∙ given)
      ∙ evaluate_present_complete (IsComplete-clean full) p
      ∙ sym (evaluate_present_complete full p)
      ∙ sym (evaluate_case_present s p given)
]

-- Normalizing a constructed submission does not change its decision: evaluating the normalized case
-- gives the very draft that evaluating the submission as it stands would give.
pub evaluate-normalize :
    (s : CaseSubmission) (p : TemporaryProfile)
    → CaseIsValid s
    → (normalize_case s >>= λ n. evaluate_case n p) ≡ evaluate_case s p
evaluate-normalize s p valid = rw (normalize_case-clean s valid) (evaluate_case-clean s p)

-- What the layer 1 helper tests is what the evaluator tests, where no text is blank.
is_none_text :
    (o : Option String)
    → blank_to_none o ≡ o
    → is_none (optional text o) ≡ is_missing (optional text o)
unfolding is_none is_missing blank_to_none
is_none_text none h = refl
is_none_text (some t) h = ground arith

is_none_category :
    (o : Option TemporaryCategory)
    → is_none (optional category o) ≡ is_missing (optional category o)
unfolding is_none
is_none_category none = unfold is_missing in refl
is_none_category (some k) = sym (category_not_missing k)

is_none_evidence :
    (o : Option EvidenceStatus) → is_none (optional evidence o) ≡ is_missing (optional evidence o)
unfolding is_none
is_none_evidence none = unfold is_missing in refl
is_none_evidence (some k) = sym (evidence_not_missing k)

is_none_amount : (o : Option ℤ) → is_none (optional amount o) ≡ is_missing (optional amount o)
unfolding is_none is_missing
is_none_amount none = refl
is_none_amount (some n) = refl

is_none_date : (o : Option Date) → is_none (optional date o) ≡ is_missing (optional date o)
unfolding is_none is_missing
is_none_date none = refl
is_none_date (some n) = refl

-- On a case with a requester role, an expense and no blank text, the layer 1 helper never raises and
-- names the same first missing field as the evaluator's own search, or none if that finds none.
pub first_missing_field-eq_fact :
    (c : NormalizedCase) (e : Expense)
    → blank_to_none c.purpose ≡ c.purpose
    → blank_to_none e.description ≡ e.description
    → IsSolid c.requester_role
    → c.expense ≡ some e
    → first_missing_field c ≡ ok (first_missing_fact c)
unfolding first_missing_field first_missing_fact
first_missing_field-eq_fact c e purpose description role there =
    rw
      (
        there,
        is_none_text c.purpose purpose,
        is_none_category e.category,
        is_none_text e.description description,
        is_none_amount e.amount_vnd,
        is_none_date e.expense_date,
        is_none_evidence e.evidence_status,
      )
      (ground (arith, (text-IsSolid c.requester_role).1 role))
