-- ===== src/Policy/Evaluator/Decision.antt =====
-- `evaluate_case` of backend/app/policy/evaluator.py as a whole.
use organization_ai.Base.{String, Option, none, some, ◌≡◌, ◌≢◌, refl, inl, inr, Option-cases}
use organization_ai.Base.Int.{ℤ}
use organization_ai.Base.Result.{Gives, Gives-map}
use organization_ai.Domain.Enums.{TemporaryCategory, EvidenceStatus, tmp_req_01}
use organization_ai.Domain.Models.{Expense, NormalizedCase, TemporaryProfile, Date}
use organization_ai.Domain.Models.Validity.{ProfileIsValid}
use organization_ai.Policy.Facts.{is_missing}
use organization_ai.Policy.Evaluator.{
  first_missing, first_missing_expense_fact, first_missing_fact, request_facts, expense_facts,
  missing_fact_draft, apply_rules, assert_present, evaluate_present, evaluate_case,
}
use organization_ai.Policy.Evaluator.Drafts.{
  IsProper, missing_fact_draft-Gives, first_missing_fact-HasQuestion,
}
use organization_ai.Policy.Evaluator.Rules.{
  IsComplete, IsSolid, Decides, fact_missing, apply_rules-Decides, first_missing-none, text-IsSolid,
  date_given, category_not_missing, evidence_not_missing, request_complete, IsComplete-of_none,
}

solid_text : (o : Option String) → IsSolid o → (t : String) × (o ≡ some t)
solid_text none h = absurd h
solid_text (some t) h = (t, refl)

date_value : (o : Option Date) → o ≢ none → (t : Date) × (o ≡ some t)
date_value none h = absurd (h refl)
date_value (some t) h = (t, refl)

module _ {c : NormalizedCase} {e : Expense} {k : TemporaryCategory} {s : EvidenceStatus} {n : ℤ}
    (full : IsComplete c e k s n) where
  expense_not_missing : first_missing (expense_facts e) ≡ none
  unfolding is_missing
  expense_not_missing = (first_missing-none (expense_facts e)).1 (
    rw full.category (category_not_missing k),
    (
      (text-IsSolid e.description).1 full.description,
      (
        rw full.amount refl,
        ((date_given e.expense_date).1 full.date, (rw full.evidence (evidence_not_missing s), tt)),
      ),
    ),
  )

  pub none_of_complete : first_missing_fact c ≡ none
  unfolding first_missing_fact first_missing_expense_fact
  none_of_complete =
      rw ((request_complete c).1 (full.purpose, full.role), first_missing_fact, full.expense)
        expense_not_missing

  -- With every fact given no `assert` fails.
  pub evaluate_present_complete :
      (p : TemporaryProfile) → evaluate_present c.expense p ≡ apply_rules p k s n
  unfolding evaluate_present assert_present
  evaluate_present_complete p =
      let (t, at_t) = solid_text e.description full.description in
      let (u, at_u) = date_value e.expense_date full.date in
      rw (full.expense, full.category, at_t, full.amount, at_u, full.evidence)

pub evaluate_case_missing :
    (c : NormalizedCase) (p : TemporaryProfile) (path : String)
    → first_missing_fact c ≡ some path
    → evaluate_case c p ≡ missing_fact_draft p path
unfolding evaluate_case
evaluate_case_missing c p path h = rw (h, evaluate_case)

pub evaluate_case_present :
    (c : NormalizedCase) (p : TemporaryProfile)
    → first_missing_fact c ≡ none
    → evaluate_case c p ≡ evaluate_present c.expense p
unfolding evaluate_case
evaluate_case_present c p h = rw (h, evaluate_case)

-- What the loops leave, when they find nothing.
pub all_given :
    (c : NormalizedCase)
    → first_missing_fact c ≡ none
    → (first_missing (request_facts c) ≡ none) × (first_missing_expense_fact c.expense ≡ none)
unfolding first_missing_fact
all_given c h = elim (Option-cases (first_missing (request_facts c))) [
  | inl request ↦ (request, rw (request, first_missing_fact) at h)
  | inr (path, found) ↦
      let clash : some path ≡ none = rw (found, first_missing_fact) at h in absurd (cc)
]

Decides-fact_missing :
    (c : NormalizedCase) (p : TemporaryProfile) (path : String)
    → first_missing_fact c ≡ some path
    → Decides p c tmp_req_01
Decides-fact_missing c p path missing =
    fact_missing λ e k s n full. let none_missing = none_of_complete full in cc

-- With a valid profile the evaluator returns, and never raises: the draft passes its validators,
-- names the profile, has the outcome of its rule and a question unless it approves, and its rule is
-- the one that decides the case.
pub evaluate_case-Decides :
    (c : NormalizedCase) (p : TemporaryProfile)
    → ProfileIsValid p
    → Gives (λ d. IsProper p d × Decides p c d.applied_rule_id) (evaluate_case c p)
evaluate_case-Decides c p valid = elim (Option-cases (first_missing_fact c)) [
  | inr (path, missing) ↦ rw (evaluate_case_missing c p path missing) (
      Gives-map (missing_fact_draft p path)
        (λ d h. (h.0, rw (h.1) (Decides-fact_missing c p path missing)))
        (missing_fact_draft-Gives p valid path (first_missing_fact-HasQuestion c path missing)))
  | inl given ↦
      let (request, expense) = all_given c given in
      let (e, k, s, n, full) = IsComplete-of_none c c.expense refl request expense in
      rw (evaluate_case_present c p given, evaluate_present_complete full p)
        (apply_rules-Decides p c k s n valid full)
]
