-- ===== src/Policy/Evaluator/Drafts.antt =====
-- The drafts that the evaluator builds pass the draft's own validators, and every missing fact that
-- it can name has its question.
use organization_ai.Base.{
  String, All, Option, none, some, List, [], ◌∷◌, ◌≡◌, refl, arith, Bool-cases, inl, inr,
  Option-cases, ◌∙◌,
}
use organization_ai.Base.Int.{ℤ}
use organization_ai.Base.Text.{is_space}
use organization_ai.Base.Text.Blank.{is_blank-format, is_blank-eq-all}
use organization_ai.Base.Result.{Gives, PyError, Result, ok, err, ◌>>=◌}
use organization_ai.Domain.Enums.{
  TemporaryCategory, EvidenceStatus, DecisionOutcome, TemporaryRuleId, tmp_req_01, tmp_cat_01,
  tmp_evd_01, tmp_aut_01, tmp_aut_02,
}
use organization_ai.Domain.Models.{
  Expense, NormalizedCase, TemporaryProfile, DecisionDraft, new_draft,
}
use organization_ai.Domain.Models.Validity.{ProfileIsValid, DraftIsValid, new_draft_iff}
use organization_ai.Policy.Facts.{Fact, is_missing}
use organization_ai.Policy.Evaluator.{
  missing_draft, request_facts, expense_facts, first_missing, first_missing_expense_fact,
  first_missing_fact, missing_fact_question, missing_fact_draft, category_draft, evidence_draft,
  authority_draft, approved_draft,
}

abbrev pub rule_outcome : TemporaryRuleId → DecisionOutcome
rule_outcome tmp_req_01 = DecisionOutcome.missing_fact
rule_outcome tmp_cat_01 = DecisionOutcome.out_of_policy
rule_outcome tmp_evd_01 = DecisionOutcome.missing_fact
rule_outcome tmp_aut_01 = DecisionOutcome.auto_approved
rule_outcome tmp_aut_02 = DecisionOutcome.authority_exceeded

abbrev pub AsksUnlessApproved : TemporaryRuleId → Option String → Type 0
AsksUnlessApproved tmp_aut_01 none = Unit
AsksUnlessApproved tmp_aut_01 (some _) = ⊥
AsksUnlessApproved _ none = ⊥
AsksUnlessApproved _ (some _) = Unit

-- What every draft of the evaluator satisfies.
pub record IsProper (p : TemporaryProfile) (d : DecisionDraft) : Type 0 where
  pub valid : DraftIsValid d
  pub outcome : d.outcome ≡ rule_outcome d.applied_rule_id
  pub profile : d.profile_id ≡ p.profile_id
  pub question : AsksUnlessApproved d.applied_rule_id d.question

pub new_draft-Gives :
    (P : DecisionDraft → Type 0) (d : DecisionDraft) → DraftIsValid d → P d → Gives P (new_draft d)
new_draft-Gives P d valid h = rw ((new_draft_iff d).1 valid) h

-- The lookup of a question for the path does not raise.
abbrev pub HasQuestion : String → Type 0
HasQuestion path = Gives (λ _. Unit {0}) (missing_fact_question path)

module _ (p : TemporaryProfile) (valid : ProfileIsValid p) where
  pub category_draft-IsProper : (c : TemporaryCategory) → IsProper p (category_draft p c)
  unfolding category_draft is_space
  category_draft-IsProper c = record {
    valid = (is_blank-format _ _, valid.0);
    outcome = refl;
    profile = refl;
    question = tt;
  }

  pub evidence_draft-IsProper : (s : EvidenceStatus) → IsProper p (evidence_draft p s)
  unfolding evidence_draft is_space
  evidence_draft-IsProper s = record {
    valid = (is_blank-format _ _, valid.0);
    outcome = refl;
    profile = refl;
    question = tt;
  }

  pub authority_draft-IsProper : (n : ℤ) → IsProper p (authority_draft p n)
  unfolding authority_draft is_space
  authority_draft-IsProper n = record {
    valid = (is_blank-format _ _, valid.0);
    outcome = refl;
    profile = refl;
    question = tt;
  }

  pub approved_draft-IsProper : IsProper p (approved_draft p)
  unfolding approved_draft is_space
  approved_draft-IsProper = record {
    valid = (is_blank-eq-all _, valid.0);
    outcome = refl;
    profile = refl;
    question = tt;
  }

  pub missing_draft-IsProper : (path question : String) → IsProper p (missing_draft p path question)
  unfolding missing_draft is_space
  missing_draft-IsProper path question = record {
    valid = (is_blank-format _ _, valid.0);
    outcome = refl;
    profile = refl;
    question = tt;
  }

  pub missing_fact_draft-Gives :
      (path : String)
      → HasQuestion path
      → Gives (λ d. IsProper p d × (d.applied_rule_id ≡ tmp_req_01)) (missing_fact_draft p path)
  unfolding missing_fact_draft
  missing_fact_draft-Gives path asked = with_question (missing_fact_question path) asked
    where
      with_question :
          (r : Result PyError String)
          → Gives (λ _. Unit {0}) r
          → Gives
              (λ d. IsProper p d × (d.applied_rule_id ≡ tmp_req_01))
              (r >>= λ question. new_draft (missing_draft p path question))
      with_question (ok question) h =
          let proper = missing_draft-IsProper path question in
          new_draft-Gives (λ d. IsProper p d × (d.applied_rule_id ≡ tmp_req_01))
            (missing_draft p path question) proper.valid (proper, refl)
      with_question (err e) h = absurd h

first_missing-HasQuestion :
    (facts : List (String × Fact)) (path : String)
    → All (λ (entry : String × Fact). HasQuestion entry.0) facts
    → first_missing facts ≡ some path
    → HasQuestion path
unfolding first_missing
first_missing-HasQuestion [] path h e = absurd (ground arith)
first_missing-HasQuestion ((name, value) ∷ facts) path h e = elim (Bool-cases (is_missing value)) [
  | inl gone ↦ let here : name ≡ path = ground arith in rw (← here) h.0
  | inr there ↦ first_missing-HasQuestion facts path h.1 (ground arith)
]

request_facts-HasQuestion :
    (c : NormalizedCase) → All (λ (entry : String × Fact). HasQuestion entry.0) (request_facts c)
unfolding missing_fact_question
request_facts-HasQuestion c = (tt, (tt, tt))

expense_facts-HasQuestion :
    (e : Expense) → All (λ (entry : String × Fact). HasQuestion entry.0) (expense_facts e)
unfolding missing_fact_question
expense_facts-HasQuestion e = (tt, (tt, (tt, (tt, (tt, tt)))))

first_missing_expense_fact-HasQuestion :
    (e : Option Expense) (path : String)
    → first_missing_expense_fact e ≡ some path
    → HasQuestion path
unfolding first_missing_expense_fact missing_fact_question
first_missing_expense_fact-HasQuestion none path h =
    let here : "expense" ≡ path = ground arith in rw (← here) tt
first_missing_expense_fact-HasQuestion (some e) path h =
    first_missing-HasQuestion (expense_facts e) path (expense_facts-HasQuestion e) h

-- No lookup of a question raises `KeyError`.
pub first_missing_fact-HasQuestion :
    (c : NormalizedCase) (path : String) → first_missing_fact c ≡ some path → HasQuestion path
unfolding first_missing_fact
first_missing_fact-HasQuestion c path h = elim (Option-cases (first_missing (request_facts c))) [
  | inl later ↦
      first_missing_expense_fact-HasQuestion c.expense path (rw (later, first_missing_fact) at h)
  | inr (name, here) ↦
      first_missing-HasQuestion (request_facts c) path (request_facts-HasQuestion c)
        (here ∙ (rw (here, first_missing_fact) at h))
]
