-- ===== src/Policy/Evaluator/Rules.antt =====
-- The decision of backend/app/policy/evaluator.py, rule by rule, against a declarative account.
use organization_ai.Base.{
  String, All, true, false, Option, none, some, List, [], ◌∷◌, ◌≡◌, ◌≢◌, ◌⊎◌, ◌↔◌, refl, arith, inl,
  inr, Bool-cases,
}
use organization_ai.Base.Int.{ℤ, ltb_ℤ, ◌<ℤ◌, ◌≤ℤ◌}
use organization_ai.Base.Text.{is_blank}
use organization_ai.Base.Result.{Gives}
use organization_ai.Domain.Enums.{
  TemporaryCategory, test_allowed, test_blocked, EvidenceStatus, present, not_provided,
  TemporaryRuleId, tmp_req_01, tmp_cat_01, tmp_evd_01, tmp_aut_01, tmp_aut_02, category_value,
  evidence_value, same_category_iff, same_evidence_iff, same_evidence,
}
use organization_ai.Domain.Models.{
  Expense, NormalizedCase, TemporaryProfile, DecisionDraft, new_draft, Date,
}
use organization_ai.Domain.Models.Validity.{ProfileIsValid}
use organization_ai.Policy.Facts.{
  Fact, text, category, amount, date, evidence, optional, is_missing,
}
use organization_ai.Policy.Evaluator.{
  first_missing, first_missing_expense_fact, request_facts, expense_facts, category_in,
  category_draft, evidence_draft, authority_draft, approved_draft, apply_rules,
}
use organization_ai.Policy.Evaluator.Drafts.{
  IsProper, new_draft-Gives, category_draft-IsProper, evidence_draft-IsProper,
  authority_draft-IsProper, approved_draft-IsProper,
}

abbrev pub IsSolid : Option String → Type 0
IsSolid none = ⊥
IsSolid (some s) = is_blank s ≡ false

-- Every business fact of the request is given.
pub record IsComplete (c : NormalizedCase) (e : Expense) (k : TemporaryCategory)
    (s : EvidenceStatus) (n : ℤ) : Type 0 where
  pub purpose : IsSolid c.purpose
  pub role : IsSolid c.requester_role
  pub expense : c.expense ≡ some e
  pub category : e.category ≡ some k
  pub description : IsSolid e.description
  pub amount : e.amount_vnd ≡ some n
  pub date : e.expense_date ≢ none
  pub evidence : e.evidence_status ≡ some s

abbrev pub IsAllowed : TemporaryCategory → List TemporaryCategory → Type 0
IsAllowed k [] = ⊥
IsAllowed k (member ∷ members) = (k ≡ member) ⊎ IsAllowed k members

-- The rule that decides a case, in the documented order of the rules.
pub data Decides (p : TemporaryProfile) (c : NormalizedCase) : TemporaryRuleId → Type 0 where
  fact_missing :
      ((e : Expense) (k : TemporaryCategory) (s : EvidenceStatus) (n : ℤ) → ¬ IsComplete c e k s n)
      → Decides p c tmp_req_01
  not_allowed :
      {e : Expense} {k : TemporaryCategory} {s : EvidenceStatus} {n : ℤ}
      → IsComplete c e k s n
      → ¬ IsAllowed k p.allowed_categories
      → Decides p c tmp_cat_01
  unproved :
      {e : Expense} {k : TemporaryCategory} {s : EvidenceStatus} {n : ℤ}
      → IsComplete c e k s n
      → IsAllowed k p.allowed_categories
      → s ≢ p.required_evidence_status
      → Decides p c tmp_evd_01
  over_limit :
      {e : Expense} {k : TemporaryCategory} {s : EvidenceStatus} {n : ℤ}
      → IsComplete c e k s n
      → IsAllowed k p.allowed_categories
      → s ≡ p.required_evidence_status
      → p.auto_approve_limit_vnd <ℤ n
      → Decides p c tmp_aut_02
  within_limit :
      {e : Expense} {k : TemporaryCategory} {s : EvidenceStatus} {n : ℤ}
      → IsComplete c e k s n
      → IsAllowed k p.allowed_categories
      → s ≡ p.required_evidence_status
      → n ≤ℤ p.auto_approve_limit_vnd
      → Decides p c tmp_aut_01

category_in_iff :
    (k : TemporaryCategory) (l : List TemporaryCategory) → (category_in k l ≡ true) ↔ IsAllowed k l
unfolding category_in
category_in_iff k [] = ground arith
category_in_iff k (member ∷ members) =
    ground (arith, category_in_iff k members, same_category_iff k member)

pub apply_rules-Decides :
    (p : TemporaryProfile) (c : NormalizedCase) {e : Expense} (k : TemporaryCategory)
    (s : EvidenceStatus) (n : ℤ)
    → ProfileIsValid p
    → IsComplete c e k s n
    → Gives (λ d. IsProper p d × Decides p c d.applied_rule_id) (apply_rules p k s n)
unfolding apply_rules
apply_rules-Decides p c k s n valid full = elim (Bool-cases (category_in k p.allowed_categories)) [
  | inr out ↦ rw out (
      proper (category_draft p k) (category_draft-IsProper p valid k)
        (not_allowed full (λ h. cc ((category_in_iff k p.allowed_categories).1 h))))
  | inl in_policy ↦ elim (Bool-cases (same_evidence s p.required_evidence_status)) [
    | inr unmet ↦
        rw (in_policy, unmet)
          (proper (evidence_draft p s) (evidence_draft-IsProper p valid s) (
            unproved full (allowed in_policy)
              (λ h. cc ((same_evidence_iff s p.required_evidence_status).1 h))))
    | inl met ↦ elim (Bool-cases (ltb_ℤ p.auto_approve_limit_vnd n)) [
      | inl over ↦
          rw (in_policy, met, over)
            (proper (authority_draft p n) (authority_draft-IsProper p valid n) (
              over_limit full (allowed in_policy)
                ((same_evidence_iff s p.required_evidence_status).0 met) (ground arith)))
      | inr under ↦
          rw (in_policy, met, under)
            (proper (approved_draft p) (approved_draft-IsProper p valid) (
              within_limit full (allowed in_policy)
                ((same_evidence_iff s p.required_evidence_status).0 met) (ground arith)))
    ]
  ]
]
  where
    allowed : category_in k p.allowed_categories ≡ true → IsAllowed k p.allowed_categories
    allowed h = (category_in_iff k p.allowed_categories).0 h

    proper :
        (d : DecisionDraft)
        → IsProper p d
        → Decides p c d.applied_rule_id
        → Gives (λ d. IsProper p d × Decides p c d.applied_rule_id) (new_draft d)
    proper d h rule =
        new_draft-Gives (λ d. IsProper p d × Decides p c d.applied_rule_id) d h.valid (h, rule)

-- Of a tuple of facts, none is missing exactly when the loop finds none.
pub first_missing-none :
    (facts : List (String × Fact))
    → (first_missing facts ≡ none)
      ↔ All (λ (entry : String × Fact). is_missing entry.1 ≡ false) facts
unfolding first_missing
first_missing-none [] = ground arith
first_missing-none ((path, value) ∷ facts) = ground (arith, first_missing-none facts)

pub text-IsSolid : (o : Option String) → (is_missing (optional text o) ≡ false) ↔ IsSolid o
unfolding is_missing
text-IsSolid none = ground arith
text-IsSolid (some s) = ground arith

category_given :
    (o : Option TemporaryCategory)
    → is_missing (optional category o) ≡ false
    → (k : TemporaryCategory) × (o ≡ some k)
unfolding is_missing
category_given none h = absurd (cc)
category_given (some k) h = (k, refl)

evidence_given :
    (o : Option EvidenceStatus)
    → is_missing (optional evidence o) ≡ false
    → (s : EvidenceStatus) × (o ≡ some s)
unfolding is_missing
evidence_given none h = absurd (cc)
evidence_given (some s) h = (s, refl)

amount_given : (o : Option ℤ) → is_missing (optional amount o) ≡ false → (n : ℤ) × (o ≡ some n)
unfolding is_missing
amount_given none h = absurd (cc)
amount_given (some n) h = (n, refl)

pub date_given : (o : Option Date) → (is_missing (optional date o) ≡ false) ↔ (o ≢ none)
unfolding is_missing
date_given none = ground arith
date_given (some n) = ground arith

pub category_not_missing : (k : TemporaryCategory) → is_missing (category k) ≡ false
unfolding is_missing category_value is_blank
category_not_missing test_allowed = refl
category_not_missing test_blocked = refl

pub evidence_not_missing : (s : EvidenceStatus) → is_missing (evidence s) ≡ false
unfolding is_missing evidence_value is_blank
evidence_not_missing present = refl
evidence_not_missing not_provided = refl

pub request_complete :
    (c : NormalizedCase)
    → (first_missing (request_facts c) ≡ none) ↔ (IsSolid c.purpose × IsSolid c.requester_role)
request_complete c = (
  λ h.
      let full = (first_missing-none (request_facts c)).0 h in
      ((text-IsSolid c.purpose).0 full.0, (text-IsSolid c.requester_role).0 full.1.0),
  λ h.
      (first_missing-none (request_facts c)).1
        ((text-IsSolid c.purpose).1 h.0, ((text-IsSolid c.requester_role).1 h.1, tt)),
)

-- Where the loops find nothing missing, the rules have all the values that they read.
pub IsComplete-of_none :
    (c : NormalizedCase) (e? : Option Expense)
    → c.expense ≡ e?
    → first_missing (request_facts c) ≡ none
    → first_missing_expense_fact e? ≡ none
    → (e : Expense) × (k : TemporaryCategory) × (s : EvidenceStatus) × (n : ℤ) × IsComplete c e k s
        n
unfolding first_missing_expense_fact
IsComplete-of_none c none at_e request h = absurd (cc)
IsComplete-of_none c (some e) at_e request h =
    let (purpose, role) = (request_complete c).0 request in
    let full = (first_missing-none (expense_facts e)).0 h in
    let (k, at_k) = category_given e.category full.0 in
    let (n, at_n) = amount_given e.amount_vnd full.1.1.0 in
    let (s, at_s) = evidence_given e.evidence_status full.1.1.1.1.0 in
    (
      e,
      k,
      s,
      n,
      record {
        purpose = purpose;
        role = role;
        expense = at_e;
        category = at_k;
        description = (text-IsSolid e.description).0 full.1.0;
        amount = at_n;
        date = (date_given e.expense_date).0 full.1.1.1.0;
        evidence = at_s;
      },
    )
