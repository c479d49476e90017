-- ===== src/Policy/Evaluator/Unique.antt =====
-- The rules of backend/app/policy/evaluator.py exclude one another, so the account of its decision
-- determines it.
use organization_ai.Base.{◌≡◌, ◌≢◌, ◌↔◌, refl, sym, ap, ◌∙◌, subst, arith}
use organization_ai.Base.Int.{ℤ, ◌<ℤ◌, ◌≤ℤ◌}
use organization_ai.Base.Result.{Gives, Gives-map}
use organization_ai.Domain.Enums.{
  TemporaryCategory, EvidenceStatus, TemporaryRuleId, DecisionOutcome, tmp_req_01, tmp_cat_01,
  tmp_evd_01, tmp_aut_01, tmp_aut_02,
}
use organization_ai.Domain.Models.{Expense, NormalizedCase, TemporaryProfile}
use organization_ai.Domain.Models.Validity.{ProfileIsValid}
use organization_ai.Policy.Evaluator.{evaluate_case}
use organization_ai.Policy.Evaluator.Drafts.{rule_outcome}
use organization_ai.Policy.Evaluator.Rules.{
  IsComplete, IsAllowed, Decides, fact_missing, not_allowed, unproved, over_limit, within_limit,
}
use organization_ai.Policy.Evaluator.Decision.{evaluate_case-Decides}

-- What a rule asks of the facts that it reads.
abbrev Verdict :
    TemporaryProfile → TemporaryCategory → EvidenceStatus → ℤ → TemporaryRuleId → Type 0
Verdict p k s n tmp_req_01 = ⊥
Verdict p k s n tmp_cat_01 = ¬ IsAllowed k p.allowed_categories
Verdict p k s n tmp_evd_01 = IsAllowed k p.allowed_categories × (s ≢ p.required_evidence_status)
Verdict p k s n tmp_aut_02 =
    IsAllowed k p.allowed_categories
    × (s ≡ p.required_evidence_status)
    × (p.auto_approve_limit_vnd <ℤ n)
Verdict p k s n tmp_aut_01 =
    IsAllowed k p.allowed_categories
    × (s ≡ p.required_evidence_status)
    × (n ≤ℤ p.auto_approve_limit_vnd)

same_facts :
    {c : NormalizedCase} {e e' : Expense} {k k' : TemporaryCategory} {s s' : EvidenceStatus}
    {n n' : ℤ}
    → IsComplete c e k s n
    → IsComplete c e' k' s' n'
    → (k ≡ k') × (s ≡ s') × (n ≡ n')
same_facts f f' = ground (
  arith, f.expense, f'.expense, f.category, f'.category, f.evidence, f'.evidence, f.amount,
  f'.amount,
)

Verdict-unique :
    (p : TemporaryProfile) (k : TemporaryCategory) (s : EvidenceStatus) (n : ℤ)
    (r r' : TemporaryRuleId)
    → Verdict p k s n r
    → Verdict p k s n r'
    → r ≡ r'
Verdict-unique p k s n tmp_req_01 r' v v' = absurd v
Verdict-unique p k s n r tmp_req_01 v v' = absurd v'
Verdict-unique p k s n tmp_cat_01 tmp_cat_01 v v' = refl
Verdict-unique p k s n tmp_cat_01 r' v v' = absurd (v v'.0)
Verdict-unique p k s n r tmp_cat_01 v v' = absurd (v' v.0)
Verdict-unique p k s n tmp_evd_01 tmp_evd_01 v v' = refl
Verdict-unique p k s n tmp_evd_01 r' v v' = absurd (v.1 v'.1)
Verdict-unique p k s n r tmp_evd_01 v v' = absurd (v'.1 v.1)
Verdict-unique p k s n tmp_aut_01 tmp_aut_01 v v' = refl
Verdict-unique p k s n tmp_aut_02 tmp_aut_02 v v' = refl
Verdict-unique p k s n r r' v v' = absurd (omega arith)

module _ {p : TemporaryProfile} {c : NormalizedCase} {e : Expense} {k : TemporaryCategory}
    {s : EvidenceStatus} {n : ℤ} (full : IsComplete c e k s n) where
  Decides-Verdict : {r : TemporaryRuleId} → Decides p c r → Verdict p k s n r
  Decides-Verdict (fact_missing m) = absurd (m _ _ _ _ full)
  Decides-Verdict (not_allowed f out) =
      let (same_k, same_s, same_n) = same_facts full f in rw same_k out
  Decides-Verdict (unproved f allowed unmet) =
      let (same_k, same_s, same_n) = same_facts full f in rw (same_k, same_s) (allowed, unmet)
  Decides-Verdict (over_limit f allowed met over) =
      let (same_k, same_s, same_n) = same_facts full f in
      rw (same_k, same_s, same_n) (allowed, met, over)
  Decides-Verdict (within_limit f allowed met under) =
      let (same_k, same_s, same_n) = same_facts full f in
      rw (same_k, same_s, same_n) (allowed, met, under)

  Decides-same : {r r' : TemporaryRuleId} → Decides p c r → Decides p c r' → r ≡ r'
  Decides-same {r} {r'} a b = Verdict-unique p k s n r r' (Decides-Verdict a) (Decides-Verdict b)

-- No case is decided by two rules.
Decides-unique :
    {p : TemporaryProfile} {c : NormalizedCase} {r r' : TemporaryRuleId}
    → Decides p c r
    → Decides p c r'
    → r ≡ r'
Decides-unique (fact_missing m) (fact_missing m') = refl
Decides-unique (fact_missing m) (not_allowed f _) = absurd (m _ _ _ _ f)
Decides-unique (fact_missing m) (unproved f _ _) = absurd (m _ _ _ _ f)
Decides-unique (fact_missing m) (over_limit f _ _ _) = absurd (m _ _ _ _ f)
Decides-unique (fact_missing m) (within_limit f _ _ _) = absurd (m _ _ _ _ f)
Decides-unique (not_allowed f out) b = Decides-same f (not_allowed f out) b
Decides-unique (unproved f allowed unmet) b = Decides-same f (unproved f allowed unmet) b
Decides-unique (over_limit f allowed met over) b = Decides-same f (over_limit f allowed met over) b
Decides-unique (within_limit f allowed met under) b =
    Decides-same f (within_limit f allowed met under) b

approved_rule :
    (r : TemporaryRuleId) → rule_outcome r ≡ DecisionOutcome.auto_approved → r ≡ tmp_aut_01
approved_rule tmp_aut_01 h = refl
approved_rule r h = absurd (cc)

-- With a valid profile the evaluator returns, and it approves a case exactly when every fact is
-- given, its category is allowed, its evidence is as required and its amount is within the limit.
pub approval_iff :
    (c : NormalizedCase) (p : TemporaryProfile)
    → ProfileIsValid p
    → Gives
        (λ d. (d.outcome ≡ DecisionOutcome.auto_approved) ↔ Decides p c tmp_aut_01)
        (evaluate_case c p)
approval_iff c p valid =
    Gives-map (evaluate_case c p)
      (λ d h. (
        λ approved.
            subst (Decides p c) (approved_rule d.applied_rule_id (sym h.0.outcome ∙ approved)) h.1,
        λ rule. h.0.outcome ∙ ap rule_outcome (Decides-unique h.1 rule),
      ))
      (evaluate_case-Decides c p valid)
