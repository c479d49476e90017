-- ===== src/Domain/Enums.antt =====
-- backend/app/domain/enums.py. Each enum is a data type, its `value` strings a function, and
-- `DecisionOutcome(text)`, which raises on an unknown text, a partial inverse.
use organization_ai.Base.{
  String, Bool, true, false, ◌≡◌, ◌↔◌, refl, str_eq, eq_iff, if◌then◌else◌, arith,
}
use organization_ai.Base.Result.{PyError, value_error, Result, ok, err}

pub data TemporaryCategory : Type 0 where
  test_allowed test_blocked : TemporaryCategory

pub data EvidenceStatus : Type 0 where
  present not_provided : EvidenceStatus

pub data DecisionOutcome : Type 0 where
  auto_approved missing_fact out_of_policy authority_exceeded : DecisionOutcome

pub data TemporaryRuleId : Type 0 where
  tmp_req_01 tmp_cat_01 tmp_evd_01 tmp_aut_01 tmp_aut_02 : TemporaryRuleId

pub data ProfileSource : Type 0 where
  temporary_development : ProfileSource

pub data DataClass : Type 0 where
  synthetic : DataClass

pub data WorkflowValidationStatus : Type 0 where
  unvalidated : WorkflowValidationStatus

unfoldable pub category_value : TemporaryCategory → String
category_value test_allowed = "TEST_ALLOWED"
category_value test_blocked = "TEST_BLOCKED"

unfoldable pub evidence_value : EvidenceStatus → String
evidence_value present = "PRESENT"
evidence_value not_provided = "NOT_PROVIDED"

unfoldable pub outcome_value : DecisionOutcome → String
outcome_value auto_approved = "AUTO_APPROVED"
outcome_value missing_fact = "MISSING_FACT"
outcome_value out_of_policy = "OUT_OF_POLICY"
outcome_value authority_exceeded = "AUTHORITY_EXCEEDED"

unfoldable pub rule_value : TemporaryRuleId → String
rule_value tmp_req_01 = "TMP-REQ-01"
rule_value tmp_cat_01 = "TMP-CAT-01"
rule_value tmp_evd_01 = "TMP-EVD-01"
rule_value tmp_aut_01 = "TMP-AUT-01"
rule_value tmp_aut_02 = "TMP-AUT-02"

unfoldable pub source_value : ProfileSource → String
source_value temporary_development = "TEMPORARY_DEVELOPMENT"

unfoldable pub data_class_value : DataClass → String
data_class_value synthetic = "SYNTHETIC"

unfoldable pub validation_value : WorkflowValidationStatus → String
validation_value unvalidated = "UNVALIDATED"

-- `DecisionOutcome(text)`
unfoldable pub outcome_of : String → Result PyError DecisionOutcome
outcome_of text =
    if str_eq text "AUTO_APPROVED"
    then ok auto_approved
    else if str_eq text "MISSING_FACT"
    then ok missing_fact
    else if str_eq text "OUT_OF_POLICY"
    then ok out_of_policy
    else if str_eq text "AUTHORITY_EXCEEDED"
    then ok authority_exceeded
    else err (value_error text)

-- `e in members`, on the decided equality of the categories
unfoldable pub same_category : TemporaryCategory → TemporaryCategory → Bool
same_category test_allowed test_allowed = true
same_category test_blocked test_blocked = true
same_category _ _ = false

unfoldable pub same_evidence : EvidenceStatus → EvidenceStatus → Bool
same_evidence present present = true
same_evidence not_provided not_provided = true
same_evidence _ _ = false

pub outcome_of-value : (o : DecisionOutcome) → outcome_of (outcome_value o) ≡ ok o
unfolding outcome_of outcome_value
outcome_of-value auto_approved = refl
outcome_of-value missing_fact = refl
outcome_of-value out_of_policy = refl
outcome_of-value authority_exceeded = refl

pub outcome_value-of :
    (text : String) (o : DecisionOutcome) → outcome_of text ≡ ok o → outcome_value o ≡ text
unfolding outcome_of outcome_value
outcome_value-of text o h = ground (
  arith,
  eq_iff text "AUTO_APPROVED",
  eq_iff text "MISSING_FACT",
  eq_iff text "OUT_OF_POLICY",
  eq_iff text "AUTHORITY_EXCEEDED",
)

pub same_category_iff : (a b : TemporaryCategory) → (same_category a b ≡ true) ↔ (a ≡ b)
unfolding same_category
same_category_iff a b = ground arith

pub same_evidence_iff : (a b : EvidenceStatus) → (same_evidence a b ≡ true) ↔ (a ≡ b)
unfolding same_evidence
same_evidence_iff a b = ground arith
