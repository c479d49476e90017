-- ===== src/Policy/Profile.antt =====
-- backend/app/policy/profile.py: the sole profile, `TMP_DEV_001_PROFILE`.
use organization_ai.Base.{[], ◌∷◌, ◌≡◌, refl, arith}
use organization_ai.Base.Int.{pos}
use organization_ai.Base.Text.{is_blank}
use organization_ai.Base.Result.{ok}
use organization_ai.Domain.Enums.{
  test_allowed, present, temporary_development, synthetic, unvalidated,
}
use organization_ai.Domain.Models.{TemporaryProfile, new_profile}
use organization_ai.Domain.Models.Validity.{ProfileIsValid, new_profile_iff}

abbrev pub tmp_dev_001_profile : TemporaryProfile
tmp_dev_001_profile = record {
  profile_id = "TMP-DEV-001";
  profile_source = temporary_development;
  data_class = synthetic;
  workflow_validation_status = unvalidated;
  allowed_categories = test_allowed ∷ [];
  required_evidence_status = present;
  auto_approve_limit_vnd = pos 1000;
}

pub tmp_dev_001_profile-IsValid : ProfileIsValid tmp_dev_001_profile
unfolding is_blank
tmp_dev_001_profile-IsValid = (refl, omega arith)

-- The construction at import does not raise.
tmp_dev_001_profile-new : new_profile tmp_dev_001_profile ≡ ok tmp_dev_001_profile
tmp_dev_001_profile-new = (new_profile_iff tmp_dev_001_profile).1 tmp_dev_001_profile-IsValid
