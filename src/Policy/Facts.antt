-- ===== src/Policy/Facts.antt =====
-- The values that the policy code passes around as `object`: a business fact, or `None`.
use organization_ai.Base.{String, Bool, true, false, Option, none, some}
use organization_ai.Base.Int.{ℤ}
use organization_ai.Base.Text.{is_blank}
use organization_ai.Domain.Enums.{TemporaryCategory, EvidenceStatus, category_value, evidence_value}
use organization_ai.Domain.Models.{Date}

pub data Fact : Type 0 where
  absent : Fact
  text : String → Fact
  category : TemporaryCategory → Fact
  amount : ℤ → Fact
  date : Date → Fact
  evidence : EvidenceStatus → Fact

abbrev pub optional {ℓ} : {A : Type ℓ} → (A → Fact) → Option A → Fact
optional f none = absent
optional f (some a) = f a

-- `value is None`
unfoldable pub is_none : Fact → Bool
is_none absent = true
is_none _ = false

-- `_is_missing`. The enums are subclasses of `str`, so their values are stripped too.
unfoldable pub is_missing : Fact → Bool
is_missing absent = true
is_missing (text s) = is_blank s
is_missing (category c) = is_blank (category_value c)
is_missing (evidence e) = is_blank (evidence_value e)
is_missing _ = false
